-- ===== src/Lib.antt =====
-- k8cc: distcc and its clients, autoscaled on Kubernetes.
--
-- The program is two processes over one Kubernetes API server. The controllers (cmd/k8cc-controller)
-- watch custom resources and reconcile the cluster with them; the API (cmd/k8cc-api) gives users
-- leases by creating and renewing claims. This library models the controllers and the
-- service of the API:
--
--   GoError, Errors  pkg/errors/errors.go and the error classes of refresolver.go and
--                    controller_kit.go; an error value is data, an `error` that may be nil an Option
--   Clock, Conv      Go's time in nanoseconds, and pkg/conv/time.go
--   Types            pkg/apis/k8cc.io/v1alpha1/types.go
--   Kube             the fields of Deployments, Services and their metadata that the code touches
--   Lease            updateExpiration and isExpired of the claim controllers
--   Distcc           pkg/controller/distcc/distcc_controller.go: `sync` is Sync, with one function for
--                    each phase; Replicas is the arithmetic of desiredReplicas and needScale;
--                    Convergence has repeated Syncs in a cluster that takes its writes
--   Claim            pkg/controller/distccclaim/distccclaim_controller.go: `sync` is Sync
--   Kit              pkg/controller/kit/controller_kit.go: `process_next_work_item` is one step of a
--                    worker, Informer the event handlers that fill its queue, Hooks the interface
--                    ControllerHandler, which the Hooks of each controller fill
--   Refs             pkg/controller/refresolver.go: an object through a reference or a selector
--   ClientClaim      pkg/controller/distccclientclaim/distccclientclaim_controller.go: `sync` is Sync,
--                    Labels and Objects have what it creates, Serving its first Syncs
--   ApiService       pkg/apiserver/service/service.go: `lease_distcc` is LeaseDistcc, and so on; Claims
--                    has the claims it creates, Retry is getWithRetry, Renewals one attempt;
--                    Endpoints, Transport and Middleware the files endpoints.go, transport.go
--                    and middlewares.go beside it; Handover has the service and
--                    the controller of client claims together
--   DeepCopy         pkg/apis/k8cc.io/v1alpha1/zz_generated.deepcopy.go over a memory of cells: Raw has
--                    the resources with their pointers, Resources, Statuses, Objects and Lists the DeepCopyInto
--                    of each type, Copies and Lists its DeepCopy and DeepCopyObject
--   Listers          pkg/client/listers/k8cc.io/v1alpha1: `namespace_get` is Get, `list` and
--                    `namespace_list` are List; Kinds has those of each file
--   Factory          pkg/client/informers/externalversions/factory.go: Start, WaitForCacheSync and
--                    InformerFor
--   Clientset        pkg/client/clientset/versioned/typed/k8cc.io/v1alpha1: the requests of the typed
--                    clients, Kinds has those of each file; Fakes and FakeKinds the files of fake/
--   Lifecycle        the service and the claim controller together: histories of steps of both over
--                    the stored claims, and Spec, what they may do to a lease
--
-- They interact through the objects in the API server: the claim controller sets the expiration of a
-- claim, the Distcc controller counts the claims and scales its deployment, the controller of client
-- claims gives each of them a deployment and a service, and the kit turns an
-- event on an object into a Sync of the custom resource that it belongs to.
--
-- What is not under pkg/ and cmd/ is a parameter. `Library` has the functions of github.com/pkg/errors,
-- k8s.io/apimachinery and client-go's key functions, with what their documentation says of them;
-- `Cluster` has the caches, the API server and the clock, over an abstract world of which nothing is
-- assumed: any call may fail, and the clock may do anything that a theorem does not exclude;
-- `Kit.Queue.WorkQueue` has the work queue; `ApiService.Remote` has the reads of the API server and
-- ExponentialBackoff of k8s.io/apimachinery; `Lifecycle.Backend` says what the API server stores;
-- `Listers.Index.Indexer` is the store of an informer; `DeepCopy.Raw.Foreign` has the deep copies of
-- the types of other packages; `Clientset.Rest` is the REST client and `Clientset.Fakes.Fake` what
-- stands for it in tests;
-- `ApiService.Middleware.Logger` is the logger; `Distcc.Convergence.Prompt` is a cluster that takes
-- the writes of a controller. Samples has a value of each, for the tests.
--
-- A `Run` is the world with the writes that were asked for, in order. A method that returns a value
-- and an error returns both, since the value counts beside an error too. int32 values are integers,
-- and `wrap32` cuts the results of arithmetic. A time is a natural number of nanoseconds since the
-- year 1, and `add` stops there, which no lease reaches. An object is a value there; DeepCopy has
-- the pointers, and shows that the code may treat a deep copy as a value. Labels are association
-- lists read by `lookup`. The loop of a worker has fuel, and one round more than the queue has
-- items is enough once the queue is shut down; each other loop goes over a list, and the twelve
-- retries of the service are the library's.
--
-- Not modelled: the routes and the JSON bodies of the API (pkg/apiserver/service), the start-up code
-- (cmd, shared_client.go, the wiring in NewController and Run), the lines that the service and the
-- controllers log themselves, the clientset and the informers of each type (pkg/client), and the
-- vendored packages.
pub mod Prelude
pub mod GoError
pub mod Clock
pub mod Kube
pub mod Types
pub mod Library
pub mod Errors
pub mod Conv
pub mod Cluster
pub mod Lease
pub mod Distcc
pub mod Claim
pub mod Kit
pub mod Refs
pub mod ClientClaim
pub mod ApiService
pub mod Lifecycle
pub mod DeepCopy
pub mod Listers
pub mod Factory
pub mod Clientset
pub mod Samples
