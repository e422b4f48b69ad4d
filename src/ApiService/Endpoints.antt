-- ===== src/ApiService/Endpoints.antt =====
-- pkg/apiserver/service/endpoints.go: each endpoint calls the operation of a service and puts what
-- it returns into a response. A panic of the operation is one of the endpoint.
use k8cc.Prelude.{Action, Option}
use k8cc.Clock.{round}
use k8cc.GoError.{GoError}
use k8cc.Cluster.{Run}
use k8cc.ApiService.Answers.{Tag, DistccLease, ClientLease, Outcome, returned, panicked}
use k8cc.ApiService.Transport.{LeaseRequest}
use k8cc.ApiService.Operations.{Service}

pub record LeaseDistccResponse : Type 0 where
  pub lease : DistccLease
  pub err : Option GoError

pub record LeaseClientResponse : Type 0 where
  pub lease : ClientLease
  pub err : Option GoError

pub record DeleteLeaseResponse : Type 0 where
  pub err : Option GoError

unfoldable pub new_lease_distcc_response :
    Outcome (DistccLease × Option GoError) → Outcome LeaseDistccResponse
unfolding round
new_lease_distcc_response panicked = panicked
new_lease_distcc_response (returned (lease, e)) =
    returned (record { lease = record lease { expiration = round lease.expiration }; err = e })

unfoldable pub new_lease_client_response :
    Outcome (ClientLease × Option GoError) → Outcome LeaseClientResponse
unfolding round
new_lease_client_response panicked = panicked
new_lease_client_response (returned (lease, e)) =
    returned (record { lease = record lease { expiration = round lease.expiration }; err = e })

-- The tag of a request.
abbrev pub tag_of : LeaseRequest → Tag
tag_of req = record { namespace = req.namespace; name = req.tag }

module _ {W : Type 0} (service : Service W) where
  -- MakePutLeaseDistccEndpoint
  unfoldable pub put_lease_distcc : LeaseRequest → Action (Run W) (Outcome LeaseDistccResponse)
  unfolding new_lease_distcc_response
  put_lease_distcc req s =
      let (r, t) = service.lease_distcc req.user (tag_of req) s in (new_lease_distcc_response r, t)

  -- MakeDeleteLeaseDistccEndpoint
  unfoldable pub delete_lease_distcc : LeaseRequest → Action (Run W) DeleteLeaseResponse
  delete_lease_distcc req s =
      let (e, t) = service.delete_distcc req.user (tag_of req) s in (record { err = e }, t)

  -- MakePutLeaseClientEndpoint
  unfoldable pub put_lease_client : LeaseRequest → Action (Run W) (Outcome LeaseClientResponse)
  unfolding new_lease_client_response
  put_lease_client req s =
      let (r, t) = service.lease_client req.user (tag_of req) s in (new_lease_client_response r, t)

  -- MakeDeleteLeaseClientEndpoint
  unfoldable pub delete_lease_client : LeaseRequest → Action (Run W) DeleteLeaseResponse
  delete_lease_client req s =
      let (e, t) = service.delete_client req.user (tag_of req) s in (record { err = e }, t)
