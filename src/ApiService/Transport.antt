-- ===== src/ApiService/Transport.antt =====
-- pkg/apiserver/service/transport.go: the requests that the routes decode, and the status codes. The
-- path variables of github.com/gorilla/mux are a map; JSON and the routes are the libraries'.
use k8cc.Prelude.{ℕ, String, ◌≡◌, ◌↔◌, Option, none, some, arith}
use k8cc.GoError.{GoError, sentinel, Sentinel, Result, ok, err}
use k8cc.Kube.{Labels, lookup}

pub record LeaseRequest : Type 0 where
  pub user : String
  pub namespace : String
  pub tag : String

abbrev pub bad_routing : Result LeaseRequest
bad_routing = err (sentinel Sentinel.err_bad_routing)

-- The request with its user, tag and namespace, in the order of the lookups.
unfoldable pub request_of : Option String → Option String → Option String → Result LeaseRequest
request_of none tag ns = bad_routing
request_of (some user) none ns = bad_routing
request_of (some user) (some tag) none = bad_routing
request_of (some user) (some tag) (some ns) = ok (record { user = user; namespace = ns; tag = tag })

unfoldable pub decode_lease_request : Labels → Result LeaseRequest
unfolding request_of
decode_lease_request vars =
    request_of (lookup "user" vars) (lookup "tag" vars) (lookup "namespace" vars)

-- The switch compares with `==`: a wrapped sentinel is another error.
unfoldable pub code_from : GoError → ℕ
code_from (sentinel Sentinel.err_canceled) = 408
code_from (sentinel Sentinel.err_not_found) = 404
code_from _ = 500

-- The status of the answer: that of the error, if there is one.
unfoldable pub encode_response : Option GoError → ℕ
unfolding code_from
encode_response none = 200
encode_response (some e) = code_from e

request_of_iff :
    (user tag ns : Option String) (r : LeaseRequest)
    → (request_of user tag ns ≡ ok r)
      ↔ ((user ≡ some r.user) × (tag ≡ some r.tag) × (ns ≡ some r.namespace))
unfolding request_of
request_of_iff none tag ns r = (λ h. absurd (ground arith), λ h. absurd (ground arith))
request_of_iff (some u) none ns r = (λ h. absurd (ground arith), λ h. absurd (ground arith))
request_of_iff (some u) (some t) none r = (λ h. absurd (ground arith), λ h. absurd (ground arith))
request_of_iff (some u) (some t) (some n) r = (λ h. ground arith, λ h. ground arith)

-- A request is decoded if and only if its user, tag and namespace are among the path variables.
pub decode_lease_request_iff :
    (vars : Labels) (r : LeaseRequest)
    → (decode_lease_request vars ≡ ok r) ↔ (
        (lookup "user" vars ≡ some r.user)
        × (lookup "tag" vars ≡ some r.tag)
        × (lookup "namespace" vars ≡ some r.namespace))
unfolding decode_lease_request
decode_lease_request_iff vars r = request_of_iff _ _ _ r
