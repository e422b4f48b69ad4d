-- ===== src/ApiService/ServingTests.antt =====
-- A lease on a client, from the request to the answer, at a concrete input.
use k8cc.Prelude.{String, ◌≡◌, ◌≢◌, refl, true, none, [], arith, eq_iff}
use k8cc.GoError.{ok}
use k8cc.Types.{DistccClientClaim}
use k8cc.Samples.{sample_library, Answers}
use k8cc.Samples.Objects.{editor, mike_deployment, mike_service}
use k8cc.Samples.Remotes.{sample_backoff, storing}
use k8cc.Samples.Arrivals.{start, afterwards, fresh_mike, with_editor, catching_up}
use k8cc.ClientClaim.{sync}
use k8cc.ClientClaim.Serving.{served, recording, first_writes}
use k8cc.ApiService.Claims.{new_distcc_client_claim}
use k8cc.ApiService.Answers.{Tag, client_without_expiration, returned}
use k8cc.ApiService.Handover.{asked_client_served}
use k8cc.ApiService.{lease_client}

abbrev tag : Tag
tag = record { namespace = "default"; name = "editor" }

abbrev stored : DistccClientClaim
stored = served ⦃cluster = catching_up⦄ fresh_mike editor mike_deployment mike_service start

abbrev served_answers : Answers
served_answers = record with_editor { client_claim = ok stored; service = ok mike_service }

named : ◌≢◌ {A = String} "editor" ""
named e = ground (arith, eq_iff "editor" "")

deployment_named : ◌≢◌ {A = String} "mike-editor-1" ""
deployment_named e = ground (arith, eq_iff "mike-editor-1" "")

service_named : ◌≢◌ {A = String} "mike-editor-2" ""
service_named e = ground (arith, eq_iff "mike-editor-2" "")

asked_client_served_example :
    (sync ⦃cluster = catching_up⦄ fresh_mike start ≡ (
      (true, none),
      record {
        world =
            recording ⦃cluster = catching_up⦄ fresh_mike editor mike_deployment mike_service start;
        writes =
            first_writes ⦃cluster = catching_up⦄ fresh_mike editor mike_deployment mike_service
              start;
      },
    ))
    × ((lease_client ⦃cluster = catching_up⦄ ⦃store = storing served_answers⦄ "mike" tag
          afterwards).0
        ≡ returned (record { expiration = 1_610_500_000_000; node_port = 30022 }, none))
unfolding new_distcc_client_claim
asked_client_served_example =
    asked_client_served ⦃cluster = catching_up⦄ ⦃store = storing served_answers⦄ "mike" tag editor
      "" fresh_mike stored mike_deployment mike_service mike_service
      (record { port = 22; node_port = 30022 }) start afterwards (refl, refl, refl) named refl
      (omega arith) (refl, refl, deployment_named, refl) (refl, refl, service_named, refl) refl refl
      (refl, refl, (client_without_expiration stored, refl))
      (refl, ([], refl), (λ e. omega (arith, e))) (λ w. refl)
