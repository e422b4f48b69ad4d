-- ===== src/ClientClaim/Tests.antt =====
-- Tests of the controller of client claims, and its theorems at concrete inputs.
use k8cc.Prelude.{
  some, Bool-cases, inl, inr, ◌↔◌, String, ◌≡◌, ◌≢◌, refl, true, false, none, [], ◌∷◌, arith,
  eq_iff,
}
use k8cc.Prelude.Text.{str_eq, ◌<>◌}
use k8cc.Clock.{Time}
use k8cc.GoError.{GoError, message, ambiguous_reference_error, ok}
use k8cc.Samples.Selectors.{from_set}
use k8cc.Kube.{put, lookup, Labels}
use k8cc.Types.{DistccClientClaim}
use k8cc.Cluster.{Cluster}
use k8cc.Cluster.Writes.{Adds}
use k8cc.Samples.{sample_library, answering, Answers, nothing}
use k8cc.Samples.Objects.{editor, secret_named, mike_until, mike_deployment, mike_service}
use k8cc.Samples.Arrivals.{start, afterwards, fresh_mike, catching_up}
use k8cc.ClientClaim.{user_selector, sync}
use k8cc.Types.{DistccClientClaim}
use k8cc.ClientClaim.Labels.{user_label}
use k8cc.ClientClaim.Objects.{volumes_with}
use k8cc.ClientClaim.Ownership.{IsOwnWrite, client_sync-IsOwnWrite}
use k8cc.ClientClaim.Serving.{first_writes, recording, served, fresh_claim_settles}
use k8cc.ClientClaim.Users.{Valid, other_users_not_selected_iff}
use k8cc.ClientClaim.Volumes.{volume_from, volumes_share_last}

abbrev with_all : Answers
with_all = record nothing {
  client = ok editor;
  deployment = ok mike_deployment;
  service = ok mike_service;
}

named : ◌≢◌ {A = String} "editor" ""
named e = ground (arith, eq_iff "editor" "")

first_named : ◌≢◌ {A = String} "mike-editor-1" ""
first_named e = ground (arith, eq_iff "mike-editor-1" "")

second_named : ◌≢◌ {A = String} "mike-editor-2" ""
second_named e = ground (arith, eq_iff "mike-editor-2" "")

-- A cache with two deployments for any selector.
abbrev crowded : Cluster Time
crowded = record (answering (record nothing { client = ok editor })) {
  cached_deployments = λ w namespace selector. ok (mike_deployment ∷ mike_deployment ∷ []);
}

abbrev two_match : GoError
two_match =
    ambiguous_reference_error
      (message ("multiple objects (" <> ("n" <> ") satisfy the label selector, expected only one")))

abbrev two_match_text : String
two_match_text = "multiple objects (n) satisfy the label selector, expected only one"

client_sync-IsOwnWrite_example :
    Adds
      (IsOwnWrite (mike_until none))
      start
      (sync ⦃cluster = answering with_all⦄ (mike_until none) start).1
client_sync-IsOwnWrite_example =
    client_sync-IsOwnWrite ⦃cluster = answering with_all⦄ (mike_until none) start

abbrev anna_labels : Labels
anna_labels = ("app", "editor") ∷ ("k8cc.io/username", "anna") ∷ []

anna_not_mike : ◌≢◌ {A = String} "anna" "mike"
anna_not_mike e = ground (arith, eq_iff "anna" "mike")

editor-Valid : Valid editor.metadata.labels
unfolding lookup
editor-Valid k v h = elim (Bool-cases (str_eq "app" k)) [
  | inl same ↦ let is_editor : "editor" ≡ v = ground (arith, h) in rw (← is_editor) refl
  | inr other ↦ absurd (let gone : none ≡ some v = rw other at h in ground arith)
]

other_users_not_selected_iff_example :
    user_selector (mike_until none) editor anna_labels ≡ false
    ↔ sample_library.valid_label user_label "mike" ≡ true
unfolding lookup
other_users_not_selected_iff_example =
    other_users_not_selected_iff (mike_until none) editor anna_labels "anna" editor-Valid refl
      anna_not_mike

-- A name with a slash is no label value: its selector finds the objects of anna too.
abbrev odd_user : DistccClientClaim
odd_user = record (mike_until none) {
  spec = record { distcc_client_name = "editor"; user_name = "mike/x"; secrets = [] };
}

odd_user_selects : user_selector odd_user editor anna_labels ≡ true
unfolding user_selector from_set put
odd_user_selects = refl

volumes_share_last_example :
    volumes_with [] (secret_named "ssh" ∷ secret_named "vpn" ∷ [])
    ≡ volume_from (secret_named "vpn") (secret_named "ssh")
      ∷ volume_from (secret_named "vpn") (secret_named "vpn")
      ∷ []
volumes_share_last_example = volumes_share_last [] (secret_named "ssh" ∷ []) (secret_named "vpn")

abbrev served_mike : DistccClientClaim
served_mike = served ⦃cluster = catching_up⦄ fresh_mike editor mike_deployment mike_service start

fresh_claim_settles_example :
    (sync ⦃cluster = catching_up⦄ fresh_mike start ≡ (
      (true, none),
      record {
        world =
            recording ⦃cluster = catching_up⦄ fresh_mike editor mike_deployment mike_service start;
        writes =
            first_writes ⦃cluster = catching_up⦄ fresh_mike editor mike_deployment mike_service
              start;
      },
    ))
    × (sync ⦃cluster = catching_up⦄ served_mike afterwards
        ≡ ((false, none), record { world = 1_012_500_000_000; writes = [] }))
fresh_claim_settles_example =
    fresh_claim_settles ⦃cluster = catching_up⦄ fresh_mike editor mike_deployment mike_service start
      afterwards served_mike (named, refl) (refl, refl, refl) (omega arith)
      (refl, refl, first_named, refl) (refl, refl, second_named, refl) refl refl
      ((named, refl), refl, refl, refl, refl, omega arith, omega arith)
