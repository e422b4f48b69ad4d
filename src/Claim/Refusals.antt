-- ===== src/Claim/Refusals.antt =====
-- When `Sync` of pkg/controller/distccclaim/distccclaim_controller.go refuses a claim.
use k8cc.Prelude.{String, ◌≡◌, refl, true, false, some, ◌⊎◌, inl, inr, Bool-cases}
use k8cc.Prelude.Text.{◌<>◌, str_eq}
use k8cc.GoError.{GoError, Event, Result, ok, err}
use k8cc.Errors.{has_event, is_transient}
use k8cc.Errors.Classes.{eventful_error_class}
use k8cc.Types.{Distcc, DistccClaim}
use k8cc.Library.{Library}
use k8cc.Cluster.{Cluster, Run}
use k8cc.Claim.{warning, sync_with, sync}

module _ ⦃lib : Library⦄ {W : Type 0} ⦃cluster : Cluster W⦄ where
  -- The claim names no Distcc, or one that the cache does not give, or one with a label that the
  -- claim has not.
  abbrev pub Refused : DistccClaim → W → Type 0
  Refused claim w =
      (claim.spec.distcc_name ≡ "")
      ⊎ ((e : GoError) × (cluster.cached_distcc w claim.metadata.namespace claim.spec.distcc_name
            ≡ err e))
      ⊎ ((distcc : Distcc) × (cluster.cached_distcc w claim.metadata.namespace
              claim.spec.distcc_name
            ≡ ok distcc)
          × (lib.as_selector distcc.metadata.labels claim.metadata.labels ≡ false))

  -- The refusal: no change, an error that carries a warning of reason ErrDistccNotFound and is not
  -- transient, and the run as it was.
  pub record Refuses (claim : DistccClaim) (s : Run W) : Type 0 where
    pub msg : String
    pub result : sync claim s ≡ ((false, some (warning msg)), s)
    pub event : Event
    pub carried : has_event (warning msg) ≡ some event
    pub reason : event.reason ≡ "ErrDistccNotFound"
    pub permanent : is_transient (warning msg) ≡ false

  refusal :
      (claim : DistccClaim) (s : Run W) (msg : String)
      → sync claim s ≡ ((false, some (warning msg)), s)
      → Refuses claim s
  unfolding warning
  refusal claim s msg h = record {
    msg = msg;
    result = h;
    event = record { type = "Warning"; reason = "ErrDistccNotFound"; message = msg };
    carried = (eventful_error_class _ _).2;
    reason = refl;
    permanent = (eventful_error_class _ _).0;
  }

  named :
      (claim : DistccClaim) (s : Run W) (r : Result Distcc) (msg : String)
      → cluster.cached_distcc s.world claim.metadata.namespace claim.spec.distcc_name ≡ r
      → sync_with claim r s ≡ ((false, some (warning msg)), s)
      → Refuses claim s
  unfolding sync
  named claim s r msg h e = elim (Bool-cases (str_eq claim.spec.distcc_name "")) [
    | inl empty ↦ refusal claim s "spec.distccName name must be specified" (simp empty)
    | inr given ↦ refusal claim s msg (simp (given, h) e)
  ]

  -- A claim that names no Distcc, or one that the cache does not give, or one whose labels it has
  -- not all, is refused: nothing is written, the clock is not read, and the error carries a warning of
  -- reason ErrDistccNotFound and is not transient.
  pub sync-Refuses : (claim : DistccClaim) (s : Run W) → Refused claim s.world → Refuses claim s
  unfolding sync
  sync-Refuses claim s (inl empty) =
      refusal claim s "spec.distccName name must be specified"
        (let none_given : str_eq claim.spec.distcc_name "" ≡ true = rw empty in simp none_given)
  sync-Refuses claim s (inr (inl (e, missing))) =
      named claim s (err e) ("referenced Distcc " <> (claim.spec.distcc_name <> " not present yet"))
        missing refl
  sync-Refuses claim s (inr (inr (distcc, found, differs))) =
      named claim s (ok distcc)
        ("metadata.Labels cannot be matched by the referenced Distcc " <> claim.spec.distcc_name)
        found (simp differs)
