-- ===== src/Errors/Classes.antt =====
-- The classes of errors exclude one another, and wrapping keeps them.
use k8cc.Prelude.{String, ◌≡◌, ap, refl, true, false, none, some}
use k8cc.GoError.{
  GoError, Event, wrapped, transient_error, ambiguous_reference_error, eventful_error, status,
  StatusReason,
}
use k8cc.Library.{Library}
use k8cc.Errors.{transient, ambiguous, eventful, is_transient, is_ambiguous_reference, has_event}

module _ ⦃lib : Library⦄ where
  -- Wrapping an error by `errors.Wrap` changes neither whether it is transient, nor whether it is an
  -- ambiguous reference, nor its event.
  pub wrapped_class :
      (e : GoError) (m : String)
      → (is_transient (wrapped e m) ≡ is_transient e)
        × (is_ambiguous_reference (wrapped e m) ≡ is_ambiguous_reference e)
        × (has_event (wrapped e m) ≡ has_event e)
  unfolding is_transient is_ambiguous_reference has_event
  wrapped_class e m = (
    ap transient (lib.cause-wrapped e m),
    ap ambiguous (lib.cause-wrapped e m),
    ap eventful (lib.cause-wrapped e m),
  )

  pub transient_error_class :
      (e : GoError)
      → (is_transient (transient_error e) ≡ true)
        × (is_ambiguous_reference (transient_error e) ≡ false)
        × (has_event (transient_error e) ≡ none)
  unfolding is_transient is_ambiguous_reference has_event
  transient_error_class e =
      let same = lib.cause_else (transient_error e) refl in
      (ap transient same, ap ambiguous same, ap eventful same)

  pub eventful_error_class :
      (e : GoError) (event : Event)
      → (is_transient (eventful_error e event) ≡ false)
        × (is_ambiguous_reference (eventful_error e event) ≡ false)
        × (has_event (eventful_error e event) ≡ some event)
  unfolding is_transient is_ambiguous_reference has_event
  eventful_error_class e event =
      let same = lib.cause_else (eventful_error e event) refl in
      (ap transient same, ap ambiguous same, ap eventful same)

  pub ambiguous_error_class :
      (e : GoError)
      → (is_transient (ambiguous_reference_error e) ≡ false)
        × (is_ambiguous_reference (ambiguous_reference_error e) ≡ true)
        × (has_event (ambiguous_reference_error e) ≡ none)
  unfolding is_transient is_ambiguous_reference has_event
  ambiguous_error_class e =
      let same = lib.cause_else (ambiguous_reference_error e) refl in
      (ap transient same, ap ambiguous same, ap eventful same)

  pub status_class :
      (r : StatusReason) (m : String)
      → (is_transient (status r m) ≡ false)
        × (is_ambiguous_reference (status r m) ≡ false)
        × (has_event (status r m) ≡ none)
  unfolding is_transient is_ambiguous_reference has_event
  status_class r m =
      let same = lib.cause_else (status r m) refl in
      (ap transient same, ap ambiguous same, ap eventful same)
