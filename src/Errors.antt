-- ===== src/Errors.antt =====
-- pkg/errors/errors.go, and the classes of errors of pkg/controller/refresolver.go and
-- pkg/controller/kit/controller_kit.go. A test `errors.Cause(err).(transient)` asks for the type of
-- the cause, which the constructor stands for.
pub mod Classes
use k8cc.Prelude.{Bool, true, false, Option, none, some}
use k8cc.GoError.{GoError, Event, transient_error, ambiguous_reference_error, eventful_error}
use k8cc.Library.{Library}

-- The methods Transient, AmbiguousReference and HasEvent, where the error has them.
unfoldable pub transient : GoError → Bool
transient (transient_error e) = true
transient _ = false

unfoldable pub ambiguous : GoError → Bool
ambiguous (ambiguous_reference_error e) = true
ambiguous _ = false

unfoldable pub eventful : GoError → Option Event
eventful (eventful_error e event) = some event
eventful _ = none

-- TransientError(err): nil stays nil.
unfoldable pub transient_or_nil : Option GoError → Option GoError
transient_or_nil none = none
transient_or_nil (some e) = some (transient_error e)

module _ ⦃lib : Library⦄ where
  unfoldable pub is_transient : GoError → Bool
  unfolding transient
  is_transient e = transient (lib.cause e)

  unfoldable pub is_ambiguous_reference : GoError → Bool
  unfolding ambiguous
  is_ambiguous_reference e = ambiguous (lib.cause e)

  unfoldable pub has_event : GoError → Option Event
  unfolding eventful
  has_event e = eventful (lib.cause e)
