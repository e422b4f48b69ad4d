-- ===== src/Clientset/Tests.antt =====
-- Requests of a typed client, and a list of a fake one.
use k8cc.Prelude.{false, none, some, List, [], ◌∷◌, ◌≡◌, refl}
use k8cc.Prelude.Int.{pos}
use k8cc.GoError.{ok}
use k8cc.Types.{Distcc}
use k8cc.ApiService.Answers.{returned}
use k8cc.Samples.Objects.{dev}
use k8cc.Clientset.{
  Rest, TypedClient, Verb, Call, ListOptions, namespace, resource, name, body, options,
  delete_object,
}
use k8cc.Clientset.Fakes.{Fake, empty_list, fake_list, matching, fake_list_result}
use k8cc.Clientset.Kinds.{distcc_resource}
use k8cc.Clientset.Requests.{run, delete_one}

-- The requests so far, the last one first.
abbrev Log : Type 0
Log = List (Verb × List (Call Distcc))

abbrev logging_rest : Rest Distcc (Unit {0}) (Unit {0}) Log
logging_rest = record {
  do_request = λ verb calls w. (tt, (verb, calls) ∷ w);
  watch_request = λ verb calls w. (ok tt, (verb, calls) ∷ w);
  into = λ p. (dev, none);
  into_list = λ p. (empty_list, none);
  error = λ p. none;
}

abbrev typed : TypedClient Distcc (Unit {0}) (Unit {0}) Log
typed = record { client = logging_rest; ns = "default" }

deletion :
    run distcc_resource typed (delete_one "dev" none) []
    ≡ (
      Verb.delete,
      namespace "default" ∷ resource "distccs" ∷ name "dev" ∷ body (options none) ∷ [],
    )
      ∷ []
unfolding delete_object
deletion = refl

-- A tracker with two objects, and a selector that wants none.
abbrev two_kept : Fake Distcc (Unit {0}) (Unit {0})
two_kept = record {
  invokes = λ plural action w. ((none, none), w);
  invokes_list =
      λ plural action w. ((some (record empty_list { items = some (dev ∷ dev ∷ []) }), none), w);
  invokes_watch = λ plural action w. (ok tt, w);
  extract_label = λ opts. returned (some (λ labels. false));
}

abbrev no_options : ListOptions
no_options = record {
  label_selector = "";
  field_selector = "";
  include_uninitialized = false;
  watch = false;
  resource_version = "";
  timeout_seconds = none;
  limit = pos 0;
  continue = "";
}

-- The items are nil then.
nothing_listed :
    (fake_list distcc_resource (record { fake = two_kept; ns = "default" }) no_options tt).0
    ≡ returned (some empty_list, none)
unfolding fake_list fake_list_result matching
nothing_listed = refl
