-- ===== src/ClientClaim/Labels.antt =====
-- pkg/controller/distccclientclaim/distccclientclaim_controller.go: the labels and the selector that
-- mark the objects of a user. A Go map is iterated in no given order; the copy takes the entries from
-- the end, so that an entry which `lookup` sees is written last.
use k8cc.Prelude.{String, Option, none, some, [], ◌∷◌}
use k8cc.Kube.{Labels, put, LabelSelector}

-- UserLabel
abbrev pub user_label : String
user_label = "k8cc.io/username"

unfoldable pub copy : Labels → Labels
copy [] = []
copy ((k, v) ∷ labels) = put (copy labels) k v

unfoldable pub get_labels_for_user : Labels → String → Labels
unfolding copy
get_labels_for_user labels user = put (copy labels) user_label user

unfoldable pub with_labels_for_user : Option Labels → LabelSelector → String → Option LabelSelector
unfolding get_labels_for_user
with_labels_for_user none selector user = none
with_labels_for_user (some labels) selector user = some (record {
  match_labels = some (get_labels_for_user labels user);
  match_expressions = selector.match_expressions;
})

unfoldable pub get_selector_for_user : Option LabelSelector → String → Option LabelSelector
unfolding with_labels_for_user
get_selector_for_user none user = none
get_selector_for_user (some selector) user =
    with_labels_for_user selector.match_labels selector user
