-- ===== src/ClientClaim/Users.antt =====
-- The labels by which the controller of DistccClientClaims tells the objects of users apart.
use k8cc.Prelude.{
  String, ◌≡◌, ◌≢◌, ◌↔◌, ◌∙◌, sym, refl, true, false, false≢true, eq_iff, some, [], ◌∷◌, arith,
  if◌then◌else◌, Bool-cases, inl, inr,
}
use k8cc.Prelude.Text.{str_eq}
use k8cc.Kube.{Labels, lookup, lookup-put, LabelSelector}
use k8cc.Types.{DistccClient, DistccClientClaim}
use k8cc.Library.{Library}
use k8cc.ClientClaim.{user_selector}
use k8cc.ClientClaim.Labels.{
  user_label, copy, get_labels_for_user, get_selector_for_user, with_labels_for_user,
}
use k8cc.ClientClaim.Objects.{new_deploy, new_service}

lookup-copy : (k : String) (ls : Labels) → lookup k (copy ls) ≡ lookup k ls
unfolding copy lookup
lookup-copy k [] = refl
lookup-copy k ((j, v) ∷ ls) = rw (lookup-put (copy ls) j v k, lookup-copy k ls)

-- The labels for a user are the given ones, but for the user's label, which holds the user's name.
pub lookup-get_labels_for_user :
    (k user : String) (ls : Labels)
    → lookup k (get_labels_for_user ls user)
      ≡ (if str_eq user_label k then some user else lookup k ls)
unfolding get_labels_for_user
lookup-get_labels_for_user k user ls = rw (lookup-put (copy ls) user_label user k, lookup-copy k ls)

has_user :
    (user : String) (ls : Labels) → lookup user_label (get_labels_for_user ls user) ≡ some user
has_user user ls = lookup-get_labels_for_user user_label user ls

-- Each label that is wanted is there.
abbrev pub Covers : Labels → Labels → Type 0
Covers want have = (k v : String) → lookup k want ≡ some v → lookup k have ≡ some v

module _ ⦃lib : Library⦄ where
  -- The selector of a claim finds the deployment and the service that the controller creates for the
  -- claim.
  pub created_objects_selected :
      (claim : DistccClientClaim) (client : DistccClient)
      → (user_selector claim client (new_deploy claim client).metadata.labels ≡ true)
        × (user_selector claim client (new_service claim client).metadata.labels ≡ true)
  unfolding user_selector new_deploy new_service
  created_objects_selected claim client =
      let ls = get_labels_for_user client.metadata.labels claim.spec.user_name in
      let same = lib.as_selector_covers ls ls (λ k v h. h) in (same, same)

  -- Each label may stand in a selector.
  abbrev pub Valid : Labels → Type 0
  Valid ls = (k v : String) → lookup k ls ≡ some v → lib.valid_label k v ≡ true

  get_labels_for_user-Valid :
      (user : String) (ls : Labels)
      → Valid ls
      → lib.valid_label user_label user ≡ true
      → Valid (get_labels_for_user ls user)
  get_labels_for_user-Valid user ls valid fine k v =
      rw (lookup-get_labels_for_user k user ls) (elim (Bool-cases (str_eq user_label k)) [
        | inl same ↦ rw same (
            let named : user_label ≡ k = (eq_iff user_label k).0 same in
            λ h. let user_is : user ≡ v = ground (arith, h) in rw (← named, ← user_is) fine)
        | inr other ↦ rw other (valid k v)
      ])

  -- Where the labels of the client are valid: an object that carries the label of another user is not
  -- found by the selector of a claim exactly if the name of the claim's user is a valid label value.
  -- With any other name the selector finds the objects of everybody.
  pub other_users_not_selected_iff :
      (claim : DistccClientClaim) (client : DistccClient) (labels : Labels) (other : String)
      → Valid client.metadata.labels
      → lookup user_label labels ≡ some other
      → other ≢ claim.spec.user_name
      → user_selector claim client labels ≡ false
        ↔ lib.valid_label user_label claim.spec.user_name ≡ true
  unfolding user_selector
  other_users_not_selected_iff claim client labels other valid theirs differs =
      let user = claim.spec.user_name in
      let wanted = get_labels_for_user client.metadata.labels user in
      let ours = has_user user client.metadata.labels in
      (
        λ missed. elim (Bool-cases (lib.valid_label user_label user)) [
          | inl fine ↦ fine
          | inr bad ↦
              let found = lib.as_selector_invalid wanted labels user_label user ours bad in
              absurd (false≢true (sym missed ∙ found))
        ],
        λ fine. elim (Bool-cases (lib.as_selector wanted labels)) [
          | inl found ↦
              let each = get_labels_for_user-Valid user client.metadata.labels valid fine in
              let mine = lib.as_selector_valid wanted labels each found user_label user ours in
              absurd (differs (ground arith))
          | inr missed ↦ missed
        ],
      )

Covers-for_user :
    (user : String) (want have : Labels)
    → Covers want have
    → Covers (get_labels_for_user want user) (get_labels_for_user have user)
Covers-for_user user want have covered k v =
    rw (lookup-get_labels_for_user k user want, lookup-get_labels_for_user k user have)
      (elim (Bool-cases (str_eq user_label k)) [
        | inl same ↦ rw same (λ h. h)
        | inr other ↦ rw other (covered k v)
      ])

-- The deployment of a claim selects the pods of its own template, if the selector of the client asks
-- for labels that the client has.
pub selector_covered :
    (selector : LabelSelector) (wanted : Labels) (client_labels : Labels) (user : String)
    → selector.match_labels ≡ some wanted
    → Covers wanted client_labels
    → (chosen : LabelSelector) × (ls : Labels) × (get_selector_for_user (some selector) user
        ≡ some chosen)
      × (chosen.match_labels ≡ some ls)
      × Covers ls (get_labels_for_user client_labels user)
unfolding get_selector_for_user with_labels_for_user
selector_covered selector wanted client_labels user e covered = rw e (
  record {
    match_labels = some (get_labels_for_user wanted user);
    match_expressions = selector.match_expressions;
  },
  get_labels_for_user wanted user,
  refl,
  refl,
  Covers-for_user user wanted client_labels covered,
)
