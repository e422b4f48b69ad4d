-- ===== src/DeepCopy/Independence.antt =====
-- A controller may change the deep copy of an object, and the cache keeps the object as it is.
use k8cc.Prelude.{ℕ, ◌≤◌, ◌≡◌, ◌∙◌, Option, arith}
use k8cc.DeepCopy.Memory.{Heap, Agree, copy-Independent}
use k8cc.DeepCopy.Raw.{Cell, Foreign}
use k8cc.DeepCopy.Copies.{
  client_claim_pointer, client_claim_deep_copy, distcc_pointer, distcc_deep_copy,
}
use k8cc.DeepCopy.Lists.{claim_list_pointer, claim_list_deep_copy}

le_self : (n : ℕ) → n ≤ n
le_self n = omega arith

module _ {M P S U X : Type 0} (f : Foreign M P S U X) (h changed later : Heap (Cell M P S U X))
    (given : Option ℕ) where
  -- Where the original points to allocated cells only: the deep copy of a Distcc stands for what
  -- the original stood for, also where cells are `changed` that were there before the copy; and
  -- the original stands for the same, also `later`, where cells that the copy has made are
  -- changed.
  pub distcc_deep_copy-Independent :
      (distcc_pointer f).place.Within 0 h.next h given
      → Agree h.next (distcc_deep_copy f given h).1.next (distcc_deep_copy f given h).1 changed
      → Agree 0 h.next (distcc_deep_copy f given h).1 later
      → ((distcc_pointer f).place.value changed (distcc_deep_copy f given h).0
          ≡ (distcc_pointer f).place.value h given)
        × ((distcc_pointer f).place.value later given ≡ (distcc_pointer f).place.value h given)
  unfolding distcc_deep_copy
  distcc_deep_copy-Independent inside new_kept old_kept =
      let done = copy-Independent (distcc_pointer f) h.next h given inside (le_self h.next) in
      (done.copy_kept changed new_kept ∙ done.same_value, done.original_kept later old_kept)

  -- Where the original points to allocated cells only: the deep copy of a DistccClientClaim, its
  -- secrets included, stands for what the original stood for, also where cells are `changed` that
  -- were there before the copy; and the original stands for the same, also `later`, where cells
  -- that the copy has made are changed.
  pub client_claim_deep_copy-Independent :
      (client_claim_pointer f).place.Within 0 h.next h given
      → Agree h.next
          (client_claim_deep_copy f given h).1.next
          (client_claim_deep_copy f given h).1
          changed
      → Agree 0 h.next (client_claim_deep_copy f given h).1 later
      → ((client_claim_pointer f).place.value changed (client_claim_deep_copy f given h).0
          ≡ (client_claim_pointer f).place.value h given)
        × ((client_claim_pointer f).place.value later given
            ≡ (client_claim_pointer f).place.value h given)
  unfolding client_claim_deep_copy
  client_claim_deep_copy-Independent inside new_kept old_kept =
      let done = copy-Independent (client_claim_pointer f) h.next h given inside (le_self h.next) in
      (done.copy_kept changed new_kept ∙ done.same_value, done.original_kept later old_kept)

  -- Where the original points to allocated cells only: the deep copy of a list of claims stands
  -- for what the original stood for, also where cells are `changed` that were there before the
  -- copy; and the original stands for the same, also `later`, where cells that the copy has made
  -- are changed.
  pub claim_list_deep_copy-Independent :
      (claim_list_pointer f).place.Within 0 h.next h given
      → Agree h.next
          (claim_list_deep_copy f given h).1.next
          (claim_list_deep_copy f given h).1
          changed
      → Agree 0 h.next (claim_list_deep_copy f given h).1 later
      → ((claim_list_pointer f).place.value changed (claim_list_deep_copy f given h).0
          ≡ (claim_list_pointer f).place.value h given)
        × ((claim_list_pointer f).place.value later given
            ≡ (claim_list_pointer f).place.value h given)
  unfolding claim_list_deep_copy
  claim_list_deep_copy-Independent inside new_kept old_kept =
      let done = copy-Independent (claim_list_pointer f) h.next h given inside (le_self h.next) in
      (done.copy_kept changed new_kept ∙ done.same_value, done.original_kept later old_kept)
