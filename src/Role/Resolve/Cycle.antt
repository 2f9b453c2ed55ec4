-- ===== src/Role/Resolve/Cycle.antt =====
-- On roles that inherit along a cycle the walk never returns: the ids that were processed are
-- never recognised.
use schulcloud.Base.{
  ℕ, zero, suc, ◌≡◌, ◌≢◌, inl, inr, String, some, List, [], ◌∷◌, ◌++◌, Exists, arith, Option-cases,
}
use schulcloud.Role.{Role}
use schulcloud.Role.Resolve.{
  Walk, Run, returned, Store, hydrate, after, add_all, >>=-eq-returned, visit_all, enter,
  resolve_sub_roles,
}
use schulcloud.Role.Resolve.Laws.{
  IsFresh, Below-append, Below-mono, after-le, hydrate-Below, filter-hydrate,
  resolve_sub_roles-eq-enter,
}

abbrev KeepsFresh : (String → Walk → Run) → Type 0
KeepsFresh visit = (id : String) (v v' : Walk) → IsFresh v → visit id v ≡ returned v' → IsFresh v'

module _ (visit : String → Walk → Run) (keeps : KeepsFresh visit) where
  visit_all-IsFresh :
      (m : ℕ) (ids : List String) (w w' : Walk)
      → IsFresh w
      → visit_all visit (hydrate m ids) w ≡ returned w'
      → IsFresh w'
  unfolding visit_all
  visit_all-IsFresh m [] w w' f h = let e : w ≡ w' = cc in rw e at f
  visit_all-IsFresh m (id ∷ ids) w w' f h =
      let (v, r, h') = >>=-eq-returned (visit id w) _ h in
      visit_all-IsFresh (suc m) ids v w' (keeps id w v f r) h'

  module _ (C : String → Type 0)
      (never : (id : String) (v v' : Walk) → C id → IsFresh v → visit id v ≢ returned v') where
    visit_all_never :
        (m : ℕ) (ids : List String) (w w' : Walk)
        → Exists C ids
        → IsFresh w
        → visit_all visit (hydrate m ids) w ≢ returned w'
    unfolding visit_all
    visit_all_never m [] w w' x f h = absurd x
    visit_all_never m (id ∷ ids) w w' (inl c) f h =
        let (v, r, h') = >>=-eq-returned (visit id w) _ h in never id w v c f r
    visit_all_never m (id ∷ ids) w w' (inr x) f h =
        let (v, r, h') = >>=-eq-returned (visit id w) _ h in
        visit_all_never (suc m) ids v w' x (keeps id w v f r) h'

-- The walk with which `enter` goes on, and that its filter kept every id.
abbrev entered : Role → Walk → Walk
entered role w = record {
  next = after w.next role.roles;
  processed = w.processed ++ hydrate w.next role.roles;
  permissions = add_all w.permissions role.permissions;
}

enter-eq-visit_all :
    (visit : String → Walk → Run) (role : Role) (w : Walk)
    → IsFresh w
    → enter visit role w ≡ visit_all visit (hydrate w.next role.roles) (entered role w)
unfolding enter
enter-eq-visit_all visit role w f =
    rw (filter-hydrate w.next w.next w.processed role.roles f (omega arith))

entered-IsFresh : (role : Role) (w : Walk) → IsFresh w → IsFresh (entered role w)
entered-IsFresh role w f =
    Below-append (after w.next role.roles) w.processed (hydrate w.next role.roles)
      (Below-mono w.next (after w.next role.roles) w.processed (after-le w.next role.roles) f)
      (hydrate-Below w.next role.roles)

resolve_sub_roles-IsFresh : (fuel : ℕ) (store : Store) → KeepsFresh (resolve_sub_roles fuel store)
unfolding resolve_sub_roles
resolve_sub_roles-IsFresh zero store id w w' f h = cc
resolve_sub_roles-IsFresh (suc fuel) store id w w' f h = elim (Option-cases (store id)) [
  | inl e ↦ ground arith
  | inr (role, e) ↦
      visit_all-IsFresh (resolve_sub_roles fuel store) (resolve_sub_roles-IsFresh fuel store) w.next
        role.roles (entered role w) w' (entered-IsFresh role w f)
        (ground (
          arith,
          resolve_sub_roles-eq-enter fuel store id role w e,
          enter-eq-visit_all (resolve_sub_roles fuel store) role w f,
        ))
]

-- If every role of a set inherits from some role of the set, then with any amount of fuel the walk
-- that enters the set does not return: the recursion of `resolvePermissions` is endless, or an
-- exception ends it.
pub resolve_sub_roles-cycle :
    (store : Store) (C : String → Type 0)
    → ((id : String) → C id → (role : Role) × (store id ≡ some role) × Exists C role.roles)
    → (fuel : ℕ) (id : String) (w w' : Walk) → C id
    → IsFresh w
    → resolve_sub_roles fuel store id w ≢ returned w'
unfolding resolve_sub_roles
resolve_sub_roles-cycle store C closed zero id w w' c f h = cc
resolve_sub_roles-cycle store C closed (suc fuel) id w w' c f h =
    let (role, e, x) = closed id c in
    visit_all_never (resolve_sub_roles fuel store) (resolve_sub_roles-IsFresh fuel store) C
      (λ i v v' ci fi. resolve_sub_roles-cycle store C closed fuel i v v' ci fi) w.next role.roles
      (entered role w) w' x (entered-IsFresh role w f)
      (ground (
        arith,
        resolve_sub_roles-eq-enter fuel store id role w e,
        enter-eq-visit_all (resolve_sub_roles fuel store) role w f,
      ))
