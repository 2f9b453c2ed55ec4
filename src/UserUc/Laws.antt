-- ===== src/UserUc/Laws.antt =====
-- Who passes the checks before a user is deleted, and that every facade is asked.
use mathlib.Core.List.{append_assoc, append-nil}
use schulcloud.Base.{
  String, ◌≡◌, ◌↔◌, refl, sym, ap, ◌∙◌, inl, inr, Option, none, some, List, [], ◌∷◌, ◌++◌, map,
  Bool, true, ◌==◌, arith, truthy, All, Exists, any_iff, all_iff, ok, Bool-cases, Result-cases,
}
use schulcloud.UserUc.{
  Role, User, grant_permissions_for_school, has, check_each, check_permissions, allows,
  check_permissions_internal, check_users, Trash, trash_of, DeleteFunction, Facade, run_functions,
  delete_user_related_data, stored_id, created_user, get_or_create_tombstone_user_id,
}

check_each-and :
    (user : User) (granted : Bool) (permissions : List String)
    → (check_each user "AND" granted permissions ≡ true)
      ↔ ((granted ≡ true) × All (λ p. has user p ≡ true) permissions)
unfolding check_each
check_each-and user granted [] = (λ h. (h, tt), λ (h, k). h)
check_each-and user granted (p ∷ rest) = elim (Bool-cases (has user p)) [
  | inl e ↦ ground (arith, check_each-and user granted rest)
  | inr e ↦ ground (arith, check_each-and user granted rest)
]

check_each-or :
    (user : User) (granted : Bool) (permissions : List String)
    → check_each user "OR" granted permissions ≡ granted
unfolding check_each
check_each-or user granted [] = refl
check_each-or user granted (p ∷ rest) = elim (Bool-cases (has user p)) [
  | inl e ↦ ground (arith, check_each-or user granted rest)
  | inr e ↦ ground (arith, check_each-or user granted rest)
]

module _ (user : User) (school : String) (permissions : List String) where
  -- With the operator AND the check passes exactly if the user is of the school or a superhero and
  -- has every permission; with OR it passes whenever the user is of the school or a superhero,
  -- whatever the permissions are.
  pub check_permissions_and_or_iff :
      ((check_permissions user school permissions "AND" ≡ ok tt) ↔ (
        (grant_permissions_for_school user school ≡ true)
        × All (λ p. has user p ≡ true) permissions))
      × ((check_permissions user school permissions "OR" ≡ ok tt)
          ↔ (grant_permissions_for_school user school ≡ true))
  unfolding check_permissions
  check_permissions_and_or_iff = (
    ground (arith, check_each-and user (grant_permissions_for_school user school) permissions),
    ground (arith, check_each-or user (grant_permissions_for_school user school) permissions),
  )

-- The current user may act on a user with this role.
abbrev pub Allows : (String → String) → User → Role → Type 0
Allows permission_of current role = allows current permission_of role ≡ true

module _ (to_upper : String → String) (permission_of : String → String) where
  abbrev pub MayActOn : String → User → User → Type 0
  MayActOn role_name current affected =
      Exists (λ r. (to_upper r.name == role_name) ≡ true) affected.roles
      × (grant_permissions_for_school current affected.school_id ≡ true)
      × All (Allows permission_of current) affected.roles

  check_permissions_internal_iff :
      (affected : User) (role_name : String) (current : User)
      → (check_permissions_internal to_upper permission_of affected role_name current ≡ ok tt)
        ↔ MayActOn role_name current affected
  unfolding check_permissions_internal
  check_permissions_internal_iff affected role_name current = ground (
    arith,
    any_iff (λ r. to_upper r.name == role_name) affected.roles,
    all_iff (allows current permission_of) affected.roles,
  )

  -- A request on users passes exactly if for each of them: one of the roles is that of the route; the
  -- current user is of the same school or a superhero; and has the permission for students
  -- where the user is one, the one for teachers where the user is one, and is a superhero where
  -- the user is an administrator.
  pub check_users_iff :
      (affected : List User) (role_name : String) (current : User)
      → (check_users to_upper permission_of affected role_name current ≡ ok tt)
        ↔ All (MayActOn role_name current) affected
  unfolding check_users
  check_users_iff [] role_name current = (λ h. tt, λ h. refl)
  check_users_iff (a ∷ rest) role_name current =
      elim (Result-cases (check_permissions_internal to_upper permission_of a role_name current)) [
        | inl (u, e) ↦
            let (act, _) = check_permissions_internal_iff a role_name current in
            let (more, back) = check_users_iff rest role_name current in
            (λ h. (act e, more (ground arith)), λ (m, ms). let others = back ms in ground arith)
        | inr (error, e) ↦
            let (_, passes) = check_permissions_internal_iff a role_name current in
            (λ h. absurd (ground arith), λ (m, ms). let fine = passes m in absurd (ground arith))
      ]

run_functions-map :
    (facade user : String) (tombstone : Option String) (functions : List DeleteFunction)
    (bin : List Trash)
    → run_functions facade user tombstone functions bin
      ≡ bin ++ map (trash_of facade user tombstone) functions
unfolding run_functions
run_functions-map facade user tombstone [] bin = sym (append-nil bin)
run_functions-map facade user tombstone (f ∷ rest) bin =
    run_functions-map facade user tombstone rest (bin ++ trash_of facade user tombstone f ∷ [])
    ∙ append_assoc bin (trash_of facade user tombstone f ∷ [])
        (map (trash_of facade user tombstone) rest)

-- What all the functions of the facades hand over, in order.
unfoldable pub all_trash : String → Option String → List Facade → List Trash
all_trash user tombstone [] = []
all_trash user tombstone (facade ∷ rest) =
    map (trash_of facade.name user tombstone) facade.functions ++ all_trash user tombstone rest

-- Deleting a user's data asks every function of every facade once, in order, and adds to the trash
-- bin what each hands over, or its error: one that fails does not keep the others from being run.
pub delete_user_related_data-all_trash :
    (user : String) (tombstone : Option String) (facades : List Facade) (bin : List Trash)
    → delete_user_related_data user tombstone facades bin ≡ bin ++ all_trash user tombstone facades
unfolding delete_user_related_data all_trash
delete_user_related_data-all_trash user tombstone [] bin = sym (append-nil bin)
delete_user_related_data-all_trash user tombstone (facade ∷ rest) bin =
    let asked = map (trash_of facade.name user tombstone) facade.functions in
    delete_user_related_data-all_trash user tombstone rest
      (run_functions facade.name user tombstone facade.functions bin)
    ∙ ap (λ b. b ++ all_trash user tombstone rest)
        (run_functions-map facade.name user tombstone facade.functions bin)
    ∙ append_assoc bin asked (all_trash user tombstone rest)

-- A call that creates the user who stands for deleted ones returns that user, and every later call
-- returns the id of the same user and leaves the school as it is.
pub get_or_create_tombstone_user_id-again :
    (create : String → String) (school : String)
    → truthy (some (create school)) ≡ true
    → (get_or_create_tombstone_user_id create (some school) none
        ≡ (some (created_user (create school)), some (create school)))
      × (get_or_create_tombstone_user_id create (some school) (some (create school))
          ≡ (some (stored_id (create school)), some (create school)))
unfolding get_or_create_tombstone_user_id
get_or_create_tombstone_user_id-again create school given = (refl, ground arith)
