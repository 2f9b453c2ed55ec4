-- ===== src/UserUc.antt =====
-- src/components/helper/uc.helper.js and src/components/user/uc/users.uc.js: who may delete a user,
-- and what becomes of the user's data. The repositories and the facades are arguments.
mod Laws
mod Tests
use schulcloud.Base.{
  String, Option, none, some, List, [], ◌∷◌, ◌++◌, any, all, Bool, true, false, not, ◌&&◌, ◌||◌,
  ◌==◌, if◌then◌else◌, includes, truthy, Result, ok, err, Error, forbidden, assertion_error,
  bad_request, ◌>>=◌, ◌>>◌, throw_if,
}
use schulcloud.ObjectId.{equal}

pub record Role : Type 0 where
  pub name : String
  pub permissions : List String

pub record User : Type 0 where
  pub id : String
  pub school_id : String
  pub roles : List Role

unfoldable pub is_superhero : User → Bool
is_superhero user = any (λ r. r.name == "superhero") user.roles

unfoldable pub grant_permissions_for_school : User → String → Bool
grant_permissions_for_school user school = equal user.school_id school || is_superhero user

abbrev pub has : User → String → Bool
has user permission = any (λ r. any (λ p. p == permission) r.permissions) user.roles

-- The loop over the permissions, from the grant so far.
unfoldable pub check_each : User → String → Bool → List String → Bool
check_each user operator granted [] = granted
check_each user operator granted (p ∷ rest) =
    let next = check_each user operator granted rest in
    if has user p
    then if operator == "OR" then granted else next
    else if operator == "AND"
    then false
    else next

unfoldable pub check_permissions : User → String → List String → String → Result (Unit {0})
check_permissions user school permissions operator =
    if not (includes ("AND" ∷ "OR" ∷ []) operator)
    then err assertion_error
    else if check_each user operator (grant_permissions_for_school user school) permissions
    then ok tt
    else err forbidden

-- What a role of the affected user asks of the current one. `permission_of prefix`
-- stands for the prefix followed by the action, such as STUDENT_DELETE.
abbrev pub allows : User → (String → String) → Role → Bool
allows current permission_of role =
    if role.name == "student"
    then has current (permission_of "STUDENT_")
    else if role.name == "teacher"
    then has current (permission_of "TEACHER_")
    else if role.name == "administrator"
    then is_superhero current
    else true

module _ (to_upper : String → String) (permission_of : String → String) where
  unfoldable pub check_permissions_internal : User → String → User → Result (Unit {0})
  check_permissions_internal affected role_name current =
      if any (λ r. to_upper r.name == role_name) affected.roles
        && grant_permissions_for_school current affected.school_id
        && all (allows current permission_of) affected.roles
      then ok tt
      else err forbidden

  -- `checkPermissions` for the users with the given ids that were found.
  unfoldable pub check_users : List User → String → User → Result (Unit {0})
  check_users [] role_name current = ok tt
  check_users (affected ∷ rest) role_name current =
      check_permissions_internal affected role_name current >> check_users rest role_name current

-- An entry of the trash bin: what a facade handed over, or the error of a function that failed.
pub data Trash : Type 0 where
  trash : String → Trash
  failed : (facade function : String) → Error → Trash

-- A function of a facade that deletes data of a user, with its name.
pub record DeleteFunction : Type 0 where
  pub name : String
  pub run : String → Option String → Result String

pub record Facade : Type 0 where
  pub name : String
  pub functions : List DeleteFunction

abbrev pub trash_of : String → String → Option String → DeleteFunction → Trash
trash_of facade user tombstone f = elim (f.run user tombstone) [
  | ok data_ ↦ trash data_
  | err e ↦ failed facade f.name e
]

-- The inner loop of `deleteUserRelatedData`, on the trash bin of the user.
unfoldable pub run_functions :
    String → String → Option String → List DeleteFunction → List Trash → List Trash
run_functions facade user tombstone [] bin = bin
run_functions facade user tombstone (f ∷ rest) bin =
    run_functions facade user tombstone rest (bin ++ trash_of facade user tombstone f ∷ [])

unfoldable pub delete_user_related_data :
    String → Option String → List Facade → List Trash → List Trash
delete_user_related_data user tombstone [] bin = bin
delete_user_related_data user tombstone (facade ∷ rest) bin =
    delete_user_related_data user tombstone rest
      (run_functions facade.name user tombstone facade.functions bin)

-- What stands for deleted users: the id that the school stores, or the user who was just created.
pub data Tombstone : Type 0 where
  stored_id : String → Tombstone
  created_user : String → Tombstone

-- The result and the school's stored id after the call; `create` stands for the id of the user who is
-- created at the school with the given id, which is none if there is no such school.
unfoldable pub get_or_create_tombstone_user_id :
    (create : String → String) → Option String → Option String → Option Tombstone × Option String
get_or_create_tombstone_user_id create tombstone_school none = elim tombstone_school [
  | none ↦ (none, none)
  | some school ↦ (some (created_user (create school)), some (create school))
]
get_or_create_tombstone_user_id create tombstone_school (some id) =
    if truthy (some id) then (some (stored_id id), some id) else elim tombstone_school [
      | none ↦ (none, some id)
      | some school ↦ (some (created_user (create school)), some (create school))
    ]
