-- ===== src/UserHooks/Hierarchy.antt =====
-- userService.js: who may create, change and delete users of which roles.
pub mod Laws
pub mod Deletion
use schulcloud.Base.{
  String, Option, none, some, List, [], ◌∷◌, ◌++◌, map, any, all, filter, length, find, includes,
  Bool, true, false, not, ◌&&◌, ◌||◌, ◌==◌, if◌then◌else◌, ltb, is_some, truthy, to_string, Result,
  ok, err, bad_request, forbidden, not_found, type_error, ◌>>=◌, ◌>>◌, throw_if,
}
use schulcloud.ObjectId.{equal, is_valid}
use schulcloud.Hook.{Role, User}
use schulcloud.Hook.Roles.{is_named, Services, has_role_no_hook, has_permission_no_hook}

-- `securePatching`, for the target and the acting user.
unfoldable pub secure_patching : User → User → String → String → Result (Unit {0})
secure_patching target acting id user_id =
    let has = λ (name : String). any (is_named name) acting.roles in
    if has "superhero"
    then ok tt
    else if has "demoStudent" || has "demoTeacher"
    then err forbidden
    else if not (equal target.school_id acting.school_id)
    then err not_found
    else if not (equal id user_id)
    then throw_if
        (not (has "administrator" || has "teacher" && any (is_named "student") target.roles))
        bad_request
    else ok tt

-- `Promise.all`: the answers, or the first failure.
abbrev pub all_of {ℓ} : {A : Type ℓ} → List (Result A) → Result (List A)
all_of [] = ok []
all_of (r ∷ rest) = r >>= λ a. all_of rest >>= λ as'. ok (a ∷ as')

-- Every failure is caught, and thrown as a refusal.
abbrev pub or_forbidden : Result (Unit {0}) → Result (Unit {0})
or_forbidden (ok a) = ok tt
or_forbidden (err e) = err forbidden

abbrev pub when : Bool → Result Bool → List (Result Bool)
when true check = check ∷ []
when false check = []

module _ (services : Services) (user_id id : Option String) where
  abbrev pub permission_checks : Bool → Bool → Bool → List (Result Bool)
  permission_checks student teacher admin =
      when student (has_permission_no_hook services user_id "STUDENT_DELETE")
      ++ (when teacher (has_permission_no_hook services user_id "TEACHER_DELETE")
          ++ when admin (has_role_no_hook services user_id "superhero" false))

  abbrev pub check_target_roles : Result (Unit {0})
  check_target_roles = has_role_no_hook services id "student" false >>= λ student.
      has_role_no_hook services id "teacher" false >>= λ teacher.
      has_role_no_hook services id "administrator" false >>= λ admin.
      all_of (permission_checks student teacher admin) >>= λ checks.
      throw_if (not (all (λ b. b) checks)) forbidden

  unfoldable pub enforce_role_hierarchy_on_delete_single : Result (Unit {0})
  enforce_role_hierarchy_on_delete_single = or_forbidden (
      has_role_no_hook services user_id "superhero" false >>= λ superhero.
      (if superhero then ok tt else check_target_roles))

-- A query of the bulk removal with the clause that is added to it: `$nor` of `$elemMatch` and
-- `$nin` says that each of the user's roles is one of these.
pub record BulkQuery {ℓ} (Query : Type ℓ) : Type ℓ where
  pub query : Query
  pub allowed_roles : List String

-- The document of a role's name, of which the id is read.
abbrev pub role_id : List String → Result String
role_id [] = err type_error
role_id (id ∷ rest) = ok id

abbrev pub role_promise : Bool → (String → Result (List String)) → String → List (Result String)
role_promise allowed roles name = if allowed then (roles name >>= role_id) ∷ [] else []

-- `roles` answers the ids of the roles with a name.
unfoldable pub enforce_role_hierarchy_on_delete_bulk {ℓ} :
    {Query : Type ℓ} → (String → Result (List String)) → User → Query → Result (BulkQuery Query)
enforce_role_hierarchy_on_delete_bulk roles user query =
    all_of (
      role_promise (includes user.permissions "STUDENT_DELETE") roles "student"
      ++ role_promise (includes user.permissions "TEACHER_DELETE") roles "teacher")
    >>= λ allowed. ok (record { query = query; allowed_roles = allowed })

-- What the database finds for the query: `matches` is its answer to the query of the request, and
-- `roles_of` reads the ids of a user's roles.
abbrev pub bulk_matches {ℓ κ} :
    {Query : Type ℓ} {Person : Type κ}
    → (Query → Person → Bool)
    → (Person → List String)
    → BulkQuery Query
    → Person
    → Bool
bulk_matches matches roles_of q person =
    matches q.query person && all (λ role. includes q.allowed_roles role) (roles_of person)

-- The name of a role that is given by its id or its name.
abbrev pub role_name : (String → Result String) → String → Result String
role_name roles role =
    if not (is_valid role)
    then ok role
    else elim (roles role) [ ok name ↦ ok name | err e ↦ err bad_request ]

abbrev pub may_create : User → String → Bool
may_create user name =
    if name == "teacher"
    then is_some (find (λ p. p == "TEACHER_CREATE") user.permissions)
    else if name == "student"
    then is_some (find (λ p. p == "STUDENT_CREATE") user.permissions)
    else name == "parent"

abbrev pub check_role : (String → Result String) → User → String → Result (Unit {0})
check_role roles user role =
    role_name roles role >>= λ name. throw_if (not (may_create user name)) bad_request

abbrev pub check_roles : (String → Result String) → User → List String → Result (Unit {0})
check_roles roles user given = all_of (map (check_role roles user) given) >>= λ done. ok tt

-- `data.roles`, which may be undefined.
unfoldable pub enforce_role_hierarchy_on_create :
    (String → Result String) → User → Option (List String) → Result (Unit {0})
enforce_role_hierarchy_on_create roles user new_roles =
    if ltb 0 (length (filter (is_named "superhero") user.roles))
    then ok tt
    else elim new_roles [ none ↦ ok tt | some given ↦ check_roles roles user given ]

-- `includeOnlySchoolRoles`: `query.roles.$in`, for the ids of the roles of a school.
unfoldable pub include_only_school_roles :
    Bool → List String → Option (List String) → Option (List String)
include_only_school_roles superhero allowed roles = if superhero then roles else elim roles [
  | some given ↦ some (filter (λ r. any (λ a. equal r a) allowed) given)
  | none ↦ some allowed
]
