-- ===== src/Team.antt =====
-- src/services/teams/hooks/index.js and src/services/teams/hooks/helpers.js: the users of a team, and
-- who may change them.
mod Laws
pub mod Users
mod Tests
use schulcloud.Base.{
  ℕ, suc, String, Option, none, some, List, [], ◌∷◌, ◌++◌, any, filter, find, Bool, true, false,
  not, ◌&&◌, ◌||◌, ◌==◌, if◌then◌else◌, leb, includes, index_of, is_some, get_or, Result, ok, err,
  forbidden, type_error, not_found, ◌>>=◌, ◌>>◌, throw_if, is_ok,
}
use schulcloud.ObjectId.{equal}

-- A role with the permissions that it inherits as well.
pub record Role : Type 0 where
  pub id : String
  pub name : String
  pub permissions : List String

-- A user of a team, by the ids of the user, the role and the school.
pub record TeamUser : Type 0 where
  pub user_id : String
  pub role : String
  pub school_id : String

abbrev pub user_of : String → List TeamUser → Option TeamUser
user_of id = find (λ u. u.user_id == id)

-- `hook.findRole('_id', id)`, which throws for an id that is no role of teams.
unfoldable pub find_role : List Role → String → Result Role
find_role roles id = elim (find (λ r. r.id == id) roles) [ none ↦ err not_found | some r ↦ ok r ]

-- What the request may hold for a user: an id, or an object with or without a role.
pub data Entry : Type 0 where
  plain : String → Entry
  object : String → Option String → Entry

-- The value that `arrayDiff` compares for an entry, under the key userId.
abbrev pub entry_id : Entry → String
entry_id (Entry.plain id) = id
entry_id (Entry.object id role) = id

abbrev pub team_user_id : TeamUser → String
team_user_id u = u.user_id

-- `arrayDiff`: the elements of the first list whose value is none of the second list's.
unfoldable pub array_diff {ℓ κ} :
    {A : Type ℓ} → {B : Type κ} → (A → String) → (B → String) → List A → List B → List A
array_diff value other old new = filter (λ u. not (any (λ v. other v == value u) new)) old

-- The request: who asks, and what the services answer about the team and the users that are named.
pub record Request : Type 0 where
  pub is_superhero : Bool
  pub roles : List Role
  pub team : List TeamUser
  pub session_id : String
  pub session_school : String
  pub school_of : String → Option String

-- `hasTeamPermission` for one permission; every error is turned into this one.
unfoldable pub has_team_permission : Request → String → Result (Unit {0})
has_team_permission request permission =
    if request.is_superhero then ok tt else elim (user_of request.session_id request.team) [
      | none ↦ err forbidden
      | some u ↦ elim (find_role request.roles u.role) [
        | err e ↦ err forbidden
        | ok r ↦ if includes r.permissions permission then ok tt else err forbidden
      ]
    ]

abbrev pub team_role_hierarchy : List String
team_role_hierarchy = "teamleader" ∷ "teamadministrator" ∷ "teamowner" ∷ []

-- One more than the index in the hierarchy, which is -1 for another role.
abbrev pub rank_of_name : String → ℕ
rank_of_name name = elim (index_of team_role_hierarchy name) [ none ↦ 0 | some i ↦ suc i ]

unfoldable pub rank : List Role → String → Result ℕ
rank roles id = find_role roles id >>= λ r. ok (rank_of_name r.name)

-- The second id may be the empty text, here none, which has no rank.
abbrev pub rank_of_highest : List Role → Option String → Result ℕ
rank_of_highest roles none = ok 0
rank_of_highest roles (some id) = rank roles id

unfoldable pub is_higher_or_equal_teamrole : List Role → String → Option String → Result Bool
is_higher_or_equal_teamrole roles first second = do
  a ← rank roles first
  b ← rank_of_highest roles second
  ok (leb b a)

-- The body of the loop over the roles that change.
unfoldable pub raise : List Role → Option String → String → Result (Option String)
raise roles highest id = is_higher_or_equal_teamrole roles id highest >>= λ higher.
    ok (if higher then some id else highest)

-- The old and the new role of a user.
pub record Change : Type 0 where
  pub old_role : String
  pub new_role : String

-- The change that an entry asks for: it names a role, and a user of the team who has another one.
-- An id, or an object without a role, asks for none.
unfoldable pub changed_from : List TeamUser → Entry → Option Change
changed_from team (Entry.plain id) = none
changed_from team (Entry.object id none) = none
changed_from team (Entry.object id (some role)) = elim (user_of id team) [
  | none ↦ none
  | some old ↦
      if old.role == role then none else some (record { old_role = old.role; new_role = role })
]

unfoldable pub highest_changed_role :
    List Role → List TeamUser → Option String → List Entry → Result (Option String)
highest_changed_role roles team highest [] = ok highest
highest_changed_role roles team highest (u ∷ rest) = elim (changed_from team u) [
  | none ↦ highest_changed_role roles team highest rest
  | some c ↦ raise roles highest c.new_role >>= (λ h. raise roles h c.old_role) >>= λ h.
      highest_changed_role roles team h rest
]

-- An entry that is added: true for a user of the session user's school, false for one of another
-- school. A user that was not found throws, and so does an id, which has no userId.
abbrev pub of_own_school : Request → Entry → Result Bool
of_own_school request (Entry.plain id) = err type_error
of_own_school request (Entry.object id role) = elim (request.school_of id) [
  | none ↦ err type_error
  | some school ↦ ok (school == request.session_school)
]

-- Whether there is a user to add; one from another school is refused.
unfoldable pub check_added : Request → List Entry → Result Bool
check_added request [] = ok false
check_added request (u ∷ rest) = do
  own ← of_own_school request u
  more ← check_added request rest
  throw_if (not own) forbidden
  ok true

abbrev pub required : Request → Bool → String → Result (Unit {0})
required request needed permission =
    if needed then has_team_permission request permission else ok tt

-- The role of the session user in the team, which is read even where there is none.
abbrev pub session_role : Request → Result String
session_role request = elim (find (λ u. equal u.user_id request.session_id) request.team) [
  | none ↦ err type_error
  | some u ↦ ok u.role
]

abbrev pub check_hierarchy : Request → Option String → Result (Unit {0})
check_hierarchy request highest = do
  role ← session_role request
  enough ← is_higher_or_equal_teamrole request.roles role highest
  throw_if (not enough) forbidden

-- `testChangesForPermissionRouting` for the users of the request; each error ends as a refusal.
unfoldable pub check_changes : Request → List Entry → Result (Unit {0})
check_changes request users = do
  let removed = array_diff team_user_id entry_id request.team users
  let is_change = any (λ u. is_some (changed_from request.team u)) users
  added ← check_added request (array_diff entry_id team_user_id users request.team)
  highest ← highest_changed_role request.roles request.team none users
  required request (any (λ u. u.user_id == request.session_id) removed) "LEAVE_TEAM"
  required request (any (λ u. not (u.user_id == request.session_id)) removed) "REMOVE_MEMBERS"
  required request added "ADD_SCHOOL_MEMBERS"
  required request is_change "CHANGE_TEAM_ROLES"
  if is_change then check_hierarchy request highest else ok tt

-- The permission to rename a team is asked for, but its answer is not awaited, so it decides nothing.
unfoldable pub test_changes_for_permission_routing :
    Request → Bool → Option (List Entry) → Result (Unit {0})
test_changes_for_permission_routing request renames users =
    if request.is_superhero then ok tt else elim users [
      | none ↦ ok tt
      | some l ↦ if is_ok (check_changes request l) then ok tt else err forbidden
    ]
