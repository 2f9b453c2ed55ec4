-- ===== src/Team/Users.antt =====
-- src/services/teams/hooks/helpers.js: the list of users that a team is given.
pub mod Laws
use schulcloud.Base.{
  String, Option, none, some, List, [], ◌∷◌, ◌++◌, map, filter, find, Bool, true, false, not, ◌==◌,
  if◌then◌else◌, includes, get_or, Result, ok, err, not_acceptable, not_found, ◌>>=◌,
}
use schulcloud.Team.{Role, TeamUser}

-- `removeDuplicatedTeamUsers`, from the ids that were found so far.
unfoldable pub remove_duplicated : List String → List TeamUser → List TeamUser
remove_duplicated found [] = []
remove_duplicated found (u ∷ rest) =
    let skipped = remove_duplicated found rest in
    let kept = remove_duplicated (found ++ u.user_id ∷ []) rest in
    if includes found u.user_id then skipped else u ∷ kept

unfoldable pub remove_duplicated_team_users : List TeamUser → List TeamUser
remove_duplicated_team_users users = remove_duplicated [] users

-- What the request may hold for a user: an id, or an object with a school and a role or without.
pub record Input : Type 0 where
  pub user_id : String
  pub school_id : Option String
  pub role : Option String

-- `hook.findRole('name', name, '_id')`, which throws for a name that no role of teams has.
unfoldable pub find_role_id : List Role → String → Result String
find_role_id roles name = elim (find (λ r. r.name == name) roles) [
  | none ↦ err not_found
  | some r ↦ ok r.id
]

-- The role that an entry selects, which is an id or a name. `is_object_id` tells whether mongoose
-- makes an id of the text.
unfoldable pub selected_role : (String → Bool) → List Role → Option String → Result String
selected_role is_object_id roles none = find_role_id roles "teammember"
selected_role is_object_id roles (some role) =
    if is_object_id role then ok role else find_role_id roles role

-- The role is selected for the owner too, so that a name that is not known throws.
unfoldable pub map_input :
    (String → Bool) → List Role → String → TeamUser → String → Input → Result TeamUser
map_input is_object_id roles owner_role owner session_school input =
    selected_role is_object_id roles input.role >>= λ role. ok (
      if owner.user_id == input.user_id
      then record { user_id = input.user_id; role = owner_role; school_id = owner.school_id }
      else record {
        user_id = input.user_id;
        role = role;
        school_id = get_or input.school_id session_school;
      })

unfoldable pub map_inputs : (Input → Result TeamUser) → List Input → Result (List TeamUser)
map_inputs make [] = ok []
map_inputs make (i ∷ rest) = do u ← make i; users ← map_inputs make rest; ok (u ∷ users)

-- `mappedInputUserIdsToTeamUsers` for a team that exists: the owner is the team's first one.
unfoldable pub mapped_input_user_ids_to_team_users :
    (String → Bool) → List Role → String → List TeamUser → List Input → Result (List TeamUser)
mapped_input_user_ids_to_team_users is_object_id roles session_school team inputs =
    find_role_id roles "teamowner" >>= λ owner_role. elim (find (λ u. u.role == owner_role) team) [
      | none ↦ err not_acceptable
      | some owner ↦
          map_inputs (map_input is_object_id roles owner_role owner session_school) inputs
    ]

-- `userIds.includes(user.userId)` in `removeTeamUsers`: the list holds the ids of documents, which
-- are objects, or undefined, and the user's id is a text, so they are never the same.
abbrev pub includes_object : List (Option String) → String → Bool
includes_object ids id = false

unfoldable pub remove_team_users : List TeamUser → List (Option String) → List TeamUser
remove_team_users users ids = filter (λ u. not (includes_object ids u.user_id)) users

-- The ids of the users whose school is not one of the team's; undefined for a user that was not
-- found.
unfoldable pub invalid_users :
    List String → (String → Option String) → List TeamUser → List (Option String)
invalid_users school_ids school_of [] = []
invalid_users school_ids school_of (u ∷ rest) =
    let others = invalid_users school_ids school_of rest in
    elim (school_of u.user_id) [
      | none ↦ none ∷ others
      | some school ↦ if includes school_ids school then others else some u.user_id ∷ others
    ]

unfoldable pub remove_not_valid_users_by_school_ids :
    List String → (String → Option String) → List TeamUser → List TeamUser
remove_not_valid_users_by_school_ids school_ids school_of users =
    remove_team_users users (invalid_users school_ids school_of users)

-- `getTeamUsers` for a patch. `school_of` is the school of a user that the request names, if the
-- user is found.
unfoldable pub get_team_users :
    (String → Bool)
    → List Role
    → String
    → List String
    → (String → Option String)
    → List TeamUser
    → List Input
    → Result (List TeamUser)
get_team_users is_object_id roles session_school school_ids school_of team [] = ok []
get_team_users is_object_id roles session_school school_ids school_of team (i ∷ inputs) =
    mapped_input_user_ids_to_team_users is_object_id roles session_school team (i ∷ inputs)
    >>= λ users. ok (
        remove_not_valid_users_by_school_ids school_ids school_of
          (remove_duplicated_team_users users))
