-- ===== src/Team/Tests.antt =====
-- The theorems about teams at a team of an owner and a member.
use schulcloud.Base.{
  String, ◌≡◌, ◌↔◌, refl, none, some, List, [], ◌∷◌, find, false, ◌==◌, All, ok, Bool, ◌||◌, err,
  forbidden, not_found,
}
use schulcloud.ObjectId.{equal, is_valid}
use schulcloud.Team.{
  TeamUser, Entry, object, find_role, array_diff, Request, has_team_permission, rank,
  is_higher_or_equal_teamrole, raise, changed_from, highest_changed_role, check_added,
  check_changes, test_changes_for_permission_routing,
}
use schulcloud.Team.Users.{
  remove_duplicated, remove_duplicated_team_users, Input, mapped_input_user_ids_to_team_users,
  get_team_users, map_inputs, map_input, selected_role, find_role_id,
  remove_not_valid_users_by_school_ids, remove_team_users,
}
use schulcloud.Team.Laws.{Permitted, test_changes_for_permission_routing-Permitted}
use schulcloud.Team.Users.Laws.{
  Distinct, HasUser, Names, remove_duplicated_team_users-Distinct, KeepsRole,
  get_team_users-KeepsRole,
}

abbrev owner_id : String
owner_id = "0000000000000000000000aa"

abbrev ann_id : String
ann_id = "0000000000000000000000bb"

abbrev bob_id : String
bob_id = "0000000000000000000000cc"

abbrev owner : TeamUser
owner = record { user_id = owner_id; role = "1"; school_id = "s" }

abbrev ann : TeamUser
ann = record { user_id = ann_id; role = "2"; school_id = "s" }

abbrev bob : TeamUser
bob = record { user_id = bob_id; role = "2"; school_id = "s" }

abbrev request : Request
request = record {
  is_superhero = false;
  roles =
      record {
        id = "1";
        name = "teamowner";
        permissions = "ADD_SCHOOL_MEMBERS" ∷ "REMOVE_MEMBERS" ∷ "CHANGE_TEAM_ROLES" ∷ [];
      }
      ∷ record { id = "2"; name = "teammember"; permissions = "LEAVE_TEAM" ∷ [] }
      ∷ record { id = "3"; name = "teamleader"; permissions = [] }
      ∷ [];
  team = owner ∷ ann ∷ [];
  session_id = owner_id;
  session_school = "s";
  school_of = λ id. some "s";
}

abbrev users : List Entry
users = object owner_id none ∷ object ann_id (some "3") ∷ object bob_id none ∷ []

passed : test_changes_for_permission_routing request false (some users) ≡ ok tt
unfolding test_changes_for_permission_routing check_changes array_diff changed_from check_added
    highest_changed_role raise is_higher_or_equal_teamrole rank find_role has_team_permission equal
    is_valid
passed = refl

-- The team has two owners, and ann, its leader, asks for the change.
abbrev of_leader : Request
of_leader = record request {
  session_id = ann_id;
  team = owner ∷ record ann { role = "3" } ∷ record bob { role = "1" } ∷ [];
}

-- The second owner may not be made a member, but an entry without a role is not compared.
refused_with_role :
    test_changes_for_permission_routing of_leader false
      (some (object owner_id none ∷ object ann_id none ∷ object bob_id (some "2") ∷ []))
    ≡ err forbidden
unfolding test_changes_for_permission_routing check_changes array_diff changed_from check_added
    highest_changed_role raise is_higher_or_equal_teamrole rank find_role has_team_permission equal
    is_valid
refused_with_role = refl

passed_without_role :
    test_changes_for_permission_routing of_leader false
      (some (object owner_id none ∷ object ann_id none ∷ object bob_id none ∷ []))
    ≡ ok tt
unfolding test_changes_for_permission_routing check_changes array_diff changed_from check_added
    highest_changed_role
passed_without_role = refl

test_changes_for_permission_routing-Permitted_example : Permitted request users
test_changes_for_permission_routing-Permitted_example =
    test_changes_for_permission_routing-Permitted request users false refl passed

remove_duplicated_team_users-Distinct_run :
    Distinct (remove_duplicated_team_users (ann ∷ ann ∷ []))
    × (HasUser (remove_duplicated_team_users (ann ∷ ann ∷ [])) ann_id
        ↔ HasUser (ann ∷ ann ∷ []) ann_id)
remove_duplicated_team_users-Distinct_run =
    remove_duplicated_team_users-Distinct (ann ∷ ann ∷ []) ann_id

abbrev first_input : Input
first_input = record { user_id = owner_id; school_id = none; role = some "teamleader" }

abbrev inputs : List Input
inputs =
    record { user_id = bob_id; school_id = none; role = none }
    ∷ record { user_id = bob_id; school_id = none; role = none }
    ∷ []

abbrev is_number : String → Bool
is_number s = s == "1" || s == "2" || s == "3"

-- All users are of another school than the team, and stay.
given :
    get_team_users is_number request.roles "s"
      ("s" ∷ [])
      (λ id. some "t")
      (owner ∷ ann ∷ [])
      (first_input ∷ inputs)
    ≡ ok (owner ∷ bob ∷ [])
unfolding get_team_users mapped_input_user_ids_to_team_users remove_duplicated_team_users
    remove_duplicated map_inputs map_input selected_role find_role_id
    remove_not_valid_users_by_school_ids remove_team_users
given = refl

-- A role that is neither an id nor a name is not found, also for the owner.
unknown_role :
    get_team_users is_number request.roles "s"
      ("s" ∷ [])
      (λ id. some "s")
      (owner ∷ ann ∷ [])
      (record first_input { role = some "chief" } ∷ [])
    ≡ err not_found
unfolding get_team_users mapped_input_user_ids_to_team_users map_inputs map_input selected_role
    find_role_id
unknown_role = refl

get_team_users-KeepsRole_example :
    Distinct (owner ∷ bob ∷ [])
    × ((id : String) → HasUser (owner ∷ bob ∷ []) id ↔ Names (first_input ∷ inputs) id)
    × ((owner_role : String) × (o : TeamUser) × (find_role_id request.roles "teamowner"
          ≡ ok owner_role)
        × (find (λ u. u.role == owner_role) (owner ∷ ann ∷ []) ≡ some o)
        × All (KeepsRole owner_role o) (owner ∷ bob ∷ []))
get_team_users-KeepsRole_example =
    get_team_users-KeepsRole is_number request.roles "s" ("s" ∷ []) (λ id. some "t")
      (owner ∷ ann ∷ []) first_input inputs (owner ∷ bob ∷ []) given
