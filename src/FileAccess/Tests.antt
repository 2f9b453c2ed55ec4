-- ===== src/FileAccess/Tests.antt =====
-- The theorems about file access at a concrete file of a team.
use schulcloud.Base.{
  ℕ, String, ◌≡◌, refl, ◌↔◌, Option, none, some, [], ◌∷◌, true, false, arith, if◌then◌else◌, ◌==◌,
  find, Bool-cases, inl, inr,
}
use schulcloud.Role.{Role}
use schulcloud.ObjectId.{equal, is_valid}
use schulcloud.FileAccess.Team.{
  Right, Permission, refers_to, Member, File, allowed, TeamStore, ended, search_roles, pop,
  check_team_permission, decide_team, creator_entry,
}
use schulcloud.FileAccess.Team.Laws.{Ranked, Ends, search_roles-Ends, Reaches, search_roles-Reaches}
use schulcloud.FileAccess.{
  Found, check_permissions, check_homework, check_member, check_member_status,
}
use schulcloud.FileAccess.Laws.{Reason, check_permissions_iff}

abbrev member_id : String
member_id = "000000000000000000000001"

abbrev leader_id : String
leader_id = "000000000000000000000002"

abbrev team_member_role : Role
team_member_role = record { id = member_id; name = "teammember"; permissions = []; roles = [] }

abbrev team_leader_role : Role
team_leader_role = record {
  id = leader_id;
  name = "teamleader";
  permissions = [];
  roles = member_id ∷ [];
}

abbrev role_index : String → Option Role
role_index id =
    if id == leader_id
    then some team_leader_role
    else if id == member_id
    then some team_member_role
    else none

abbrev rank : String → ℕ
rank id = if id == leader_id then 1 else 0

abbrev readable : Permission
readable = record {
  ref_id = some member_id;
  write = false;
  read = true;
  create = false;
  delete = false;
}

abbrev store : TeamStore
store = record {
  role_index = role_index;
  sorted = (team_member_role ∷ []) ∷ (team_leader_role ∷ []) ∷ [];
}

abbrev ann : String
ann = "0000000000000000000000aa"

abbrev file : File
file = record {
  owner = record {
    id = some "0000000000000000000000ff";
    user_ids = some (Member.team_user ann leader_id ∷ []);
    teacher_ids = none;
    substitution_ids = none;
  };
  creator = some ann;
  permissions = readable ∷ [];
}

abbrev team_file : Found
team_file = record {
  file = file;
  of_course = false;
  submission = none;
  homework = none;
  student_role = none;
  team_roles = store;
}

check_permissions_iff_example :
    ((fuel : ℕ) × (check_permissions fuel Right.read ann (some team_file) ≡ allowed))
    ↔ Reason Right.read ann team_file
check_permissions_iff_example = check_permissions_iff Right.read ann team_file

role_index-Ranked : Ranked role_index rank
role_index-Ranked id role h = elim (Bool-cases (id == leader_id)) [
  | inl e ↦
      let same : team_leader_role ≡ role = ground arith in
      rw (← same) ((ground arith, (team_member_role, refl)), tt)
  | inr e ↦ elim (Bool-cases (id == member_id)) [
    | inl e2 ↦ let same : team_member_role ≡ role = ground arith in rw (← same) tt
    | inr e2 ↦ absurd (ground arith)
  ]
]

search_roles-Ends_example : Ends role_index (readable ∷ []) (leader_id ∷ [])
search_roles-Ends_example =
    search_roles-Ends role_index (readable ∷ []) rank role_index-Ranked 2 (leader_id ∷ [])
      ((omega arith, (team_leader_role, refl)), tt)

searched : search_roles 5 role_index (readable ∷ []) (leader_id ∷ []) ≡ ended (some readable)
unfolding search_roles pop equal is_valid
searched = refl

search_roles-Reaches_run :
    (id : String) × Reaches role_index (leader_id ∷ []) id
    × (find (λ q. refers_to q id) (readable ∷ []) ≡ some readable)
search_roles-Reaches_run =
    search_roles-Reaches role_index (readable ∷ []) 5 (leader_id ∷ []) searched

leader_reads : check_permissions 5 Right.read ann (some team_file) ≡ allowed
unfolding check_permissions check_homework check_member check_member_status check_team_permission
    decide_team creator_entry search_roles pop equal is_valid
leader_reads = refl
