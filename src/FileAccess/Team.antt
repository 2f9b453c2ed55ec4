-- ===== src/FileAccess/Team.antt =====
-- src/services/fileStorage/utils/filePermissionHelper.js: `checkTeamPermission`, and the data of a
-- file that all its checks read.
pub mod Laws
pub mod Steps
use schulcloud.Base.{
  ℕ, zero, suc, String, Option, none, some, List, [], ◌∷◌, ◌++◌, Bool, true, false, not, ◌&&◌, ◌||◌,
  ◌==◌, if◌then◌else◌, truthy, to_string, is_some, find, find_index, any, ltb, Error, type_error,
  get_or,
}
use schulcloud.ObjectId.{equal}
use schulcloud.Role.{Role}

pub data Right : Type 0 where
  write read create delete : Right

pub record Permission : Type 0 where
  pub ref_id : Option String
  pub write : Bool
  pub read : Bool
  pub create : Bool
  pub delete : Bool

-- `perm[permission]`
abbrev pub grants : Right → Permission → Bool
grants Right.write p = p.write
grants Right.read p = p.read
grants Right.create p = p.create
grants Right.delete p = p.delete

-- An entry of a member list: the id of a course's user, or a team's user with a role.
pub data Member : Type 0 where
  plain : String → Member
  team_user : (user_id role : String) → Member

-- The user, course or team that owns a file; its lists may be missing.
pub record Owner : Type 0 where
  pub id : Option String
  pub user_ids : Option (List Member)
  pub teacher_ids : Option (List Member)
  pub substitution_ids : Option (List Member)

pub record File : Type 0 where
  pub owner : Owner
  pub creator : Option String
  pub permissions : List Permission

-- The promise of a check: it resolves, is rejected, throws, or does not settle within the fuel.
pub data Verdict : Type 0 where
  allowed rejected : Verdict
  threw : Error → Verdict
  running : Verdict

-- `equalIds(perm.refId, id)`
abbrev pub refers_to : Permission → String → Bool
refers_to p id = equal (to_string p.ref_id) id

-- The roles whose names begin with "team": the index by id, and the sorted levels.
pub record TeamStore : Type 0 where
  pub role_index : String → Option Role
  pub sorted : List (List Role)

-- The `while` loop: the last role is tested next, and its parents are put behind the others.
-- The outer `none` means that the fuel ran out, the inner one that no permission was found.
pub data Search : Type 0 where
  ended : Option Permission → Search
  failed : Error → Search
  running : Search

-- `pop`: the last element, and the others.
unfoldable pub pop {ℓ} : {A : Type ℓ} → List A → Option (A × List A)
pop [] = none
pop (x ∷ xs) = elim (pop xs) [ none ↦ some (x, []) | some (y, rest) ↦ some (y, x ∷ rest) ]

unfoldable pub search_roles : ℕ → (String → Option Role) → List Permission → List String → Search
search_roles zero role_index permissions roles = running
search_roles (suc fuel) role_index permissions roles = elim (pop roles) [
  | none ↦ ended none
  | some (role_id, rest) ↦ elim (role_index role_id) [
    | none ↦ failed type_error
    | some role ↦ elim (find (λ p. refers_to p role_id) permissions) [
      | some p ↦ ended (some p)
      | none ↦ search_roles fuel role_index permissions (rest ++ role.roles)
    ]
  ]
]

-- `findRole(id)` over the levels, where none is -1.
abbrev pub position : TeamStore → String → Option ℕ
position store id = find_index (λ level. any (λ r. equal r.id id) level) store.sorted

-- `a > b` on positions.
abbrev pub above : Option ℕ → Option ℕ → Bool
above none b = false
above (some i) none = true
above (some i) (some j) = ltb j i

-- The role of the entry of `owner.userIds` for the creator of the file.
abbrev pub role_of : Member → Option String
role_of (Member.plain id) = none
role_of (Member.team_user id role) = some role

abbrev pub member_id : Member → String
member_id (Member.plain id) = "undefined"
member_id (Member.team_user id role) = id

-- `file.creator || file.permissions[0].refId`
abbrev pub creator_of : File → Option String
creator_of file =
    if truthy file.creator
    then file.creator
    else elim (file.permissions) [ [] ↦ none | p ∷ _ ↦ p.ref_id ]

abbrev pub members_of : Owner → List Member
members_of owner = get_or owner.user_ids []

unfoldable pub creator_entry : File → Option Member
creator_entry file =
    find (λ m. equal (member_id m) (to_string (creator_of file))) (members_of file.owner)

-- What is left when the search has ended: the position decides, and else the permission found.
unfoldable pub decide_team : Right → TeamStore → File → String → Option Permission → Verdict
decide_team right store file role permission = elim (creator_entry file) [
  | none ↦ threw type_error
  | some creator ↦
      if above (position store role) (position store (to_string (role_of creator)))
      then allowed
      else elim permission [
        | none ↦ threw type_error
        | some p ↦ if grants right p then allowed else rejected
      ]
]

-- A user that is undefined, or is an id with no role, makes the code throw.
unfoldable pub check_team_permission : ℕ → Right → TeamStore → File → Option Member → Verdict
check_team_permission fuel right store file none = threw type_error
check_team_permission fuel right store file (some (Member.plain id)) = threw type_error
check_team_permission fuel right store file (some (Member.team_user id role)) =
    elim (search_roles fuel store.role_index file.permissions (role ∷ [])) [
      | running ↦ running
      | failed e ↦ threw e
      | ended permission ↦ decide_team right store file role permission
    ]
