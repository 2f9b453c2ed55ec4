-- ===== src/FileStorage.antt =====
-- src/services/fileStorage/proxy-service.js: the files and directories that are stored, and how
-- they are found, moved, renamed and removed. The storage of their contents and the checks for
-- viruses are left out.
pub mod Laws
pub mod Moves
pub mod Removal
mod Tests
use Prim.Native.Char.{code}
use schulcloud.Base.{
  ℕ, all, leb, nat_eq, type_error, ◌>>=◌, String, Option, none, some, List, [], ◌∷◌, ◌++◌, map, any,
  filter, find, Bool, true, false, not, ◌&&◌, ◌||◌, ◌==◌, if◌then◌else◌, truthy, to_string, is_some,
  get_or, Error, bad_request, forbidden, not_found, plain_error, Result, ok, err,
}
use schulcloud.ObjectId.{equal, codes}
use schulcloud.Sync.Classes.{is_line_end}
use schulcloud.FileAccess.Team.{
  Right, write, read, create, delete, Verdict, allowed, rejected, threw, running,
}

pub data OwnerModel : Type 0 where
  user_model course_model teams_model : OwnerModel

-- What is stored of a permission: whom it is for, and its rights.
pub record Permission : Type 0 where
  pub ref_id : String
  pub write : Option Bool
  pub read : Option Bool
  pub create : Option Bool
  pub delete : Option Bool

pub record File : Type 0 where
  pub id : String
  pub parent : Option String
  pub owner : String
  pub ref_owner_model : OwnerModel
  pub name : String
  pub is_directory : Bool
  pub creator : String
  pub permissions : List Permission

abbrev pub Files : Type 0
Files = List File

-- A directory that is to be created, with the permissions that are sent.
pub record Directory : Type 0 where
  pub name : String
  pub owner : Option String
  pub parent : Option String
  pub permissions : Option (List Permission)

-- What is known of owners: which are courses, the id of the role of students, and the permissions
-- of teams.
pub record Owners : Type 0 where
  pub is_course : String → Bool
  pub student_role : Option String
  pub team_permissions : String → Option (List Permission)

-- What a service resolves with: a value, or an error as a value.
pub data Reply {ℓ} (Answer : Type ℓ) : Type ℓ where
  answered : Answer → Reply Answer
  returned : Error → Reply Answer

abbrev pub has_id : String → File → Bool
has_id id f = f.id == id

abbrev pub with_id : String → Files → Option File
with_id id files = find (has_id id) files

-- `FileModel.update({ _id }, change)`, which changes the first one.
unfoldable pub update_file : String → (File → File) → Files → Files
update_file id change [] = []
update_file id change (f ∷ rest) =
    let later = update_file id change rest in if has_id id f then change f ∷ rest else f ∷ later

abbrev pub is_in : Option String → File → Bool
is_in none f = not (is_some f.parent)
is_in (some parent) f = elim (f.parent) [ none ↦ false | some p ↦ p == parent ]

-- A team with its members.
abbrev pub Teams : Type 0
Teams = String → Option (List String)

-- A right that is sent replaces the one that is stored.
abbrev pub or_old : Option Bool → Option Bool → Option Bool
or_old none old = old
or_old (some new) old = some new

abbrev pub override : Permission → Permission → Permission
override new old = record old {
  write = or_old new.write old.write;
  read = or_old new.read old.read;
  create = or_old new.create old.create;
  delete = or_old new.delete old.delete;
}

abbrev pub is_for : String → Permission → Bool
is_for id p = p.ref_id == id

abbrev pub permission_for : String → List Permission → Option Permission
permission_for id permissions = find (is_for id) permissions

abbrev pub override_by : Option Permission → Permission → Permission
override_by none p = p
override_by (some new) p = override new p

abbrev pub overridden : List Permission → Permission → Permission
overridden commited p = override_by (permission_for p.ref_id commited) p

-- The permissions of `filePermissionService.patch`: those that are stored, and then those for others.
unfoldable pub merge_permissions : List Permission → List Permission → List Permission
merge_permissions commited permissions =
    map (overridden commited) permissions
    ++ filter (λ c. not (any (is_for c.ref_id) permissions)) commited

abbrev pub get_ref_owner_model : Owners → Option String → OwnerModel
get_ref_owner_model owners none = user_model
get_ref_owner_model owners (some owner) =
    if owners.is_course owner then course_model else teams_model

-- `createPermission(user)`, and the one for students.
abbrev pub full_permission : String → Permission
full_permission user = record {
  ref_id = user;
  write = some true;
  read = some true;
  create = some true;
  delete = some true;
}

abbrev pub course_permissions : OwnerModel → Option String → Result (List Permission)
course_permissions course_model none = err type_error
course_permissions course_model (some role) =
    ok (record (full_permission role) { write = some false; delete = some false } ∷ [])
course_permissions _ student_role = ok []

abbrev pub sent_permissions : Owners → Directory → List Permission
sent_permissions owners d = elim (d.permissions) [
  | some sent ↦ sent
  | none ↦ elim (d.owner) [ none ↦ [] | some owner ↦ get_or (owners.team_permissions owner) [] ]
]

-- The permissions of a directory, where those that are sent name whom they are for.
unfoldable pub directory_permissions : Owners → String → Directory → Result (List Permission)
directory_permissions owners user d =
    course_permissions (get_ref_owner_model owners d.owner) owners.student_role >>= λ for_course.
    ok ((full_permission user ∷ for_course) ++ sent_permissions owners d)

abbrev pub is_drive : String → Bool
is_drive String.[] = false
is_drive (String.◌∷◌ c s) =
    (leb b'a' (code c) && leb (code c) b'z' || leb b'A' (code c) && leb (code c) b'Z')
    && s == "_drive"

-- A character and then no line end.
abbrev pub starts_with : ℕ → List ℕ → Bool
starts_with c [] = false
starts_with c (x ∷ xs) = nat_eq x c && all (λ d. not (is_line_end d)) xs

unfoldable pub folder_regex_check : String → Bool
folder_regex_check name =
    is_drive name
    || name == "Windows"
    || starts_with b'$' (codes name)
    || starts_with b'.' (codes name)
    || name == "Temporary Items"
    || name == "Network Trash Folder"
    || all (λ c. nat_eq c b' ') (codes name)

-- `checkPermissions(right)(user, file)` on the files as they are.
module _ (check : Right → String → String → Files → Verdict) where
  abbrev pub is_allowed : Right → String → String → Files → Bool
  is_allowed right user id files = elim (check right user id files) [
    | allowed ↦ true
    | rejected ↦ false
    | threw e ↦ false
    | running ↦ false
  ]

  abbrev pub in_parent : Right → String → Option String → Files → Bool
  in_parent right user none files = true
  in_parent right user (some parent) files = is_allowed right user parent files

  -- `fileStorageService.find`
  unfoldable pub find_files : String → Option String → String → Files → Result Files
  find_files user parent owner files =
      if in_parent read user parent files
      then ok (
          filter (λ f. is_allowed read user f.id files)
            (filter (λ f. f.owner == owner && is_in parent f) files))
      else err forbidden

  -- Where a file is moved to: a directory, the user's own files, or those of a team or a course.
  abbrev pub destination : Option File → String → String → Teams → File → File
  destination (some directory) user parent teams f = record f {
    parent = some parent;
    owner = directory.owner;
    ref_owner_model = directory.ref_owner_model;
  }
  destination none user parent teams f =
      if parent == user
      then record f { parent = none; owner = user; ref_owner_model = user_model }
      else record f {
        parent = none;
        owner = parent;
        ref_owner_model = if is_some (teams parent) then teams_model else course_model;
      }

  -- Only the destination is checked, and of these only a directory and a team.
  abbrev pub may_move : String → String → Teams → Files → Bool
  may_move user parent teams files = elim (with_id parent files) [
    | some directory ↦ is_allowed write user parent files
    | none ↦ elim (teams parent) [ none ↦ true | some members ↦ any (λ m. equal m user) members ]
  ]

  -- `fileStorageService.patch`
  unfoldable pub move_file : String → String → String → Teams → Files → Reply (Unit {0}) × Files
  move_file user id parent teams files =
      if may_move user parent teams files
      then (
        answered tt,
        update_file id (destination (with_id parent files) user parent teams) files,
      )
      else (returned forbidden, files)

  -- `renameService.create`
  unfoldable pub rename_file :
      String → Option String → Option String → Files → Result (Reply (Unit {0})) × Files
  rename_file user id new_name files =
      if not (truthy id) || not (truthy new_name)
      then (err bad_request, files)
      else if not (is_allowed write user (to_string id) files)
      then (ok (returned forbidden), files)
      else if not (is_some (with_id (to_string id) files))
      then (ok (returned not_found), files)
      else (
        ok (answered tt),
        update_file (to_string id) (λ f. record f { name = to_string new_name }) files,
      )

  -- `filePermissionService.patch`
  unfoldable pub patch_permissions :
      String → String → List Permission → Files → Reply (Unit {0}) × Files
  patch_permissions user id commited files =
      if not (is_allowed write user id files)
      then (returned forbidden, files)
      else if not (is_some (with_id id files))
      then (returned not_found, files)
      else (
        answered tt,
        update_file id (λ f. record f { permissions = merge_permissions commited f.permissions })
            files,
      )

  -- `remove()` of all files that satisfy the test, and of the first one.
  abbrev pub remove_all : (File → Bool) → Files → Files
  remove_all test files = filter (λ f. not (test f)) files

  abbrev pub remove_one : String → Files → Files
  remove_one id [] = []
  remove_one id (f ∷ rest) = if has_id id f then rest else f ∷ remove_one id rest

  -- `directoryService.remove`: the entries of the directory, and the directory itself.
  unfoldable pub remove_directory : String → String → Files → Reply (Unit {0}) × Files
  remove_directory user id files =
      if is_allowed delete user id files
      then (
        answered tt,
        remove_one id
            (if is_some (with_id id files) then remove_all (is_in (some id)) files else files),
      )
      else (returned forbidden, files)

  -- `fileStorageService.remove`, where the last argument says whether the content could be deleted.
  unfoldable pub remove_file : String → String → Bool → Files → Reply (Unit {0}) × Files
  remove_file user id is_deleted files =
      if not (is_some (with_id id files))
      then (returned not_found, files)
      else if not (is_allowed delete user id files)
      then (returned forbidden, files)
      else if is_deleted
      then (answered tt, remove_one id files)
      else (returned plain_error, files)

  -- `directoryExists`; a parent that is missing is asked for as missing.
  abbrev pub is_same_directory : String → Directory → File → Bool
  is_same_directory user d f =
      f.owner == get_or d.owner user && is_in d.parent f && f.is_directory && f.name == d.name

  -- The document, with the id that it is given.
  abbrev pub directory_file : Owners → String → String → Directory → List Permission → File
  directory_file owners id user d permissions = record {
    id = id;
    parent = d.parent;
    owner = get_or d.owner user;
    ref_owner_model = get_ref_owner_model owners d.owner;
    name = d.name;
    is_directory = true;
    creator = user;
    permissions = permissions;
  }

  -- The directory that exists, or the new one, which is stored.
  abbrev pub existing_or_new : File → Files → Option File → Reply File × Files
  existing_or_new new files (some f) = (answered f, files)
  existing_or_new new files none = (answered new, files ++ new ∷ [])

  abbrev pub or_create : File → String → Directory → Files → Reply File × Files
  or_create new user d files = existing_or_new new files (find (is_same_directory user d) files)

  abbrev pub with_permissions :
      Owners
      → String
      → String
      → Directory
      → Files
      → Result (List Permission)
      → Result (Reply File) × Files
  with_permissions owners id user d files (err e) = (err e, files)
  with_permissions owners id user d files (ok permissions) =
      if in_parent create user d.parent files
      then (let (reply, files') =
            or_create (directory_file owners id user d permissions) user d files in
          (ok reply, files'))
      else (ok (returned forbidden), files)

  -- `directoryService.create`
  unfoldable pub create_directory :
      Owners → String → String → Directory → Files → Result (Reply File) × Files
  create_directory owners id user d files =
      if folder_regex_check d.name
      then (err bad_request, files)
      else with_permissions owners id user d files (directory_permissions owners user d)
