-- ===== src/FileStorage/Tests.antt =====
-- Two directories of a user, one in the other, with a file in the second.
use schulcloud.Base.{
  map, ok, ◌==◌, String, ◌≡◌, ◌≢◌, refl, sym, ◌∙◌, Option, none, some, [], ◌∷◌, Bool, true, false,
  eq_iff, Bool-cases, inl, inr, All,
}
use schulcloud.ObjectId.{equal, is_valid}
use schulcloud.FileAccess.{check_permissions}
use schulcloud.FileAccess.Team.{Right, Verdict}
use schulcloud.FileStorage.{
  Owners, full_permission, directory_permissions, folder_regex_check, user_model, Permission, File,
  Files, Directory, answered, has_id, with_id, is_in, permission_for, merge_permissions,
  update_file, move_file, remove_directory, create_directory,
}
use schulcloud.FileStorage.Moves.{some-injective, IsOwned, IsLeaf, move_file-IsOwned}
use schulcloud.FileStorage.Removal.{remove_directory-All}
use schulcloud.FileStorage.Laws.{merge_permissions-permission_for, create_directory_again}

abbrev ann : String
ann = "5f2987e020834114b8efd6f8"

abbrev bob : String
bob = "0000dcfbfb5c7a3f00bf21ab"

abbrev file : String → Option String → Bool → File
file id parent is_directory = record {
  id = id;
  parent = parent;
  owner = ann;
  ref_owner_model = user_model;
  name = id;
  is_directory = is_directory;
  creator = ann;
  permissions = [];
}

abbrev files : Files
files = file "d1" none true ∷ file "d2" (some "d1") true ∷ file "f" (some "d2") false ∷ []

-- The checks of FileAccess on the files, which neither a course nor a team owns.
abbrev access : Right → String → String → Files → Verdict
access right user id stored = check_permissions 1 right user (elim (with_id id stored) [
  | none ↦ none
  | some f ↦ some (record {
    file = record {
      owner = record {
        id = some f.owner;
        user_ids = none;
        teacher_ids = none;
        substitution_ids = none;
      };
      creator = some f.creator;
      permissions = [];
    };
    of_course = false;
    submission = none;
    homework = none;
    student_role = none;
    team_roles = record { role_index = λ role. none; sorted = [] };
  })
])

-- The user removes the outer directory: the file in the inner one is left without it.
left_behind :
    remove_directory access ann "d1" files ≡ (answered tt, file "f" (some "d2") false ∷ [])
unfolding remove_directory check_permissions equal is_valid
left_behind = refl

-- Somebody else moves the file of the user to the own files.
moved_by_a_stranger : move_file access bob "f" bob (λ team. none) files ≡ (
  answered tt,
  file "d1" none true
      ∷ file "d2" (some "d1") true
      ∷ record (file "f" none false) { owner = bob }
      ∷ [],
)
unfolding move_file update_file
moved_by_a_stranger = refl

abbrev ann_only : Permission
ann_only = record {
  ref_id = ann;
  write = some true;
  read = some true;
  create = some true;
  delete = some true;
}

abbrev no_writing : Permission
no_writing = record { ref_id = ann; write = some false; read = none; create = none; delete = none }

merge_permissions-permission_for_run :
    permission_for ann (merge_permissions (no_writing ∷ []) (ann_only ∷ []))
    ≡ some (record ann_only { write = some false })
merge_permissions-permission_for_run =
    merge_permissions-permission_for ann (no_writing ∷ []) (ann_only ∷ [])

abbrev owners : Owners
owners = record {
  is_course = λ id. id == "c";
  student_role = some "s";
  team_permissions = λ id. none;
}

abbrev notes : Directory
notes = record { name = "notes"; owner = none; parent = some "d1"; permissions = none }

abbrev first : Files
first = (create_directory access owners "n1" ann notes files).1

create_directory_again_example :
    create_directory access owners "n2" ann notes first
    ≡ create_directory access owners "n1" ann notes files
unfolding create_directory directory_permissions folder_regex_check check_permissions equal is_valid
create_directory_again_example = create_directory_again access owners "n1" "n2" ann notes files refl

refused_names :
    map folder_regex_check ("c_drive" ∷ ".git" ∷ "   " ∷ "notes" ∷ [])
    ≡ true ∷ true ∷ true ∷ false ∷ []
unfolding folder_regex_check
refused_names = refl

-- A student may not write in a directory of a course.
course_directory :
    directory_permissions owners ann (record notes { owner = some "c" })
    ≡ ok (
        full_permission ann
        ∷ record (full_permission "s") { write = some false; delete = some false }
        ∷ [])
unfolding directory_permissions
course_directory = refl

remove_directory-All_example :
    let (reply, left) = remove_directory access ann "d2" files in
    (reply ≡ answered tt)
    × (with_id "d2" left ≡ none)
    × All (λ f. is_in (some "d2") f ≡ false) left
    × ((other : String) (f : File)
        → with_id other files ≡ some f
        → other ≢ "d2"
        → is_in (some "d2") f ≡ false
        → with_id other left ≡ some f)
unfolding check_permissions equal is_valid
remove_directory-All_example =
    remove_directory-All access ann "d2" files (file "d2" (some "d1") true) refl
      ((refl, (refl, tt)), ((refl, tt), (tt, tt))) refl

abbrev id_f : String
id_f = "f"

other_text : "d1" ≢ id_f
other_text e = let yes = (eq_iff "d1" id_f).1 e in cc

found_in :
    (P : File → Type 0) (id : String) (stored : Files) (f : File)
    → All P stored
    → with_id id stored ≡ some f
    → P f
found_in P id [] f h found = cc
found_in P id (g ∷ rest) f (h, hs) found = elim (Bool-cases (has_id id g)) [
  | inl e ↦ let same : some g ≡ some f = rw e at found in rw (← some-injective same) h
  | inr e ↦ let later : with_id id rest ≡ some f = rw e at found in found_in P id rest f hs later
]

files-IsLeaf : IsLeaf id_f files
files-IsLeaf other f found =
    found_in (λ g. is_in (some id_f) g ≡ false) other files f (refl, (refl, (refl, tt))) found

files-IsOwned : IsOwned files
files-IsOwned id p f d found in_p is_d =
    let owned = λ (i : String) (g : File) (there : with_id i files ≡ some g).
      found_in (λ g. (g.owner ≡ ann) × (g.ref_owner_model ≡ user_model)) i files g
        ((refl, refl), ((refl, refl), ((refl, refl), tt))) there in
    let (a, b) = owned id f found in let (c, e) = owned p d is_d in (c ∙ sym a, e ∙ sym b)

move_file-IsOwned_example : IsOwned ((move_file access ann id_f "d1" (λ team. none) files).1)
move_file-IsOwned_example =
    move_file-IsOwned access ann id_f "d1" (λ team. none) files files-IsLeaf other_text
      files-IsOwned
