-- ===== src/FileAccess.antt =====
-- src/services/fileStorage/utils/filePermissionHelper.js: who may read, write, create or delete a
-- file. What the database holds of the file, its submission and its homework is the argument.
pub mod Team
pub mod Membership
pub mod Grants
pub mod Laws
mod Tests
use schulcloud.Base.{
  ℕ, String, Option, none, some, List, [], ◌∷◌, ◌++◌, Bool, true, false, not, ◌&&◌, ◌||◌, ◌==◌,
  if◌then◌else◌, truthy, to_string, is_some, find, Error, not_found, type_error, get_or,
}
use schulcloud.ObjectId.{equal}
use schulcloud.FileAccess.Team.{
  Right, Permission, grants, Member, Owner, File, Verdict, allowed, rejected, threw, refers_to,
  TeamStore, check_team_permission, members_of,
}

-- The `finder` of `checkMemberStatus`.
abbrev pub is_user : String → Member → Bool
is_user user (Member.plain id) = user == id
is_user user (Member.team_user id _) = user == id

-- `checkMemberStatus`: the first entry for the user in one of the lists, which may be missing.
unfoldable pub check_member_status : Owner → String → Option Member
check_member_status owner user =
    let in_list = λ (list : Option (List Member)). find (is_user user) (get_or list []) in
    elim (in_list owner.user_ids) [
      | some m ↦ some m
      | none ↦ elim (in_list owner.teacher_ids) [
        | some m ↦ some m
        | none ↦ in_list owner.substitution_ids
      ]
    ]

-- A homework with its course, which may be missing: then the owner is the empty object.
pub record Homework : Type 0 where
  pub course : Option Owner
  pub private : Bool
  pub public_submissions : Bool

abbrev empty_owner : Owner
empty_owner = record { id = none; user_ids = none; teacher_ids = none; substitution_ids = none }

abbrev pub course_of : Homework → Owner
course_of homework = get_or homework.course empty_owner

-- What the queries of `checkPermissions` answer for a file that was found: the homework of its
-- submission if there is one, the homework that it belongs to, and the id of the role named
-- student if the user has it.
pub record Found : Type 0 where
  pub file : File
  pub of_course : Bool  -- refOwnerModel === 'course'
  pub submission : Option Homework
  pub homework : Option Homework
  pub student_role : Option String
  pub team_roles : TeamStore

-- The permission of the user's student role, whose field is read even where it is missing.
unfoldable pub check_student : Right → File → String → Verdict
check_student right file student =
    elim (find (λ p. truthy p.ref_id && refers_to p student) file.permissions) [
      | none ↦ threw type_error
      | some p ↦ if grants right p then allowed else rejected
    ]

-- The owner whose members count: the course of the submission's homework, or the file's own.
abbrev pub course_owner : Found → Owner
course_owner found = elim (found.submission) [ none ↦ found.file.owner | some h ↦ course_of h ]

abbrev pub has_public_submissions : Found → Bool
has_public_submissions found = elim (found.submission) [
  | none ↦ false
  | some h ↦ h.public_submissions
]

-- The branch for a file of a course, or of a submission.
unfoldable pub check_course : Right → String → Found → Verdict
check_course right user found =
    if not (is_some (check_member_status (course_owner found) user))
    then rejected
    else if has_public_submissions found
    then allowed
    else elim (found.student_role) [
      | none ↦ allowed
      | some student ↦ check_student right found.file student
    ]

-- `permissions.find((perm) => perm.refId && perm.refId.toString() === user.toString())`
abbrev pub user_permissions : String → File → Option Permission
user_permissions user file =
    find (λ p. truthy p.ref_id && to_string p.ref_id == user) file.permissions

-- The last part: members of the owner, and users whom the file itself names.
unfoldable pub check_member : ℕ → Right → String → Found → Verdict
check_member fuel right user found =
    let member = check_member_status found.file.owner user in
    if not (is_some member) && not (is_some (user_permissions user found.file))
    then rejected
    else check_team_permission fuel right found.team_roles found.file member

unfoldable pub check_homework : ℕ → Right → String → Found → Verdict
check_homework fuel right user found = elim (found.homework) [
  | none ↦ check_member fuel right user found
  | some homework ↦
      if homework.private
      then rejected
      else if is_some (check_member_status (course_of homework) user)
      then allowed
      else check_member fuel right user found
]

abbrev pub user_granted : Right → String → File → Bool
user_granted right user file = elim (user_permissions user file) [
  | none ↦ false
  | some p ↦ grants right p
]

-- `checkPermissions(permission)(user, file)`; the fuel is for the search of the team's roles.
unfoldable pub check_permissions : ℕ → Right → String → Option Found → Verdict
check_permissions fuel right user none = threw not_found
check_permissions fuel right user (some found) =
    if equal user (to_string found.file.owner.id)
    then allowed
    else if user_granted right user found.file
    then allowed
    else if found.of_course || is_some found.submission
    then check_course right user found
    else check_homework fuel right user found
