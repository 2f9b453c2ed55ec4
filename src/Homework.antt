-- ===== src/Homework.antt =====
-- src/services/homework/hooks/index.js: who may see, change and delete a homework. The homework
-- comes with its course, as the services populate it.
pub mod Rating
pub mod Submission
pub mod Laws
pub mod Creation
mod Tests
use schulcloud.Base.{
  ℕ, String, Option, none, some, List, [], ◌∷◌, filter, any, length, Bool, true, false, not, ◌&&◌,
  ◌||◌, ◌==◌, if◌then◌else◌, ltb, nat_eq, find, includes, is_some, truthy, to_string, Result, ok,
  err, Error, general_error, not_authenticated, forbidden, not_found, type_error, ◌>>=◌, ◌>>◌,
  throw_if,
}
use schulcloud.ObjectId.{is_valid, equal}

-- A list that is missing is the empty one.
pub record Course : Type 0 where
  pub user_ids : List String
  pub teacher_ids : List String
  pub substitution_ids : List String

pub record Homework : Type 0 where
  pub teacher_id : String
  pub course : Option Course
  pub school_id : Option String
  pub private : Bool
  pub public_submissions : Bool
  pub available_date : Option ℕ
  pub archived : List String
  pub team_submissions : Bool
  pub max_team_members : Option ℕ

abbrev pub holds : List String → String → Bool
holds ids user = any (λ id. equal id user) ids

unfoldable pub is_homework_owner : String → Homework → Bool
is_homework_owner user homework = equal user homework.teacher_id

unfoldable pub is_course_homework_teacher : String → Homework → Result Bool
is_course_homework_teacher user homework =
    if not (is_valid user) then err general_error else elim (homework.course) [
      | none ↦ err general_error
      | some course ↦ ok (holds course.teacher_ids user || holds course.substitution_ids user)
    ]

unfoldable pub has_homework_permission : String → Homework → Result Bool
has_homework_permission user homework =
    if is_homework_owner user homework
    then ok true
    else if homework.private
    then ok false
    else is_course_homework_teacher user homework

-- A date that is missing is not before any other.
abbrev pub is_before : Option ℕ → ℕ → Bool
is_before none now = false
is_before (some date) now = ltb date now

abbrev pub teaches : Option Course → String → Bool
teaches none user = false
teaches (some course) user =
    includes course.teacher_ids user || includes course.substitution_ids user

abbrev pub attends : Option Course → String → Bool
attends none user = false
attends (some course) user = includes course.user_ids user

-- `hasPermission` of `hasViewPermissionAfter`, which compares the ids as texts.
unfoldable pub can_view : ℕ → String → Homework → Bool
can_view now user homework =
    let is_teacher =
      homework.teacher_id == user || not homework.private && teaches homework.course user in
    let published = is_before homework.available_date now && not homework.private in
    is_teacher || attends homework.course user && published

-- The result of a request: a page of homework, or one.
pub data Answer : Type 0 where
  page : List Homework → Answer
  single : Homework → Answer

unfoldable pub has_view_permission_after : ℕ → String → Answer → Result Answer
has_view_permission_after now user (page l) = ok (page (filter (can_view now user) l))
has_view_permission_after now user (single homework) =
    if is_some homework.school_id && not (can_view now user homework)
    then err forbidden
    else ok (single homework)

-- The elements of the first list that the second one lacks.
abbrev pub missing_in : List String → List String → List String
missing_in new old = filter (λ id. not (any (λ other. equal id other) new)) old

abbrev pub only_self : String → List String → Bool
only_self user [] = false
only_self user (id ∷ rest) = nat_eq (length rest) 0 && equal id user

abbrev pub is_student : Homework → String → Bool
is_student homework user = elim (homework.course) [
  | none ↦ false
  | some course ↦ holds course.user_ids user
]

-- The archived list of the request if it changes nothing else. An error of the permission is caught
-- and thrown as a general error, as is the refusal.
unfoldable pub has_patch_permission : String → Homework → Option (List String) → Result (Unit {0})
has_patch_permission user homework only_archived =
    let by_student : Bool = elim only_archived [
      | none ↦ false
      | some archived ↦
          is_student homework user
          && (only_self user (missing_in archived homework.archived)
              || only_self user (missing_in homework.archived archived))
    ] in
    if by_student then ok tt else elim (has_homework_permission user homework) [
      | ok true ↦ ok tt
      | ok false ↦ err general_error
      | err e ↦ err general_error
    ]

-- The fields of the request that `hasCreatePermission` reads and sets.
pub record Created : Type 0 where
  pub school_id : Option String
  pub teacher_id : Option String
  pub private : Bool
  pub course_id : Option String
  pub lesson_id : Option String

abbrev pub in_course : Course → String → Bool
in_course course user =
    holds course.user_ids user
    || holds course.teacher_ids user
    || holds course.substitution_ids user

abbrev pub check_created_course :
    (String → Result Course) → String → Option String → Result (Unit {0})
check_created_course courses user none = ok tt
check_created_course courses user (some id) =
    if truthy (some id)
    then (courses id >>= λ course. throw_if (not (in_course course user)) not_found)
    else ok tt

-- `lesson_course` stands for the course of the lesson with an id.
abbrev pub check_created_lesson :
    (String → Result String) → Option String → Option String → Result (Unit {0})
check_created_lesson lesson_course course none = ok tt
check_created_lesson lesson_course course (some id) =
    if truthy (some id)
    then (lesson_course id >>= λ c.
        throw_if (not (truthy course && equal c (to_string course))) not_found)
    else ok tt

-- `school` and `roles` are those of the current user.
unfoldable pub has_create_permission :
    (String → Result Course)
    → (String → Result String)
    → String
    → String
    → List String
    → Created
    → Result Created
has_create_permission courses lesson_course user school roles created =
    let student = any (λ r. r == "student") roles in
    let next : Created = record {
      school_id = some school;
      teacher_id = some user;
      private = student || created.private;
      course_id = if student then none else created.course_id;
      lesson_id = if student then none else created.lesson_id;
    } in
    check_created_course courses user next.course_id
    >> check_created_lesson lesson_course next.course_id next.lesson_id
    >> ok next

-- `restrictHomeworkDeletion`
unfoldable pub restrict_homework_deletion :
    (String → Option Homework) → String → String → Result (Unit {0})
restrict_homework_deletion homeworks user id =
    if not (is_valid user)
    then err not_authenticated
    else if not (is_valid id)
    then err not_found
    else elim (homeworks id) [
      | none ↦ err not_found
      | some homework ↦ has_homework_permission user homework >>= λ allowed.
          if allowed then ok tt else err forbidden
    ]
