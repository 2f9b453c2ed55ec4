-- ===== src/Homework/Tests.antt =====
-- The theorems about homework and its submissions at a homework of one course.
use schulcloud.Base.{
  ℕ, ◌*◌, ◌≤◌, ◌<◌, String, ◌≡◌, ◌↔◌, ◌⊎◌, inr, refl, Option, none, some, List, [], ◌∷◌, any, true,
  false, ◌==◌, arith, if◌then◌else◌, All, Exists, Result, ok, err, not_found, List, conflict,
}
use schulcloud.ObjectId.{is_valid, equal}
use schulcloud.Homework.{
  Course, Homework, page, single, has_view_permission_after, is_student, has_patch_permission,
  Created, has_create_permission, restrict_homework_deletion, is_homework_owner,
  has_homework_permission,
}
use schulcloud.Homework.Rating.{Graded, get_average_rating, sum_grades, add_grade}
use schulcloud.Homework.Submission.{
  Submission, Data, insert_homework, insert_submissions_data, populate_course_group,
  insert_homework_data, set_team_members, no_submission_before,
  no_duplicate_submission_for_team_members, max_team_members, can_grade, before_create,
  check_get_submission_view_permission,
}
use schulcloud.Homework.Laws.{
  MayChange, restrict_homework_deletion_iff, MayView, has_view_permission_after_iff,
}
use schulcloud.Homework.Creation.{
  has_patch_permission-others, CourseHas, CourseHasLesson, has_create_permission-sets,
}
use schulcloud.Homework.Rating.Laws.{Bounded, get_average_rating-bounds}
use schulcloud.Homework.Submission.View.{ViewReason, check_get_submission_view_permission_iff}

abbrev teacher_id : String
teacher_id = "0000000000000000000000aa"

abbrev ann : String
ann = "0000000000000000000000bb"

abbrev bob : String
bob = "0000000000000000000000cc"

abbrev course_id : String
course_id = "0000000000000000000000dd"

abbrev course : Course
course = record { user_ids = ann ∷ bob ∷ []; teacher_ids = teacher_id ∷ []; substitution_ids = [] }

abbrev homework : Homework
homework = record {
  teacher_id = teacher_id;
  course = some course;
  school_id = some "s";
  private = false;
  public_submissions = false;
  available_date = some 10;
  archived = ann ∷ [];
  team_submissions = true;
  max_team_members = some 2;
}

abbrev homeworks : String → Option Homework
homeworks id = if id == course_id then some homework else none

restrict_homework_deletion_iff_run :
    (restrict_homework_deletion homeworks teacher_id course_id ≡ ok tt) ↔ (
      (is_valid teacher_id ≡ true)
      × (is_valid course_id ≡ true)
      × (h : Homework) × (homeworks course_id ≡ some h)
      × MayChange teacher_id h)
restrict_homework_deletion_iff_run = restrict_homework_deletion_iff homeworks teacher_id course_id

deleted : restrict_homework_deletion homeworks teacher_id course_id ≡ ok tt
unfolding restrict_homework_deletion has_homework_permission is_homework_owner equal is_valid
deleted = refl

has_view_permission_after_iff_example :
    ((shown : List Homework) × (has_view_permission_after 20 ann (page (homework ∷ []))
        ≡ ok (page shown))
      × (Exists (λ h. h ≡ homework) shown
          ↔ (Exists (λ h. h ≡ homework) (homework ∷ []) × MayView 20 ann homework)))
    × ((has_view_permission_after 20 ann (single homework) ≡ ok (single homework))
        ↔ ((homework.school_id ≡ none) ⊎ MayView 20 ann homework))
has_view_permission_after_iff_example =
    has_view_permission_after_iff 20 ann (homework ∷ []) homework

attending : is_student homework ann ≡ true
unfolding equal is_valid
attending = refl

same_ann : equal ann ann ≡ true
unfolding equal is_valid
same_ann = refl

not_bob : All (λ id. equal ann id ≡ false) (bob ∷ [])
unfolding equal is_valid
not_bob = (refl, tt)

has_patch_permission-others_example : has_patch_permission ann homework (some (bob ∷ [])) ≡ ok tt
has_patch_permission-others_example =
    has_patch_permission-others ann homework (bob ∷ []) attending same_ann refl not_bob

abbrev asked : Created
asked = record {
  school_id = none;
  teacher_id = none;
  private = false;
  course_id = some course_id;
  lesson_id = none;
}

abbrev sets : Created
sets = record {
  school_id = some "s";
  teacher_id = some teacher_id;
  private = false;
  course_id = some course_id;
  lesson_id = none;
}

abbrev courses : String → Result Course
courses id = if id == course_id then ok course else err not_found

abbrev lesson_course : String → Result String
lesson_course id = err not_found

created :
    has_create_permission courses lesson_course teacher_id "s" ("teacher" ∷ []) asked ≡ ok sets
unfolding has_create_permission equal is_valid
created = refl

has_create_permission-sets_run :
    (sets.school_id ≡ some "s")
    × (sets.teacher_id ≡ some teacher_id)
    × CourseHas courses teacher_id sets
    × CourseHasLesson lesson_course sets
    × ((sets.private ≡ true) × (sets.course_id ≡ none) × (sets.lesson_id ≡ none)
        ⊎ (any (λ r. r == "student") ("teacher" ∷ []) ≡ false))
has_create_permission-sets_run =
    has_create_permission-sets courses lesson_course teacher_id "s" ("teacher" ∷ []) asked sets
      created

abbrev graded : List Graded
graded =
    record { grade = some 2; group_users = none; team_members = ann ∷ bob ∷ [] }
    ∷ record { grade = some 5; group_users = none; team_members = [] }
    ∷ []

abbrev no_number : String → Option ℕ
no_number id = none

average : get_average_rating no_number graded ≡ some (record { count = 3; total = 9 })
unfolding get_average_rating sum_grades add_grade
average = refl

graded-Bounded : All (Bounded no_number 1 6) graded
graded-Bounded = (
  (refl, inr (2, refl, omega arith, omega arith)),
  ((refl, inr (5, refl, omega arith, omega arith)), tt),
)

get_average_rating-bounds_run : (0 < 3) × (1 * 3 ≤ 9) × (9 ≤ 6 * 3)
get_average_rating-bounds_run =
    get_average_rating-bounds no_number 1 6 graded (record { count = 3; total = 9 }) graded-Bounded
      average

abbrev data_ : Data
data_ = record {
  homework_id = some "h";
  team_members = some (ann ∷ bob ∷ []);
  submission = none;
  submissions = [];
  homework = homework;
  course_group_id = none;
  group_users = none;
  is_teacher = false;
  is_owner = false;
  is_team_member = false;
  has_grade = false;
  has_grade_comment = false;
}

abbrev homework_of : String → Result Homework
homework_of id = if id == "h" then ok homework else err not_found

abbrev answers : List Submission → Option String → Result (List Submission)
answers found none = ok []
answers found (some id) = if id == "h" then ok found else ok []

abbrev group_of : String → Result (List String)
group_of id = if id == "g" then ok (ann ∷ bob ∷ []) else err not_found

abbrev submission : Submission
submission = record {
  student_id = some ann;
  team_members = ann ∷ [];
  homework_id = some "h";
  course_group_id = none;
}

-- Ann and bob are the team of a submission that somebody else handed in, and hand in again.
abbrev of_others : Submission
of_others = record submission {
  student_id = some "0000000000000000000000ee";
  team_members = ann ∷ bob ∷ [];
}

handed_in_again :
    before_create homework_of (answers (of_others ∷ [])) group_of ann data_
    ≡ ok (record data_ { submissions = of_others ∷ [] })
unfolding before_create insert_homework_data insert_homework insert_submissions_data
    set_team_members no_submission_before no_duplicate_submission_for_team_members
    populate_course_group max_team_members can_grade equal is_valid
handed_in_again = refl

handed_in_twice :
    before_create homework_of (answers (submission ∷ [])) group_of ann data_ ≡ err conflict
unfolding before_create insert_homework_data insert_homework insert_submissions_data
    set_team_members no_submission_before no_duplicate_submission_for_team_members
    populate_course_group max_team_members can_grade equal is_valid
handed_in_twice = refl

abbrev changed_data : Data
changed_data = record data_ {
  submission = some submission;
  submissions = submission ∷ [];
  is_owner = true;
  is_team_member = true;
}

check_get_submission_view_permission_iff_example :
    (check_get_submission_view_permission (ok homework) (λ g. err not_found) submission bob ≡ ok tt)
    ↔ ViewReason (ok homework) (λ g. err not_found) submission bob
check_get_submission_view_permission_iff_example =
    check_get_submission_view_permission_iff (ok homework) (λ g. err not_found) submission bob
