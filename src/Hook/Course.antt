-- ===== src/Hook/Course.antt =====
-- src/hooks/index.js: the hooks that tie a request to the courses and teams of the current user.
pub mod Laws
use schulcloud.Base.{
  ℕ, String, Option, none, some, List, [], ◌∷◌, ◌++◌, Bool, true, false, not, ◌&&◌, ◌||◌,
  if◌then◌else◌, truthy, to_string, any, nat_eq, is_some, Result, ok, err, forbidden, type_error,
  ◌>>=◌, ◌>>◌, throw_if,
}
use schulcloud.ObjectId.{equal}
use schulcloud.Hook.{Method, find, User, Account, Names, one, many}
use schulcloud.Hook.Permission.{test_if_role_name_exist}

-- A course or class; a list that is missing is the empty one.
pub record Course : Type 0 where
  pub user_ids : List String
  pub teacher_ids : List String
  pub substitution_ids : List String

abbrev pub holds : List String → String → Bool
holds ids id = any (λ u. equal u id) ids

unfoldable pub user_is_in_that_course : User → Course → Bool → Result Bool
user_is_in_that_course user course true = ok (
    holds course.user_ids user.id
    || holds course.teacher_ids user.id
    || holds course.substitution_ids user.id)
user_is_in_that_course user course false =
    if holds course.user_ids user.id then ok true else test_if_role_name_exist user (one "teacher")

-- What the find query asks of a course: that the user is in one of its three lists, or
-- something that the client sent.
pub data Clause : Type 0 where
  member : String → Clause
  sent : ℕ → Clause

pub record CourseRequest : Type 0 where
  pub method : Method
  pub id : String
  pub and_clauses : List Clause

abbrev pub is_find : Method → Bool
is_find find = true
is_find _ = false

-- `restrictToUsersOwnCourses` once the user is fetched.
unfoldable pub restrict_to_users_own_courses :
    User → (String → Result Course) → CourseRequest → Result CourseRequest
restrict_to_users_own_courses user courses request = do
  free ← test_if_role_name_exist user (many ("superhero" ∷ "administrator" ∷ []))
  if free
      then ok request
      else if is_find request.method
      then ok (record request { and_clauses = request.and_clauses ++ member user.id ∷ [] })
      else (do
        course ← courses request.id
        inside ← user_is_in_that_course user course true
        throw_if (not inside) forbidden
        ok request)

-- The ids in `context.data` of `checkCorrectCourseOrTeamId`, and `context.id`.
pub record Target : Type 0 where
  pub course_id : Option String
  pub course_group_id : Option String
  pub team_id : Option String
  pub id : Option String

-- What the services answer: the team that the user is in, the course of a group, and the number
-- of courses with this id where the user teaches, or is in any list.
pub record Services : Type 0 where
  pub team_of : String → String → Result Bool
  pub course_of_group : String → Result String
  pub taught : String → String → Result ℕ
  pub attended : String → String → Result ℕ

-- `(courseId || '').toString() || (context.id || '').toString()`
unfoldable pub validated_course_id : Target → String
validated_course_id target =
    if truthy target.course_id
    then to_string target.course_id
    else if truthy target.id
    then to_string target.id
    else ""

abbrev pub user_id_text : Option Account → Result String
user_id_text none = err type_error
user_id_text (some account) = elim (account.user_id) [ none ↦ err type_error | some id ↦ ok id ]

unfoldable pub check_correct_course_or_team_id : Services → Option Account → Target → Result Target
check_correct_course_or_team_id services account target =
    if truthy target.team_id
    then (do
      user_id ← user_id_text account
      found ← services.team_of (to_string target.team_id) user_id
      throw_if (not found) forbidden
      ok target)
    else if truthy target.course_group_id
    then (do
      user_id ← user_id_text account
      course ← services.course_of_group (to_string target.course_group_id)
      total ← services.attended course user_id
      throw_if (not (nat_eq total 1)) forbidden
      ok (record target { course_id = none }))
    else if truthy target.course_id
    then (do
      user_id ← user_id_text account
      total ← services.taught (validated_course_id target) user_id
      throw_if (not (nat_eq total 1)) forbidden
      ok target)
    else ok target
