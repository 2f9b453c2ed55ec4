-- ===== src/Hook/Course/Laws.antt =====
-- Who passes the course and team hooks.
use schulcloud.Base.{
  String, ◌≡◌, refl, ◌↔◌, ◌⊎◌, inl, inr, Option, none, List, [], ◌∷◌, Bool, true, false, Result, ok,
  err, forbidden, arith, truthy, to_string, any_iff, Exists, Bool-cases, >>=-eq-ok,
}
use schulcloud.ObjectId.{equal}
use schulcloud.Hook.{User, Account, many}
use schulcloud.Hook.Permission.{test_if_role_name_exist}
use schulcloud.Hook.Course.{
  Course, user_is_in_that_course, CourseRequest, is_find, restrict_to_users_own_courses, Target,
  Services, validated_course_id, user_id_text, check_correct_course_or_team_id,
}

-- The id is in the list, as the server compares ids.
abbrev pub Holds : List String → String → Type 0
Holds ids id = Exists (λ u. equal u id ≡ true) ids

abbrev pub InCourse : Course → String → Type 0
InCourse course id =
    Holds course.user_ids id ⊎ Holds course.teacher_ids id ⊎ Holds course.substitution_ids id

user_is_in_that_course_iff :
    (user : User) (course : Course)
    → (user_is_in_that_course user course true ≡ ok true) ↔ InCourse course user.id
unfolding user_is_in_that_course
user_is_in_that_course_iff user course = ground (
  arith,
  any_iff (λ u. equal u user.id) course.user_ids,
  any_iff (λ u. equal u user.id) course.teacher_ids,
  any_iff (λ u. equal u user.id) course.substitution_ids,
)

user_is_in_that_course-total :
    (user : User) (course : Course) → (b : Bool) × (user_is_in_that_course user course true ≡ ok b)
unfolding user_is_in_that_course
user_is_in_that_course-total user course = (_, refl)

-- A user who is neither superhero nor administrator reaches exactly the courses of which one of
-- the three lists names the user; any other course is forbidden.
pub restrict_to_users_own_courses_iff :
    (user : User) (courses : String → Result Course) (request : CourseRequest) (course : Course)
    → test_if_role_name_exist user (many ("superhero" ∷ "administrator" ∷ [])) ≡ ok false
    → is_find request.method ≡ false
    → courses request.id ≡ ok course
    → ((restrict_to_users_own_courses user courses request ≡ ok request) ↔ InCourse course user.id)
      × ((restrict_to_users_own_courses user courses request ≡ err forbidden)
          ↔ ¬ InCourse course user.id)
unfolding restrict_to_users_own_courses
restrict_to_users_own_courses_iff user courses request course free single found =
    let (b, inside) = user_is_in_that_course-total user course in
    ground (arith, user_is_in_that_course_iff user course)

-- What a successful `checkCorrectCourseOrTeamId` rests on: the team of the request knows the
-- account's user; or, with no team, exactly one course of the group knows the user, and the
-- course id is dropped; or, with neither, the user teaches exactly one course with this id; or
-- the request names none of the three.
pub data Authorised (services : Services) (account : Option Account) (before after : Target)
    : Type 0 where
  by_team :
      (user : String)
      → truthy before.team_id ≡ true
      → user_id_text account ≡ ok user
      → services.team_of (to_string before.team_id) user ≡ ok true
      → after ≡ before
      → Authorised services account before after
  by_group :
      (user course : String)
      → truthy before.team_id ≡ false
      → truthy before.course_group_id ≡ true
      → user_id_text account ≡ ok user
      → services.course_of_group (to_string before.course_group_id) ≡ ok course
      → services.attended course user ≡ ok 1
      → after ≡ record before { course_id = none }
      → Authorised services account before after
  by_course :
      (user : String)
      → truthy before.team_id ≡ false
      → truthy before.course_group_id ≡ false
      → truthy before.course_id ≡ true
      → user_id_text account ≡ ok user
      → services.taught (validated_course_id before) user ≡ ok 1
      → after ≡ before
      → Authorised services account before after
  by_absence :
      truthy before.team_id ≡ false
      → truthy before.course_group_id ≡ false
      → truthy before.course_id ≡ false
      → after ≡ before
      → Authorised services account before after

module _ (services : Services) (account : Option Account) (before after : Target)
    (passed : check_correct_course_or_team_id services account before ≡ ok after) where
  passes_by_team : truthy before.team_id ≡ true → Authorised services account before after
  unfolding check_correct_course_or_team_id
  passes_by_team t =
      let h = rw t at passed in
      let (user, u, h1) = >>=-eq-ok (user_id_text account) _ h in
      let (found, f, h2) = >>=-eq-ok (services.team_of (to_string before.team_id) user) _ h1 in
      by_team user t u (ground arith) (ground arith)

  passes_by_group :
      truthy before.team_id ≡ false
      → truthy before.course_group_id ≡ true
      → Authorised services account before after
  unfolding check_correct_course_or_team_id
  passes_by_group t g =
      let h = rw (t, g) at passed in
      let (user, u, h1) = >>=-eq-ok (user_id_text account) _ h in
      let (course, c, h2) =
        >>=-eq-ok (services.course_of_group (to_string before.course_group_id)) _ h1 in
      let (total, n, h3) = >>=-eq-ok (services.attended course user) _ h2 in
      by_group user course t g u c (ground arith) (ground arith)

  passes_by_course :
      truthy before.team_id ≡ false
      → truthy before.course_group_id ≡ false
      → truthy before.course_id ≡ true
      → Authorised services account before after
  unfolding check_correct_course_or_team_id
  passes_by_course t g c =
      let h = rw (t, g, c) at passed in
      let (user, u, h1) = >>=-eq-ok (user_id_text account) _ h in
      let (total, n, h2) = >>=-eq-ok (services.taught (validated_course_id before) user) _ h1 in
      by_course user t g c u (ground arith) (ground arith)

  -- A request that `checkCorrectCourseOrTeamId` lets through is authorised by its team, by its
  -- course group, by its course, or names none of them; what it is changed to is part of that.
  pub check_correct_course_or_team_id-Authorised : Authorised services account before after
  unfolding check_correct_course_or_team_id
  check_correct_course_or_team_id-Authorised = elim (Bool-cases (truthy before.team_id)) [
    | inl t ↦ passes_by_team t
    | inr t ↦ elim (Bool-cases (truthy before.course_group_id)) [
      | inl g ↦ passes_by_group t g
      | inr g ↦ elim (Bool-cases (truthy before.course_id)) [
        | inl c ↦ passes_by_course t g c
        | inr c ↦ by_absence t g c (ground arith)
      ]
    ]
  ]
