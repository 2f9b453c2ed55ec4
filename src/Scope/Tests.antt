-- ===== src/Scope/Tests.antt =====
-- The theorems about scopes at a course with a teacher.
use schulcloud.Base.{
  String, ◌≡◌, refl, Option, none, some, List, [], ◌∷◌, ◌==◌, Result, ok, err, not_found,
  if◌then◌else◌, All, Has, forbidden,
}
use schulcloud.ObjectId.{is_valid, equal}
use schulcloud.Scope.{
  Scope, PermissionService, get_user_permissions, get_scope_permissions, check_scope_permissions,
  Course, User, course_role, determine_course_permissions, course_permissions, single, within,
  find_permissions,
}
use schulcloud.Scope.Laws.{Plays, check_scope_permissions-Plays}

abbrev teacher : String
teacher = "0000d213816abba584714c0a"

abbrev student : String
student = "0000d213816abba584714c0b"

abbrev course : Course
course = record {
  school_id = "5f2987e020834114b8efd6f8";
  teacher_ids = teacher ∷ [];
  substitution_ids = [];
  user_ids = student ∷ [];
}

abbrev get_course : String → Result Course
get_course id = if id == "c" then ok course else err not_found

abbrev user_of : String → Result User
user_of id = ok (record { school_id = "5f2987e020834114b8efd6f8"; role_names = [] })

abbrev get_permissions : String → Result (List String)
get_permissions role = if role == "courseTeacher" then ok ("COURSE_EDIT" ∷ []) else ok []

abbrev services : String → Option PermissionService
services name =
    if name == "courses" then some (course_permissions get_course user_of get_permissions) else none

abbrev scope : Scope
scope = record { scope_name = some "courses"; scope_id = some "c" }

passes : check_scope_permissions services ("COURSE_EDIT" ∷ []) scope (some teacher) ≡ ok tt
unfolding check_scope_permissions get_scope_permissions course_permissions get_user_permissions
    determine_course_permissions course_role equal is_valid
passes = refl

refused : check_scope_permissions services ("COURSE_EDIT" ∷ []) scope (some student) ≡ err forbidden
unfolding check_scope_permissions get_scope_permissions course_permissions get_user_permissions
    determine_course_permissions course_role equal is_valid
refused = refl

-- The permissions of a user come out of a query for her alone, and not of one for her among others.
one_user :
    find_permissions
      (determine_course_permissions user_of get_permissions)
      (some course)
      (single teacher)
    ≡ ok ((teacher, "COURSE_EDIT" ∷ []) ∷ [])
unfolding find_permissions get_user_permissions determine_course_permissions course_role equal
    is_valid
one_user = refl

several_users :
    find_permissions
      (determine_course_permissions user_of get_permissions)
      (some course)
      (within (teacher ∷ []))
    ≡ ok []
unfolding find_permissions
several_users = refl

check_scope_permissions-Plays_example :
    (c : Course) × (u : User) × (role : String) × (permissions : List String) × (get_course "c"
      ≡ ok c)
    × (user_of teacher ≡ ok u)
    × Plays teacher u c role
    × (get_permissions role ≡ ok permissions)
    × All (Has permissions) ("COURSE_EDIT" ∷ [])
check_scope_permissions-Plays_example =
    check_scope_permissions-Plays services get_course user_of get_permissions ("COURSE_EDIT" ∷ [])
      "c" teacher refl refl passes
