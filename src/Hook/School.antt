-- ===== src/Hook/School.antt =====
-- src/hooks/index.js: the hooks that keep a request within the school of the current user.
pub mod Laws
use schulcloud.Base.{
  String, Option, none, some, Bool, true, false, not, ◌&&◌, ◌||◌, ◌==◌, if◌then◌else◌, truthy,
  to_string, is_some, Result, ok, err, forbidden, not_found, ◌>>=◌, ◌>>◌, throw_if,
}
use schulcloud.ObjectId.{equal}
use schulcloud.Hook.{User, Context, Names, one, is_read, is_change, is_write}
use schulcloud.Hook.Permission.{get_user, test_if_role_name_exist}

-- `context.service.get(id)`, of which only the school is read.
abbrev pub TargetService : Type 0
TargetService = String → Result (Option String)

-- `params.route && params.route.schoolId && params.route.schoolId !== currentSchoolId`
unfoldable pub check_route : String → Context → Result (Unit {0})
check_route school context =
    throw_if (truthy context.route_school_id && not (to_string context.route_school_id == school))
      forbidden

unfoldable pub check_target : String → TargetService → Context → Result (Unit {0})
check_target school targets context =
    if is_change context.method && truthy context.id
    then (do
      target ← targets (to_string context.id)
      throw_if (not (equal (to_string target) school)) not_found)
    else ok tt

-- A missing school is set to the user's own; another one is refused.
unfoldable pub own_school : String → Option String → Result (Option String)
own_school school none = ok (some school)
own_school school (some s) = if not (equal s school) then err forbidden else ok (some s)

abbrev pub has_query : Context → Bool
has_query context = is_read context.method || is_change context.method && not (is_some context.id)

unfoldable pub restrict_query : String → Context → Result Context
restrict_query school context =
    if has_query context
    then (do
      s ← own_school school context.query_school_id
      ok (record context { query_school_id = s }))
    else ok context

unfoldable pub restrict_data : String → Context → Result Context
restrict_data school context =
    if is_write context.method
    then (do
      s ← own_school school context.data_school_id
      ok (record context { data_school_id = s }))
    else ok context

unfoldable pub restrict_to_current_school :
    (Option String → Result (Option User)) → TargetService → Context → Result Context
restrict_to_current_school users targets context = do
  user ← get_user users context
  superhero ← test_if_role_name_exist user (one "superhero")
  if superhero then ok context else (do
    check_route user.school_id context
    check_target user.school_id targets context
    context' ← restrict_query user.school_id context
    restrict_data user.school_id context')

-- `denyIfNotCurrentSchool`, an after hook; the argument is the school of `context.result`. The ids
-- are compared by the driver, by value.
unfoldable pub deny_if_not_current_school :
    (Option String → Result (Option User)) → Option String → Context → Result Context
deny_if_not_current_school users result_school_id context = do
  user ← get_user users context
  superhero ← test_if_role_name_exist user (one "superhero")
  if superhero
      then ok context
      else (do throw_if (not (user.school_id == to_string result_school_id)) forbidden; ok context)

-- `denyIfStudentTeamCreationNotAllowed`; `schools` answers whether the school lets students
-- create teams.
unfoldable pub deny_if_student_team_creation_not_allowed :
    (Option String → Result (Option User)) → (String → Result Bool) → Context → Result Context
deny_if_student_team_creation_not_allowed users schools context = do
  user ← get_user users context
  student ← test_if_role_name_exist user (one "student")
  if not student
      then ok context
      else (do enabled ← schools user.school_id; throw_if (not enabled) forbidden; ok context)
