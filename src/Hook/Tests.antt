-- ===== src/Hook/Tests.antt =====
-- The theorems about the hooks at concrete requests.
use schulcloud.Base.{
  ℕ, String, ◌≡◌, refl, ◌↔◌, inl, inr, Option, none, some, [], ◌∷◌, ◌++◌, true, false, Result, ok,
  err, forbidden, arith, ◌<◌, All, Has, filter, Exists, if◌then◌else◌,
}
use schulcloud.ObjectId.{is_valid, equal}
use schulcloud.Hook.{get, patch, Account, Role, User, Context, one, many, is_write}
use schulcloud.Hook.Permission.{
  UserService, has_permission, SchoolPermissions, Fetched, populated, has_school_permission,
  get_user, test_if_role_name_exist,
}
use schulcloud.Hook.Permission.Laws.{HasAny, has_permission_iff}
use schulcloud.Hook.Permission.BySchool.{Grants, has_school_permission_iff}
use schulcloud.Hook.School.{
  TargetService, restrict_to_current_school, check_route, check_target, own_school, restrict_query,
  restrict_data, has_query,
}
use schulcloud.Hook.School.Laws.{
  Confined, restrict_to_current_school-Confined, restrict_to_current_school_admits,
}
use schulcloud.Hook.Course.{
  Course, CourseRequest, restrict_to_users_own_courses, Target, Services,
  check_correct_course_or_team_id,
}
use schulcloud.Hook.Course.Laws.{
  InCourse, restrict_to_users_own_courses_iff, Authorised,
  check_correct_course_or_team_id-Authorised,
}
use schulcloud.Hook.Mail.{
  Attachment, allowed_type, validated_attachments, validated_from, single, page, MailData,
  send_email, uniq, uniq_from, emails_of,
}
use schulcloud.Hook.Mail.Laws.{
  total_size, validated_attachments_iff, Distinct, send_email-receivers,
}
use schulcloud.Hook.Request.{Call, enable_query, enable_query_after}
use schulcloud.Hook.Request.Laws.{enable_query_roundtrip}

abbrev school : String
school = "5f2987e020834114b8efd6f8"

abbrev ann_id : String
ann_id = "0000d231816abba584714c9e"

abbrev teacher : Role
teacher = record { name = some "teacher"; permissions = "HOMEWORK_CREATE" ∷ [] }

abbrev ann : User
ann = record {
  id = ann_id;
  school_id = school;
  roles = teacher ∷ [];
  permissions = "HOMEWORK_CREATE" ∷ "TEAM_VIEW" ∷ [];
}

abbrev account : Account
account = record { user_id = some ann_id }

abbrev users : UserService
users _ = ok ann

abbrev fetch : Option String → Result (Option User)
fetch _ = ok (some ann)

abbrev patch_request : Context
patch_request = record {
  provider = some "rest";
  method = patch;
  id = some "0000dcfbfb5c7a3f00bf21ab";
  account = some account;
  route_school_id = none;
  query_school_id = none;
  data_school_id = none;
}

abbrev targets : TargetService
targets _ = ok (some school)

has_permission_iff_run :
    ((has_permission (one "TEAM_VIEW") users patch_request ≡ ok patch_request)
      ↔ HasAny ann ("TEAM_VIEW" ∷ []))
    × ((has_permission (one "TEAM_VIEW") users patch_request ≡ err forbidden)
        ↔ ¬ HasAny ann ("TEAM_VIEW" ∷ []))
has_permission_iff_run =
    has_permission_iff (one "TEAM_VIEW") users patch_request account ann refl refl refl

abbrev overrides : SchoolPermissions
overrides = ("teacher", ("STUDENT_LIST", true) ∷ []) ∷ []

abbrev fetch_populated : Option String → Fetched
fetch_populated _ = populated ann overrides

has_school_permission_iff_example :
    (has_school_permission "STUDENT_LIST" fetch_populated users patch_request ≡ ok patch_request)
    ↔ Exists (Grants "STUDENT_LIST" overrides users patch_request) ann.roles
has_school_permission_iff_example =
    has_school_permission_iff "STUDENT_LIST" fetch_populated users patch_request account ann
      overrides refl refl refl

abbrev restricted : Context
restricted = record patch_request { data_school_id = some school }

get_ann : get_user fetch patch_request ≡ ok ann
unfolding get_user
get_ann = refl

not_superhero : test_if_role_name_exist ann (one "superhero") ≡ ok false
unfolding test_if_role_name_exist
not_superhero = refl

restricts : restrict_to_current_school fetch targets patch_request ≡ ok restricted
unfolding restrict_to_current_school get_user test_if_role_name_exist check_route check_target equal
    is_valid own_school restrict_query restrict_data
restricts = refl

restrict_to_current_school-Confined_example :
    (restricted ≡ record patch_request {
      query_school_id = restricted.query_school_id;
      data_school_id = restricted.data_school_id;
    })
    × Confined school targets patch_request restricted
restrict_to_current_school-Confined_example =
    restrict_to_current_school-Confined fetch targets patch_request restricted ann get_ann
      not_superhero restricts

school_valid : is_valid school ≡ true
unfolding is_valid
school_valid = refl

restrict_to_current_school_admits_run :
    restrict_to_current_school fetch targets patch_request
    ≡ ok (record patch_request {
      query_school_id = if has_query patch_request then some school else none;
      data_school_id = if is_write patch then some school else none;
    })
restrict_to_current_school_admits_run =
    restrict_to_current_school_admits fetch targets patch_request ann get_ann not_superhero
      school_valid (inl refl) (inr refl) (inl refl) (inl refl)

abbrev course : Course
course = record { user_ids = []; teacher_ids = ann_id ∷ []; substitution_ids = [] }

abbrev course_request : CourseRequest
course_request = record { method = get; id = "0000dcfbfb5c7a3f00bf21ab"; and_clauses = [] }

abbrev courses : String → Result Course
courses _ = ok course

not_free : test_if_role_name_exist ann (many ("superhero" ∷ "administrator" ∷ [])) ≡ ok false
unfolding test_if_role_name_exist
not_free = refl

restrict_to_users_own_courses_iff_run :
    ((restrict_to_users_own_courses ann courses course_request ≡ ok course_request)
      ↔ InCourse course ann_id)
    × ((restrict_to_users_own_courses ann courses course_request ≡ err forbidden)
        ↔ ¬ InCourse course ann_id)
restrict_to_users_own_courses_iff_run =
    restrict_to_users_own_courses_iff ann courses course_request course not_free refl refl

abbrev target : Target
target = record { course_id = some "c"; course_group_id = some "g"; team_id = none; id = none }

abbrev services : Services
services = record {
  team_of = λ _ _. ok true;
  course_of_group = λ _. ok "c";
  taught = λ _ _. ok 0;
  attended = λ _ _. ok 1;
}

group_passes :
    check_correct_course_or_team_id services (some account) target
    ≡ ok (record target { course_id = none })
unfolding check_correct_course_or_team_id
group_passes = refl

check_correct_course_or_team_id-Authorised_example :
    Authorised services (some account) target (record target { course_id = none })
check_correct_course_or_team_id-Authorised_example =
    check_correct_course_or_team_id-Authorised services (some account) target
      (record target { course_id = none }) group_passes

abbrev picture : Attachment
picture = record { mimetype = "image/png"; size = 400 }

validated_attachments_iff_run :
    (validated_attachments 1000 (picture ∷ picture ∷ []) ≡ ok tt)
    ↔ All (λ a. allowed_type a ≡ true) (picture ∷ picture ∷ [])
      × (total_size (picture ∷ picture ∷ []) < 1000)
validated_attachments_iff_run =
    validated_attachments_iff 1000 (picture ∷ picture ∷ []) (omega arith)

abbrev mail : MailData
mail = record { emails = "a@b.de" ∷ []; text = some "hello"; html = none; attachments = [] }

mails :
    send_email 1000 (λ _. true) (single (some "c@d.de") ∷ page ("a@b.de" ∷ []) ∷ []) mail
    ≡ ok ("a@b.de" ∷ "c@d.de" ∷ [])
unfolding send_email validated_attachments validated_from uniq uniq_from
mails = refl

send_email-receivers_run :
    Distinct ("a@b.de" ∷ "c@d.de" ∷ [])
    × ((s : String)
        → Has ("a@b.de" ∷ "c@d.de" ∷ []) s
          ↔ Has
              (filter (λ _. true) ("a@b.de" ∷ [])
                ++ emails_of (single (some "c@d.de") ∷ page ("a@b.de" ∷ []) ∷ []))
              s)
send_email-receivers_run =
    send_email-receivers 1000 (λ _. true) (single (some "c@d.de") ∷ page ("a@b.de" ∷ []) ∷ []) mail
      refl mails

abbrev call : Call ℕ
call = record {
  provider = some "rest";
  method = "get";
  id = some "x";
  query_id = none;
  query_limit = none;
  paginated = true;
  account_user_id = none;
  payload_user_id = none;
  data_user_id = none;
  result = [];
  only_status = false;
}

enable_query_roundtrip_run :
    enable_query_after (record (enable_query call) { result = 7 ∷ [] })
    ≡ ok (record call { query_id = some "x"; result = 7 ∷ [] })
enable_query_roundtrip_run = enable_query_roundtrip call (7 ∷ []) refl
