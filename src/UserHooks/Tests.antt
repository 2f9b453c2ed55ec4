-- ===== src/UserHooks/Tests.antt =====
-- The hooks of the users service for a teacher, an administrator and a student of a school.
use schulcloud.Base.{
  ℕ, String, ◌≡◌, ◌≢◌, ◌↔◌, ◌⊎◌, refl, Option, none, some, List, [], ◌∷◌, true, false, ◌&&◌, ◌||◌,
  ◌==◌, eq_iff, if◌then◌else◌, All, Has, includes, truthy, arith, Result, ok, err, bad_request,
  not_found, forbidden, filter,
}
use schulcloud.ObjectId.{equal, is_valid}
use schulcloud.Pin.{Pin, find_pins, validate_email_and_pin, check_and_verify_pin}
use schulcloud.Hook.{Role, User, Context, Method}
use schulcloud.Hook.Permission.{UserService}
use schulcloud.Hook.Roles.{Services}
use schulcloud.UserHooks.Hierarchy.{
  secure_patching, enforce_role_hierarchy_on_delete_single, enforce_role_hierarchy_on_delete_bulk,
  BulkQuery, bulk_matches, enforce_role_hierarchy_on_create,
}
use schulcloud.UserHooks.Hierarchy.Laws.{
  Plays, Allowed, secure_patching_iff, enforce_role_hierarchy_on_create_iff,
}
use schulcloud.UserHooks.Hierarchy.Deletion.{
  MayDelete, enforce_role_hierarchy_on_delete_single_iff,
  enforce_role_hierarchy_on_delete_bulk-MayDelete,
}
use schulcloud.UserHooks.Update.{
  Entry, attribute, operator, role_operators, protect_immutable_attributes,
}
use schulcloud.UserHooks.Update.Laws.{attribute_of, under, protect_immutable_attributes_lem}
use schulcloud.UserHooks.Unique.{Person, Login, check_unique_email, is_of, update_account_username}
use schulcloud.UserHooks.Unique.Laws.{
  Unique, set_email, check_unique_email-Unique, update_account_username-both,
}
use schulcloud.UserHooks.Registration.{Registration, pin_is_verified, address_of}
use schulcloud.UserHooks.Registration.Laws.{Confirms, pin_is_verified_iff}

abbrev school : String
school = "5f2987e020834114b8efd6f8"

abbrev role : String → Role
role name = record { name = some name; permissions = [] }

abbrev teacher : User
teacher = record {
  id = "0000d213816abba584714c0a";
  school_id = school;
  roles = role "teacher" ∷ [];
  permissions = "STUDENT_CREATE" ∷ "STUDENT_DELETE" ∷ [];
}

abbrev student : User
student = record {
  id = "0000d213816abba584714c0b";
  school_id = school;
  roles = role "student" ∷ [];
  permissions = [];
}

patches : secure_patching student teacher student.id teacher.id ≡ ok tt
unfolding secure_patching equal is_valid
patches = refl

secure_patching_iff_example : (secure_patching student teacher student.id teacher.id ≡ ok tt) ↔ (
    Plays teacher "superhero"
    ⊎ (¬ Plays teacher "demoStudent")
      × (¬ Plays teacher "demoTeacher")
      × (equal student.school_id teacher.school_id ≡ true)
      × ((equal student.id teacher.id ≡ true)
          ⊎ Plays teacher "administrator"
          ⊎ Plays teacher "teacher" × Plays student "student"))
secure_patching_iff_example = secure_patching_iff student teacher student.id teacher.id

abbrev role_of : String → Result String
role_of id = err not_found

creates : enforce_role_hierarchy_on_create role_of teacher (some ("student" ∷ [])) ≡ ok tt
unfolding enforce_role_hierarchy_on_create is_valid
creates = refl

refuses :
    enforce_role_hierarchy_on_create role_of teacher (some ("student" ∷ "teacher" ∷ []))
    ≡ err bad_request
unfolding enforce_role_hierarchy_on_create is_valid
refuses = refl

abbrev given : Option (List String)
given = some ("student" ∷ [])

enforce_role_hierarchy_on_create_iff_example :
    (enforce_role_hierarchy_on_create role_of teacher (some ("student" ∷ [])) ≡ ok tt) ↔ (
      Plays teacher "superhero"
      ⊎ (given ≡ none)
      ⊎ ((l : List String) × (given ≡ some l) × All (Allowed role_of teacher) l))
enforce_role_hierarchy_on_create_iff_example =
    enforce_role_hierarchy_on_create_iff role_of teacher (some ("student" ∷ []))

abbrev person : String → Result User
person id = if id == teacher.id then ok teacher else ok student

abbrev services : Services
services = record {
  get_user = person;
  find_users = λ id. elim (person id) [ ok u ↦ ok (u ∷ []) | err e ↦ ok [] ];
  get_account = λ id. err not_found;
}

enforce_role_hierarchy_on_delete_single_iff_example :
    (enforce_role_hierarchy_on_delete_single services (some teacher.id) (some student.id) ≡ ok tt)
    ↔ (Plays teacher "superhero"
        ⊎ (Plays student "student" → Has teacher.permissions "STUDENT_DELETE")
          × (Plays student "teacher" → Has teacher.permissions "TEACHER_DELETE")
          × (¬ Plays student "administrator"))
enforce_role_hierarchy_on_delete_single_iff_example =
    enforce_role_hierarchy_on_delete_single_iff services (some teacher.id) (some student.id) teacher
      student refl refl refl

abbrev ids_of : String → Result (List String)
ids_of name = ok (name ∷ [])

abbrev bulk : BulkQuery (Unit {0})
bulk = record { query = tt; allowed_roles = "student" ∷ [] }

bulk_runs : enforce_role_hierarchy_on_delete_bulk ids_of teacher tt ≡ ok bulk
unfolding enforce_role_hierarchy_on_delete_bulk
bulk_runs = refl

enforce_role_hierarchy_on_delete_bulk-MayDelete_example :
    (bulk_matches (λ q p. true) (λ (p : List String). p) bulk ("student" ∷ []) ≡ true)
    ↔ ((true ≡ true) × All (MayDelete ids_of teacher) ("student" ∷ []))
enforce_role_hierarchy_on_delete_bulk-MayDelete_example =
    enforce_role_hierarchy_on_delete_bulk-MayDelete (λ q p. true) (λ (p : List String). p) ids_of
      teacher tt ("student" ∷ []) bulk_runs

abbrev sent_change : List (Entry ℕ)
sent_change =
    attribute "firstName" 1
    ∷ attribute "roles" 2
    ∷ operator "$set" (("roles", 3) ∷ ("lastName", 4) ∷ [])
    ∷ operator "$unset" (("schoolId", 5) ∷ [])
    ∷ []

protects :
    protect_immutable_attributes false sent_change
    ≡ attribute "firstName" 1
      ∷ operator "$set" (("lastName", 4) ∷ [])
      ∷ operator "$unset" (("schoolId", 5) ∷ [])
      ∷ []
unfolding protect_immutable_attributes
protects = refl

protect_immutable_attributes_lem_run :
    (attribute_of "roles" (protect_immutable_attributes false sent_change) ≡ (
      if "roles" == "roles" || "roles" == "schoolId"
      then none
      else attribute_of "roles" sent_change))
    × (under "$set" "roles" (protect_immutable_attributes false sent_change) ≡ (
        if includes role_operators "$set" && "roles" == "roles"
          || "$set" == "$set" && "roles" == "schoolId"
        then none
        else under "$set" "roles" sent_change))
protect_immutable_attributes_lem_run = protect_immutable_attributes_lem sent_change "$set" "roles"

abbrev people : List Person
people = record { id = "1"; email = "ann@a.de" } ∷ record { id = "2"; email = "bob@b.de" } ∷ []

abbrev logins : List Login
logins = record { id = "a"; user_id = some "1"; username = "ann@a.de"; system_id = none } ∷ []

abbrev same : String → String
same s = s

renames : check_unique_email same people logins (some "1") (some "cat@c.de") ≡ ok tt
unfolding check_unique_email
renames = refl

ne : (s t : String) → (s == t) ≡ false → s ≢ t
ne s t different h = ground (arith, eq_iff s t)

check_unique_email-Unique_example : Unique (set_email "1" (same "cat@c.de") people)
check_unique_email-Unique_example =
    check_unique_email-Unique same people logins "1" "cat@c.de"
      (((ne "1" "2" refl, ne "ann@a.de" "bob@b.de" refl), tt), (tt, tt)) refl refl renames

abbrev renamed : List Login
renamed = record { id = "a"; user_id = some "1"; username = "cat@c.de"; system_id = none } ∷ []

abbrev store : String → Result String
store s = ok s

renames_account :
    update_account_username store none logins (some "1") (some "cat@c.de")
    ≡ ok (some "cat@c.de", renamed)
unfolding update_account_username
renames_account = refl

abbrev ann : Login
ann = record { id = "a"; user_id = some "1"; username = "ann@a.de"; system_id = none }

abbrev sent : Option String
sent = some "cat@c.de"

update_account_username-both_run :
    (truthy ann.system_id ≡ true) × (sent ≡ none) × (renamed ≡ logins)
    ⊎ ((name : String) × (store "cat@c.de" ≡ ok name)
        × (sent ≡ some "cat@c.de")
        × All (λ b. is_of (some "1") b ≡ true → b.username ≡ name) renamed)
update_account_username-both_run =
    update_account_username-both store none logins "1" "cat@c.de" ann (some "cat@c.de") renamed refl
      refl refl ((λ h. refl), tt) renames_account

abbrev pin : Pin
pin = record { id = "p"; email = "ann@a.de"; pin = some "1234"; verified = true; updated_at = 0 }

abbrev registration : Registration
registration = record {
  parent_email = none;
  email = some "ann@a.de";
  roles = "student" ∷ [];
  age = some 17;
}

abbrev request : Context
request = record {
  provider = some "rest";
  method = Method.create;
  id = none;
  account = none;
  route_school_id = none;
  query_school_id = none;
  data_school_id = none;
}

abbrev nobody : UserService
nobody id = err not_found

-- The pin was verified 100 seconds before, and the age that is allowed is 600 seconds.
registers :
    pin_is_verified 16 600 100000 100000 nobody (pin ∷ []) request registration ≡ ok (some "p")
unfolding pin_is_verified find_pins validate_email_and_pin check_and_verify_pin
registers = refl

-- A verified pin that is too old is refused by the hook of the pins.
registers_late :
    pin_is_verified 16 600 700000 700000 nobody (pin ∷ []) request registration ≡ err forbidden
unfolding pin_is_verified find_pins validate_email_and_pin check_and_verify_pin
registers_late = refl

pin_is_verified_iff_example :
    (pin_is_verified 16 600 100000 100000 nobody (pin ∷ []) request registration ≡ ok (some "p"))
    ↔ ((address : String) × (address_of registration ≡ some address)
        × (truthy (some address) ≡ true)
        × Confirms 16 600 100000 registration
            (some "p")
            (filter (λ p. p.email == address && p.verified) (pin ∷ [])))
pin_is_verified_iff_example =
    pin_is_verified_iff 16 600 100000 100000 registration (some "p") nobody (pin ∷ []) request refl
