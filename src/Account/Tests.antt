-- ===== src/Account/Tests.antt =====
-- The theorems about accounts at two accounts.
use schulcloud.Base.{
  String, ◌≡◌, ◌↔◌, ◌⊎◌, refl, inr, Option, none, some, [], ◌∷◌, any, Bool, true, false, ◌==◌,
  truthy, ok, err, bad_request,
}
use schulcloud.ObjectId.{is_valid, equal}
use schulcloud.Account.{
  Field, Account, check_unique, text, Query, restrict_access, PasswordChange, validate_password,
}
use schulcloud.Account.Unique.{Unique, check_unique-Unique, check_unique-with_system}
use schulcloud.Account.Laws.{Named, restrict_access-Named, MaySet, validate_password_iff}

abbrev same_text : Option String → Option String → Bool
same_text none none = true
same_text (some a) (some b) = a == b
same_text _ _ = false

abbrev ann : Account
ann = record { id = "1"; username = "ann"; user_id = none; system_id = none }

abbrev bob : Account
bob = record { id = "2"; username = "bob"; user_id = none; system_id = none }

free : check_unique same_text (ann ∷ []) none (some "bob") none ≡ ok tt
unfolding check_unique
free = refl

taken : check_unique same_text (ann ∷ []) none (some "ann") none ≡ err bad_request
unfolding check_unique equal is_valid
taken = refl

check_unique-Unique_example : Unique (bob ∷ ann ∷ [])
check_unique-Unique_example =
    check_unique-Unique same_text (ann ∷ []) bob refl refl refl (inr (λ h. h), tt) free

check_unique-with_system_run :
    check_unique same_text (ann ∷ []) none (some "ann") (some "s") ≡ ok tt
check_unique-with_system_run = check_unique-with_system same_text (ann ∷ []) none (some "ann") "s"

abbrev query : Query
query = record { id = none; user_id = text "twelve_chars"; username = text "ann" }

abbrev restricted : Query
restricted = record { id = some "1"; user_id = text "twelve_chars"; username = text "ann" }

-- A part of what mongoose takes for an id: a text of twelve characters.
abbrev of_twelve : Field → Bool
of_twelve (text s) = s == "twelve_chars"
of_twelve _ = false

restricts : restrict_access of_twelve ("student" ∷ []) "1" query ≡ ok restricted
unfolding restrict_access
restricts = refl

restrict_access-Named_example :
    Named of_twelve restricted
    × ((any (λ r. r == "student") ("student" ∷ []) ≡ false) ⊎ (restricted.id ≡ some "1"))
restrict_access-Named_example =
    restrict_access-Named of_twelve ("student" ∷ []) "1" query restricted refl restricts

abbrev change : PasswordChange
change = record {
  password = some "Schulcloud1!";
  verification = some "Schulcloud0!";
  strong = true;
  user_id = some "u";
  edits_own_account = true;
  did_first_login = true;
  forced = false;
  has_student_edit = false;
  has_admin_view = false;
  is_student = true;
  is_teacher = false;
  is_superhero = false;
  matches = true;
}

validate_password_iff_example :
    (validate_password change ≡ ok tt)
    ↔ (((change.strong ≡ true) ⊎ (truthy change.password ≡ false)) × MaySet change)
validate_password_iff_example = validate_password_iff change
