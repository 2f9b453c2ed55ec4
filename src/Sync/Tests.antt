-- ===== src/Sync/Tests.antt =====
-- A file with two records, one of them of a user of the school.
use schulcloud.Base.{
  ◌+◌, ◌≡◌, refl, String, Option, none, some, List, [], ◌∷◌, find, length, map, true, false, ◌==◌,
  if◌then◌else◌, truthy, to_string, ok, err, plain_error, conflict, arith,
}
use schulcloud.Sync.Stats
use schulcloud.Sync.Stats.{
  run, runs, cons, nil, missing, aggregate_stats, count_runs, count_successes,
  aggregate_stats_totals,
}
use schulcloud.Sync.Records.{
  Record, attributes, mapping_of, map_record, required_names, check_required, sanitize_records,
  cluster_by_email, invalid_birthday,
}
use schulcloud.Sync.Records.Laws.{Distinct, cluster_by_email_first}
use schulcloud.Sync.Classes.{
  class_object_from_name, grade_format, two_digits, drop_zeros, one_digit, is_class_part,
}
use schulcloud.Sync.Classes.Laws.{zeros, concat, tens, class_object_from_name-print}
use schulcloud.Sync.Importer.{
  MemberId, text, object, unique_after, Options, Class, ClassService, not_updated, is_same,
  create_or_update_class, build_class_mapping, build_mapping_of,
}
use schulcloud.Sync.Importer
use schulcloud.Sync.Importer.Laws.{IsConsistent, processed, build_class_mapping-IsConsistent}
use schulcloud.Sync.Users.{
  Import, User, Settings, Services, other, not_invited, not_imported, import_records, import_record,
  create_or_update_user, find_user_for_record, create_classes,
}
use schulcloud.ObjectId.{equal, is_valid}
use schulcloud.Sync.Users
use schulcloud.Sync.Users.Laws.{Run, import_records-Run}

abbrev record_of : String → String → Record String
record_of email name = record {
  fields = ("firstName", some name) ∷ [];
  email = email;
  birthday = none;
}

abbrev records : List (Record String)
records = record_of "a@b.de" "Ann" ∷ record_of "c@d.de" "Cid" ∷ record_of "a@b.de" "Abe" ∷ []

cluster_by_email_first_run :
    (find (λ r. r.email == "a@b.de") (cluster_by_email records).0
      ≡ find (λ r. r.email == "a@b.de") records)
    × Distinct ((cluster_by_email records).0)
    × (length ((cluster_by_email records).0) + (cluster_by_email records).1 ≡ 3)
cluster_by_email_first_run = cluster_by_email_first records "a@b.de"

abbrev columns : List String
columns = "fn" ∷ "last" ∷ "mail" ∷ "birth" ∷ []

abbrev no_date : String → Option String
no_date s = none

-- The columns are found by their aliases; the second line has no address, and the birthday of the
-- first is no date.
sanitize_run :
    sanitize_records
      (λ s. s)
      no_date
      (required_names attributes)
      (mapping_of (λ s. s) columns attributes)
      ((("fn", some "Ann")
          ∷ ("last", some "Lee")
          ∷ ("mail", some "a@b.de")
          ∷ ("birth", some "x")
          ∷ [])
        ∷ (("fn", some "Cid") ∷ ("last", some "Lee") ∷ ("mail", some "") ∷ [])
        ∷ [])
    ≡ (
      record {
        fields =
            ("firstName", some "Ann")
            ∷ ("lastName", some "Lee")
            ∷ ("email", some "a@b.de")
            ∷ ("birthday", some "x")
            ∷ [];
        email = "a@b.de";
        birthday = none;
      }
          ∷ [],
      invalid_birthday ∷ [],
    )
unfolding sanitize_records mapping_of map_record
sanitize_run = refl

missing_column : check_required (λ s. s) attributes ("fn" ∷ "mail" ∷ []) ≡ err plain_error
unfolding check_required
missing_column = refl

abbrev nested : Stats.Stats
nested = runs (cons (run (some true)) (cons (runs (cons (run none) nil)) (cons missing nil)))

aggregate_stats_run :
    ((aggregate_stats nested).successful ≡ count_successes nested)
    × ((aggregate_stats nested).successful + (aggregate_stats nested).failed ≡ count_runs nested)
aggregate_stats_run = aggregate_stats_totals nested

class_object_from_name-print_example :
    class_object_from_name (zeros 1 (concat "12" "b"))
    ≡ record { name = "b"; grade_level = some "12" }
unfolding is_class_part
class_object_from_name-print_example =
    class_object_from_name-print 1 "12" "b" (tens "1" "2" refl (omega arith) (omega arith)) refl

no_grade : class_object_from_name "14b" ≡ record { name = "14b"; grade_level = none }
unfolding class_object_from_name grade_format two_digits drop_zeros one_digit is_class_part
no_grade = refl

abbrev class_10a : Class
class_10a = record { id = "10a"; teacher_ids = some []; user_ids = some [] }

-- The class 10a is there and cannot be patched.
abbrev classes : ClassService (Option String)
classes = record {
  find = λ query.
      if truthy query
      then ok (if to_string query == "a" then class_10a ∷ [] else [])
      else err conflict;
  by_options = λ options. options.name;
  patch = λ id options. err conflict;
  create = λ options. ok (record { id = "new"; teacher_ids = some []; user_ids = some [] });
}

abbrev no_options : Options
no_options = record { name = none; grade_level = none; teacher_ids = none; user_ids = none }

abbrev no_classes : Importer.Stats
no_classes = record { successful = 0; failed = 0; created = 0; updated = 0; errors = [] }

build_class_mapping-IsConsistent_example :
    let (mapping, st) =
      build_class_mapping classes ("10a" ∷ "b" ∷ "10a" ∷ []) no_options no_classes in
    IsConsistent st × (processed st ≡ 2) × (map (λ p. p.0) mapping ≡ "10a" ∷ "b" ∷ [])
build_class_mapping-IsConsistent_example =
    build_class_mapping-IsConsistent classes ("10a" ∷ "b" ∷ "10a" ∷ []) no_options no_classes
      (record { reported = refl; written = omega arith; bounded = omega arith })

-- A class that cannot be updated is counted as failed and as successful.
counted_twice : create_or_update_class classes no_options (some (some "a")) false no_classes ≡ (
  none,
  record { successful = 1; failed = 1; created = 0; updated = 0; errors = not_updated ∷ [] },
)
unfolding create_or_update_class
counted_twice = refl

-- Two objects with the same id are not the same in a set.
members_twice :
    unique_after [] (object 0 "a" ∷ object 1 "a" ∷ []) ≡ object 0 "a" ∷ object 1 "a" ∷ []
unfolding unique_after is_same
members_twice = refl

abbrev ann : User
ann = record { id = "u1"; school_id = "5f2987e020834114b8efd6f8"; role_names = "student" ∷ [] }

abbrev app : Services (Option String)
app = record {
  registration_link = λ email. ok (some "link");
  find_users = λ email. ok (if email == "a@b.de" then ann ∷ [] else []);
  get_user = λ id. ok ann;
  create_user = λ r.
      ok
        (record { id = "u2"; school_id = "5f2987e020834114b8efd6f8"; role_names = "student" ∷ [] });
  send_mail = λ r. err conflict;
  classes = classes;
  add_member = λ list class user. ok tt;
  members = λ list c. [];
  split = λ s. s ∷ [];
}

abbrev settings : Settings
settings = record {
  school_id = "5f2987e020834114b8efd6f8";
  role = "student";
  send_emails = true;
  school_year = some "2020";
}

abbrev lines : List Import
lines =
    record { email = "a@b.de"; class = some "b"; short_link = none }
    ∷ record { email = "c@d.de"; class = none; short_link = none }
    ∷ []

abbrev no_users : Users.Stats
no_users = record {
  successful = 0;
  created = 0;
  updated = 0;
  failed = 0;
  invited = 0;
  not_invited = 0;
  reports = [];
  classes = no_classes;
}

import_records-Run_example :
    Run app settings
      (λ e. other)
      2
      no_users
      (import_records app settings (λ e. other) true lines no_users)
import_records-Run_example =
    import_records-Run app settings (λ e. other) true lines no_users (omega arith)

-- The first is updated; the second is created, and has failed too, since it names no class.
import_run :
    let (done, st) = import_records app settings (λ e. other) true lines no_users in
    (done ≡ ok tt)
    × (st.successful ≡ 2)
    × (st.created ≡ 1)
    × (st.updated ≡ 1)
    × (st.failed ≡ 1)
    × (st.reports ≡ not_invited ∷ not_imported ∷ [])
unfolding import_records import_record create_or_update_user find_user_for_record equal is_valid
    create_classes build_class_mapping build_mapping_of create_or_update_class
    class_object_from_name grade_format two_digits drop_zeros one_digit
import_run = (refl, refl, refl, refl, refl, refl)
