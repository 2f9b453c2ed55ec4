-- ===== src/Sync/Users.antt =====
-- src/services/sync/strategies/CSVSyncer.js: the users and their classes that are imported from the
-- records. What runs side by side is taken one after the other; the texts that are reported and the
-- date of a birthday are left out.
pub mod Laws
use schulcloud.Base.{
  ℕ, suc, String, Option, none, some, List, [], ◌∷◌, ◌++◌, any, filter, Bool, true, false, not,
  ◌&&◌, ◌||◌, ◌==◌, if◌then◌else◌, includes, truthy_text, truthy, Error, Result, ok, err, forbidden,
  plain_error, type_error, ◌>>=◌,
}
use schulcloud.ObjectId.{equal}
use schulcloud.Sync.Importer.{Class, ClassService, MemberId, Options, build_class_mapping}
use schulcloud.Sync.Importer

-- A record with the link of its registration.
pub record Import : Type 0 where
  pub email : String
  pub class : Option String
  pub short_link : Option String

pub record User : Type 0 where
  pub id : String
  pub school_id : String
  pub role_names : List String

-- What is reported besides the problems of the classes.
pub data Report : Type 0 where
  not_imported not_invited : Report

pub record Stats : Type 0 where
  pub successful : ℕ
  pub created : ℕ
  pub updated : ℕ
  pub failed : ℕ
  pub invited : ℕ
  pub not_invited : ℕ
  pub reports : List Report
  pub classes : Importer.Stats

pub record Settings : Type 0 where
  pub school_id : String
  pub role : String
  pub send_emails : Bool
  -- The year, which is missing where it could not be determined.
  pub school_year : Option String

-- The services of the application.
pub record Services {ℓ} (Query : Type ℓ) : Type ℓ where
  pub registration_link : String → Result (Option String)
  pub find_users : String → Result (List User)
  pub get_user : String → Result User
  pub create_user : Import → Result User
  pub send_mail : Import → Result (Unit {0})
  pub classes : ClassService Query
  pub add_member : String → String → String → Result (Unit {0})
  -- The ids of a class as texts, in one of its two lists.
  pub members : String → Class → List String
  pub split : String → List String

-- What is thrown, as the handler of errors tells it apart: a validation with the path that is
-- required, if the message has one.
pub data Message : Type 0 where
  validation : Option String → Message
  other : Message

module _ {ℓ} {Query : Type ℓ} (app : Services Query) (options : Settings) where
  abbrev pub enrich_user_data : Import → Result Import
  enrich_user_data r = app.registration_link r.email >>= λ link. ok (record r { short_link = link })

  -- The first user with the address, who must have the role already.
  abbrev pub check_first : List User → Result (Option User)
  check_first [] = ok none
  check_first (user ∷ rest) =
      if not (any (λ name. name == options.role) user.role_names)
      then err plain_error
      else ok (some user)

  unfoldable pub find_user_for_record : Import → Result (Option User)
  find_user_for_record r = app.find_users r.email >>= check_first

  abbrev pub invitation : Result (Unit {0}) → Stats → Stats
  invitation (ok done) st = record st { invited = suc st.invited }
  invitation (err e) st = record st {
    not_invited = suc st.not_invited;
    reports = st.reports ++ not_invited ∷ [];
  }

  -- `emailUser`, which throws an error of its own and catches every error.
  abbrev pub email_user : Import → Stats → Stats
  email_user r st =
      invitation
        (if truthy_text r.email && truthy_text options.school_id && truthy r.short_link
          then app.send_mail r
          else err plain_error)
        st

  abbrev pub created_user : Result User → Import → Stats → Result (User × Bool) × Stats
  created_user (err e) r st = (err e, st)
  created_user (ok user) r st =
      let st' = if options.send_emails then email_user r st else st in
      (ok (user, true), record st' { created = suc st'.created; successful = suc st'.successful })

  -- A user that exists already: of the school, or of another one.
  abbrev pub existing_user : Bool → User → Stats → Result (User × Bool) × Stats
  existing_user false user st = (err forbidden, st)
  existing_user true user st = (
    app.get_user user.id >>= λ again. ok (again, false),
    record st { successful = suc st.successful },
  )

  -- The result says whether the user was created.
  abbrev pub for_found_user : Result (Option User) → Import → Stats → Result (User × Bool) × Stats
  for_found_user (err e) r st = (err e, st)
  for_found_user (ok none) r st = created_user (app.create_user r) r st
  for_found_user (ok (some user)) r st =
      existing_user (equal user.school_id options.school_id) user st

  unfoldable pub create_or_update_user : Import → Stats → Result (User × Bool) × Stats
  create_or_update_user r st = for_found_user (find_user_for_record r) r st

  abbrev pub collection : String
  collection = if options.role == "teacher" then "teacherIds" else "userIds"

  -- Whether a user is added to the class of a name, whose entry of the mapping may be null.
  abbrev pub assign_class : User → Option Class → Result Bool
  assign_class user none = err type_error
  assign_class user (some c) =
      if includes (app.members collection c) user.id
      then ok false
      else app.add_member collection c.id user.id >>= λ done. ok true

  abbrev pub class_named : String → List (String × Option Class) → Option Class
  class_named name [] = none
  class_named name ((key, c) ∷ rest) = if key == name then c else class_named name rest

  abbrev pub assign_classes : User → List (String × Option Class) → List String → Result Bool
  assign_classes user mapping [] = ok false
  assign_classes user mapping (name ∷ names) =
      assign_class user (class_named name mapping) >>= λ first.
      assign_classes user mapping names >>= λ later. ok (first || later)

  abbrev pub split_classes : String → List String
  split_classes given = filter (λ name. truthy_text name) (app.split given)

  abbrev pub class_options : Options
  class_options = record { name = none; grade_level = none; teacher_ids = none; user_ids = none }

  -- Neither the classes of a record nor the year are checked for being there.
  abbrev pub classes_of : Option String → Option String → User → Stats → Result Bool × Stats
  classes_of (some given) (some year) user st =
      let (mapping, st') =
        build_class_mapping app.classes (split_classes given) class_options st.classes in
      (assign_classes user mapping (split_classes given), record st { classes = st' })
  classes_of _ _ user st = (err type_error, st)

  unfoldable pub create_classes : Import → User → Stats → Result Bool × Stats
  create_classes r user st = classes_of r.class options.school_year user st

  abbrev pub count_update : Bool → Result Bool × Stats → Result (Unit {0}) × Stats
  count_update is_created (err e, st) = (err e, st)
  count_update is_created (ok assigned, st) =
      (ok tt, if not is_created && assigned then record st { updated = suc st.updated } else st)

  abbrev pub after_user : Bool → Import → Result (User × Bool) × Stats → Result (Unit {0}) × Stats
  after_user import_classes r (err e, st) = (err e, st)
  after_user import_classes r (ok (user, is_created), st) =
      if import_classes then count_update is_created (create_classes r user st) else (ok tt, st)

  abbrev pub import_enriched : Bool → Result Import → Stats → Result (Unit {0}) × Stats
  import_enriched import_classes (err e) st = (err e, st)
  import_enriched import_classes (ok r) st =
      after_user import_classes r (create_or_update_user r st)

  module _ (message : Error → Message) where
    -- The report of a validation takes the path from its message, where it must be.
    abbrev pub report : Message → Stats → Result (Unit {0}) × Stats
    report (validation none) st = (err type_error, st)
    report _ st = (ok tt, record st { reports = st.reports ++ not_imported ∷ [] })

    abbrev pub handle_user_error : Error → Stats → Result (Unit {0}) × Stats
    handle_user_error e st = report (message e) (record st { failed = suc st.failed })

    abbrev pub caught : Result (Unit {0}) × Stats → Result (Unit {0}) × Stats
    caught (ok done, st) = (ok tt, st)
    caught (err e, st) = handle_user_error e st

    unfoldable pub import_record : Bool → Import → Stats → Result (Unit {0}) × Stats
    import_record import_classes r st =
        caught (import_enriched import_classes (enrich_user_data r) st)

    abbrev pub next_record :
        (Stats → Result (Unit {0}) × Stats) → Result (Unit {0}) × Stats → Result (Unit {0}) × Stats
    next_record next (err e, st) = (err e, st)
    next_record next (ok done, st) = next st

    -- The actions of `steps`, one after the other until one rejects.
    unfoldable pub import_records : Bool → List Import → Stats → Result (Unit {0}) × Stats
    import_records import_classes [] st = (ok tt, st)
    import_records import_classes (r ∷ rest) st =
        next_record (import_records import_classes rest) (import_record import_classes r st)
