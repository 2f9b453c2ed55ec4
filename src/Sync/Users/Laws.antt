-- ===== src/Sync/Users/Laws.antt =====
-- What the statistics of the users count.
use schulcloud.Base.{
  ℕ, suc, ◌+◌, ◌≤◌, ◌≡◌, refl, ap, Option, none, some, String, List, [], ◌∷◌, length, Bool, true,
  false, ◌&&◌, if◌then◌else◌, truthy_text, truthy, Error, Result, ok, err, arith, ◌>>=◌,
  plain_error, type_error,
}
use schulcloud.ObjectId.{equal}
use schulcloud.Sync.Importer.{build_class_mapping}
use schulcloud.Sync.Users.{
  Import, User, Stats, Settings, Services, Message, validation, other, enrich_user_data,
  find_user_for_record, email_user, invitation, split_classes, class_options, assign_classes,
  created_user, existing_user, for_found_user, create_or_update_user, classes_of, create_classes,
  count_update, after_user, import_enriched, report, caught, import_record, next_record,
  import_records,
}

-- Users that are created or updated are successful.
abbrev pub IsConsistent : Stats → Type 0
IsConsistent st = st.created + st.updated ≤ st.successful

-- What of the statistics the invitations leave alone.
abbrev Unchanged : Stats → Stats → Type 0
Unchanged st st' =
    (st'.successful ≡ st.successful)
    × (st'.failed ≡ st.failed)
    × (st'.created ≡ st.created)
    × (st'.updated ≡ st.updated)

-- A user that was found or created is counted as successful; where something is thrown, it may have
-- been.
abbrev Served : Stats → Result (User × Bool) × Stats → Type 0
Served st (ok (user, is_created), st') =
    (st'.successful ≡ suc st.successful)
    × (st'.failed ≡ st.failed)
    × (st'.created + st'.updated + (if is_created then 0 else 1) ≤ st'.successful)
Served st (err e, st') =
    (st.successful ≤ st'.successful)
    × (st'.successful ≤ suc st.successful)
    × (st'.failed ≡ st.failed)
    × IsConsistent st'

abbrev Handled : Stats → Result (Unit {0}) × Stats → Type 0
Handled st (ok done, st') =
    (st'.successful ≡ suc st.successful) × (st'.failed ≡ st.failed) × IsConsistent st'
Handled st (err e, st') =
    (st.successful ≤ st'.successful)
    × (st'.successful ≤ suc st.successful)
    × (st'.failed ≡ st.failed)
    × IsConsistent st'

-- A record that is counted: as successful, as failed or as both.
abbrev Counted : Stats → Stats → Type 0
Counted st st' =
    (suc (st.successful + st.failed) ≤ st'.successful + st'.failed)
    × (st'.successful ≤ suc st.successful)
    × (st'.failed ≤ suc st.failed)
    × IsConsistent st'

module _ {ℓ} {Query : Type ℓ} (app : Services Query) (options : Settings) where
  invitation-Unchanged :
      (r : Result (Unit {0})) (st : Stats) → Unchanged st (invitation app options r st)
  invitation-Unchanged (ok done) st = (refl, refl, refl, refl)
  invitation-Unchanged (err e) st = (refl, refl, refl, refl)

  mailed-Unchanged :
      (is_mailed : Bool) (r : Import) (st : Stats)
      → Unchanged st (if is_mailed then email_user app options r st else st)
  mailed-Unchanged true r st =
      invitation-Unchanged
        (if truthy_text r.email && truthy_text options.school_id && truthy r.short_link
          then app.send_mail r
          else err plain_error)
        st
  mailed-Unchanged false r st = (refl, refl, refl, refl)

  created-Served :
      (made : Result User) (r : Import) (st : Stats)
      → IsConsistent st
      → Served st (created_user app options made r st)
  created-Served (err e) r st w = (omega arith, omega arith, refl, w)
  created-Served (ok user) r st w =
      let (a, b, c, d) = mailed-Unchanged options.send_emails r st in
      (ap suc a, b, omega (arith, a, c, d, w))

  refetched-Served :
      (again : Result User) (st : Stats)
      → IsConsistent st
      → Served st (again >>= λ user. ok (user, false), record st { successful = suc st.successful })
  refetched-Served (ok user) st w = (refl, refl, omega (arith, w))
  refetched-Served (err e) st w = (omega arith, omega arith, refl, omega (arith, w))

  existing-Served :
      (is_here : Bool) (user : User) (st : Stats)
      → IsConsistent st
      → Served st (existing_user app options is_here user st)
  existing-Served true user st w = refetched-Served (app.get_user user.id) st w
  existing-Served false user st w = (omega arith, omega arith, refl, w)

  found-Served :
      (found : Result (Option User)) (r : Import) (st : Stats)
      → IsConsistent st
      → Served st (for_found_user app options found r st)
  found-Served (err e) r st w = (omega arith, omega arith, refl, w)
  found-Served (ok none) r st w = created-Served (app.create_user r) r st w
  found-Served (ok (some user)) r st w =
      existing-Served (equal user.school_id options.school_id) user st w

  counted_update :
      (is_created : Bool) (r : Result Bool) (st st' : Stats)
      → st'.successful ≡ suc st.successful
      → st'.failed ≡ st.failed
      → st'.created + st'.updated + (if is_created then 0 else 1) ≤ st'.successful
      → Handled st (count_update app options is_created (r, st'))
  counted_update true (ok assigned) st st' s f w = (s, f, omega (arith, w))
  counted_update false (ok true) st st' s f w = (s, f, omega (arith, w))
  counted_update false (ok false) st st' s f w = (s, f, omega (arith, w))
  counted_update is_created (err e) st st' s f w =
      (omega (arith, s), omega (arith, s), f, omega (arith, w))

  classes-Handled :
      (given year : Option String) (is_created : Bool) (user : User) (st st' : Stats)
      → st'.successful ≡ suc st.successful
      → st'.failed ≡ st.failed
      → st'.created + st'.updated + (if is_created then 0 else 1) ≤ st'.successful
      → Handled st
          (count_update app options is_created (classes_of app options given year user st'))
  classes-Handled (some given) (some year) is_created user st st' s f w =
      let (mapping, c) =
        build_class_mapping app.classes (split_classes app options given)
          (class_options app options) st'.classes in
      counted_update is_created
        (assign_classes app options user mapping (split_classes app options given)) st
        (record st' { classes = c }) s f w
  classes-Handled none year is_created user st st' s f w =
      counted_update is_created (err type_error) st st' s f w
  classes-Handled (some given) none is_created user st st' s f w =
      counted_update is_created (err type_error) st st' s f w

  Served-Handled :
      (import_classes : Bool) (r : Import) (st : Stats) (served : Result (User × Bool) × Stats)
      → Served st served
      → Handled st (after_user app options import_classes r served)
  unfolding create_classes
  Served-Handled import_classes r st (err e, st') h = h
  Served-Handled true r st (ok (user, is_created), st') (s, f, w) =
      classes-Handled r.class options.school_year is_created user st st' s f w
  Served-Handled false r st (ok (user, is_created), st') (s, f, w) = (s, f, omega (arith, w))

  enriched-Handled :
      (import_classes : Bool) (enriched : Result Import) (st : Stats)
      → IsConsistent st
      → Handled st (import_enriched app options import_classes enriched st)
  unfolding create_or_update_user
  enriched-Handled import_classes (err e) st w = (omega arith, omega arith, refl, w)
  enriched-Handled import_classes (ok r) st w =
      Served-Handled import_classes r st (create_or_update_user app options r st)
        (found-Served (find_user_for_record app options r) r st w)

  module _ (message : Error → Message) where
    reported-Counted :
        (m : Message) (st st' : Stats)
        → Handled st (err plain_error, st')
        → Counted st (report app options message m (record st' { failed = suc st'.failed })).1
    reported-Counted (validation none) st st' (a, b, c, d) =
        (omega (arith, a, c), b, omega (arith, c), d)
    reported-Counted (validation (some path)) st st' (a, b, c, d) =
        (omega (arith, a, c), b, omega (arith, c), d)
    reported-Counted other st st' (a, b, c, d) = (omega (arith, a, c), b, omega (arith, c), d)

    caught-Counted :
        (st : Stats) (done : Result (Unit {0}) × Stats)
        → Handled st done
        → Counted st (caught app options message done).1
    caught-Counted st (ok done, st') (s, f, w) =
        (omega (arith, s, f), omega (arith, s), omega (arith, f), w)
    caught-Counted st (err e, st') h = reported-Counted (message e) st st' h

    import_record-Counted :
        (import_classes : Bool) (r : Import) (st : Stats)
        → IsConsistent st
        → Counted st (import_record app options message import_classes r st).1
    unfolding import_record
    import_record-Counted import_classes r st w =
        caught-Counted st
          (import_enriched app options import_classes (enrich_user_data app options r) st)
          (enriched-Handled import_classes (enrich_user_data app options r) st w)

    -- What a run over `n` records has counted: each of them if it came to its end.
    abbrev pub Run : ℕ → Stats → Result (Unit {0}) × Stats → Type 0
    Run n st (ok done, st') =
        (st.successful + st.failed + n ≤ st'.successful + st'.failed)
        × (st'.successful ≤ st.successful + n)
        × (st'.failed ≤ st.failed + n)
        × IsConsistent st'
    Run n st (err e, st') =
        (st'.successful ≤ st.successful + n) × (st'.failed ≤ st.failed + n) × IsConsistent st'

    run_again :
        (n : ℕ) (st st' : Stats) (last : Result (Unit {0}) × Stats)
        → Counted st st'
        → Run n st' last
        → Run (suc n) st last
    run_again n st st' (ok done, st'') (a, b, c, w) (x, y, z, v) =
        (omega (arith, a, x), omega (arith, b, y), omega (arith, c, z), v)
    run_again n st st' (err e, st'') (a, b, c, w) (y, z, v) =
        (omega (arith, b, y), omega (arith, c, z), v)

    continued :
        (n : ℕ) (next : Stats → Result (Unit {0}) × Stats) (st : Stats)
        (first : Result (Unit {0}) × Stats)
        → ((st' : Stats) → IsConsistent st' → Run n st' (next st'))
        → Counted st first.1
        → Run (suc n) st (next_record app options message next first)
    continued n next st (ok done, st') later h =
        let (a, b, c, w) = h in run_again n st st' (next st') h (later st' w)
    continued n next st (err e, st') later (a, b, c, w) = (omega (arith, b), omega (arith, c), w)

    -- From statistics where the created and the updated are successful, a run counts each record as
    -- successful, as failed or as both, at most once each, and keeps it so. Only a run that is
    -- rejected leaves records out.
    pub import_records-Run :
        (import_classes : Bool) (records : List Import) (st : Stats)
        → IsConsistent st
        → Run (length records) st (import_records app options message import_classes records st)
    unfolding import_records
    import_records-Run import_classes [] st w = (omega arith, omega arith, omega arith, w)
    import_records-Run import_classes (r ∷ rest) st w =
        continued (length rest) (import_records app options message import_classes rest) st
          (import_record app options message import_classes r st)
          (λ st' v. import_records-Run import_classes rest st' v)
          (import_record-Counted import_classes r st w)
