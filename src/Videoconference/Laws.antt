-- ===== src/Videoconference/Laws.antt =====
-- Who starts and joins the conferences of a course or an event.
use schulcloud.Base.{
  String, ◌≡◌, ◌↔◌, refl, ap, sym, ◌⊎◌, inl, inr, Option, none, some, List, [], ◌∷◌, includes, Bool,
  true, false, ◌&&◌, ◌==◌, eq_iff, eq_refl, Has, includes_iff, arith, Bool-cases, Option-cases,
  Result-cases, Result, ok, >>=-eq-ok, checked-eq-ok, paired-eq-ok,
}
use schulcloud.Videoconference.Meeting.{
  Response, is_valid_not_found_response, Role, moderator, Join, enter, enter_found, secret_of,
  first_of, sanitize, join_meeting,
}
use schulcloud.Videoconference.Service.{
  RawOptions, Options, throw_on_validation_errors, default_options, get_valid_options,
  assign_options, throw_on_features_disabled, is_school_feature_enabled, may_start,
  throw_on_not_any_permission_in_scope, get_user_role, get_settings, Settings, ScopeInfo,
  get_scope_info, Metadata, is_of, get_videoconference_metadata,
  update_and_get_videoconference_metadata,
}
use schulcloud.Videoconference.Conference.{
  Answer, Call, answered, joined, answer_with, start_or_join, check_info, check_scope, check_create,
  create_videoconference,
}

enter_found-is_new :
    (role : Role) (user : String) (b : Bool) (r : Response) {j : Join}
    → enter_found role user b r ≡ ok j
    → j.is_new ≡ b
unfolding enter_found
enter_found-is_new role user b r h =
    let (secret, s, h2) = >>=-eq-ok (secret_of role r) _ h in
    let (id, i, h3) = >>=-eq-ok (first_of r.meeting_id) _ h2 in
    let (name, n, h4) = >>=-eq-ok (sanitize user) _ h3 in ground arith

enter-is_new :
    (role : Role) (user : String) (b : Bool) (r : Option Response) {j : Join}
    → enter role user b r ≡ ok j
    → j.is_new ≡ b
enter-is_new role user b none h = absurd (ground arith)
enter-is_new role user b (some r) {j} h = enter_found-is_new role user b r {j = j} (ground arith)

join_meeting-is_new :
    (info : Result (Option Response)) (make : String → Result (Option Response))
    (meeting user : String) (role : Role) (create : Bool) {j : Join}
    → join_meeting info make meeting user role create ≡ ok j
    → j.is_new ≡ true
    → create ≡ true
unfolding join_meeting
join_meeting-is_new info make meeting user role create h new =
    let (response, r, h2) = >>=-eq-ok info _ h in
    elim (Bool-cases (is_valid_not_found_response response)) [
      | inr found ↦
          let old = enter-is_new role user false response (rw found at h2) in absurd (ground arith)
      | inl missing ↦ elim (Bool-cases create) [
        | inl c ↦ c
        | inr c ↦ absurd (let h3 = rw (missing, c) at h2 in ground arith)
      ]
    ]

any_permission :
    (permissions : List String)
    → throw_on_not_any_permission_in_scope ("START_MEETING" ∷ "JOIN_MEETING" ∷ []) permissions
      ≡ ok tt
    → Has permissions "START_MEETING" ⊎ Has permissions "JOIN_MEETING"
unfolding throw_on_not_any_permission_in_scope
any_permission [] h = absurd (ground arith)
any_permission (p ∷ rest) h =
    elim (Bool-cases (includes ("START_MEETING" ∷ "JOIN_MEETING" ∷ []) p)) [
      | inl e ↦ (elim ((includes_iff ("START_MEETING" ∷ "JOIN_MEETING" ∷ []) p).0 e) [
        | inl k ↦ inl (inl (sym k))
        | inr k ↦ elim k [ inl m ↦ inr (inl (sym m)) | inr m ↦ absurd m ]
      ])
      | inr e ↦ elim (any_permission rest (rw e at h)) [ inl k ↦ inl (inr k) | inr k ↦ inr (inr k) ]
    ]

features_enabled :
    (enabled : Bool) (features : Option (List String))
    → throw_on_features_disabled enabled features ≡ ok tt
    → (enabled ≡ true) × ((l : List String) × (features ≡ some l) × Has l "videoconference")
unfolding throw_on_features_disabled is_school_feature_enabled
features_enabled enabled none h = absurd (ground arith)
features_enabled enabled (some l) h =
    (ground arith, (l, refl, (includes_iff l "videoconference").0 (ground arith)))

-- What the checks of the creation have found out.
record Checked (call : Call) (scope_name scope_id : String) (user : String × String)
    (info : ScopeInfo) : Type 0 where
  known : call.user ≡ ok user
  looked_up : get_scope_info call.scopes user.0 scope_name scope_id ≡ ok info
  enabled : call.feature_enabled ≡ true
  at_school : (l : List String) × (call.school_features ≡ some l) × Has l "videoconference"
  permitted : Has info.user_permissions "START_MEETING" ⊎ Has info.user_permissions "JOIN_MEETING"

check_create-Checked :
    (call : Call) (scope_name scope_id : String) (options : RawOptions) (user : String × String)
    (info : ScopeInfo)
    → check_create call scope_name scope_id options ≡ ok (user, info)
    → Checked call scope_name scope_id user info
unfolding check_create
check_create-Checked call scope_name scope_id options user info h =
    let (valid, v, h1) =
      >>=-eq-ok (throw_on_validation_errors call.is_event_id scope_id scope_name (some options)) _
        h in
    let (known, h2) = paired-eq-ok call.user (check_scope call scope_name scope_id) h1 in
    let (looked_up, h3) =
      checked-eq-ok (get_scope_info call.scopes user.0 scope_name scope_id) (check_info call) h2 in
    let (e, f, p) =
      >>=-eq-ok (throw_on_features_disabled call.feature_enabled call.school_features) _ h3 in
    let (enabled, at_school) = features_enabled call.feature_enabled call.school_features f in
    record {
      known = known;
      looked_up = looked_up;
      enabled = enabled;
      at_school = at_school;
      permitted = any_permission info.user_permissions p;
    }

answer_with-join :
    (call : Call) (user : String × String) (info : ScopeInfo) (metadata : Metadata) (a : Answer)
    → answer_with call user info metadata ≡ ok (answered a)
    → (join : Join) × (a.join ≡ some join) × (joined call user info metadata ≡ ok join)
unfolding answer_with
answer_with-join call user info metadata a h =
    elim (Result-cases (joined call user info metadata)) [
      | inr (e, r) ↦ absurd (let refused = rw r at h in ground arith)
      | inl (join, r) ↦ let given = rw r at h in (join, ground arith, r)
    ]

joined-is_new :
    (call : Call) (user : String × String) (info : ScopeInfo) (metadata : Metadata) (join : Join)
    → joined call user info metadata ≡ ok join
    → join.is_new ≡ true
    → Has info.user_permissions "START_MEETING"
joined-is_new call user info metadata join h new =
    let ((role, settings), s, h2) =
      >>=-eq-ok (get_settings user.0 info.user_permissions metadata.options) _ h in
    (includes_iff info.user_permissions "START_MEETING").0 (
      join_meeting-is_new call.meeting_info call.create_meeting info.scope_title user.1 role
        (may_start info.user_permissions) h2 new)

-- The conference whose settings the answer was made with.
start_or_join-answered :
    (call : Call) (user : String × String) (info : ScopeInfo) (scope_name scope_id : String)
    (options : RawOptions) (stored after : List Metadata) (a : Answer)
    → start_or_join call user info scope_name scope_id options stored ≡ (ok (answered a), after)
    → (metadata : Metadata) × (answer_with call user info metadata ≡ ok (answered a))
unfolding start_or_join
start_or_join-answered call user info scope_name scope_id options stored after a h =
    elim (Bool-cases (may_start info.user_permissions)) [
      | inl s ↦
          let updated =
            update_and_get_videoconference_metadata scope_name scope_id options stored in
          (updated.0, ap (λ p. p.0) (rw s at h))
      | inr s ↦ elim (Option-cases (get_videoconference_metadata scope_name scope_id stored)) [
        | inl n ↦ absurd (ground arith)
        | inr (m, e) ↦ (m, ap (λ p. p.0) (rw (s, e) at h))
      ]
    ]

-- A link to a conference is only given to a user who may start or join it in its scope, where the
-- feature is turned on for the server and for the user's school; and the meeting is made for the
-- link only where the user may start it.
pub create_videoconference-Permitted :
    (call : Call) (scope_name scope_id : String) (options : RawOptions)
    (stored after : List Metadata) (a : Answer)
    → create_videoconference call scope_name scope_id options stored ≡ (ok (answered a), after)
    → (user : String × String) × (info : ScopeInfo) × (join : Join) × (call.user ≡ ok user)
      × (get_scope_info call.scopes user.0 scope_name scope_id ≡ ok info)
      × (a.join ≡ some join)
      × (call.feature_enabled ≡ true)
      × ((l : List String) × (call.school_features ≡ some l) × Has l "videoconference")
      × (Has info.user_permissions "START_MEETING" ⊎ Has info.user_permissions "JOIN_MEETING")
      × (join.is_new ≡ true → Has info.user_permissions "START_MEETING")
unfolding create_videoconference
create_videoconference-Permitted call scope_name scope_id options stored after a h =
    elim (Result-cases (check_create call scope_name scope_id options)) [
      | inr (e, r) ↦ absurd (let refused = rw (r, create_videoconference) at h in ground arith)
      | inl ((user, info), r) ↦
          let c = check_create-Checked call scope_name scope_id options user info r in
          let (metadata, answer) =
            start_or_join-answered call user info scope_name scope_id options stored after a
              (rw (r, create_videoconference) at h) in
          let (join, j, k) = answer_with-join call user info metadata a answer in
          (
            user,
            info,
            join,
            c.known,
            c.looked_up,
            j,
            c.enabled,
            c.at_school,
            c.permitted,
            joined-is_new call user info metadata join k,
          )
    ]

-- Who joins as a moderator: exactly the users who may start the conference, or everybody if it is
-- so set, and who may start or join it at all; and the moderators have to let in exactly the
-- others, if that is set.
pub get_settings_iff :
    (user_id : String) (permissions : List String) (options : Options) (role : Role)
    (settings : Settings)
    → get_settings user_id permissions options ≡ ok (role, settings)
    → ((role ≡ moderator)
        ↔ (Has permissions "START_MEETING" ⊎ (options.everybody_joins_as_moderator ≡ true)))
      × ((settings.guest ≡ true) ↔ (
          (options.moderator_must_approve_join_requests ≡ true)
          × (¬ Has permissions "START_MEETING")))
      × (Has permissions "START_MEETING" ⊎ Has permissions "JOIN_MEETING")
unfolding get_settings get_user_role
get_settings_iff user_id permissions options role settings h =
    ground
      (arith, includes_iff permissions "START_MEETING", includes_iff permissions "JOIN_MEETING")

-- The options of a stored conference, or the defaults.
abbrev pub earlier_options : Option Metadata → Options
earlier_options none = default_options
earlier_options (some m) = m.options

module _ (scope_name scope_id : String) (options : RawOptions) where
  update-get :
      (stored : List Metadata)
      → let updated = update_and_get_videoconference_metadata scope_name scope_id options stored in
        get_videoconference_metadata scope_name scope_id (updated.1) ≡ some (updated.0)
  unfolding update_and_get_videoconference_metadata get_videoconference_metadata
  update-get [] = rw (eq_refl scope_name, eq_refl scope_id) refl
  update-get (m ∷ rest) = elim (Bool-cases (is_of scope_name scope_id m)) [
    | inl e ↦ ground (arith)
    | inr e ↦ ground (arith, update-get rest)
  ]

  update_options :
      (stored : List Metadata)
      → (update_and_get_videoconference_metadata scope_name scope_id options stored).0.options
        ≡ assign_options
            (get_valid_options options)
            (earlier_options (get_videoconference_metadata scope_name scope_id stored))
  unfolding update_and_get_videoconference_metadata get_videoconference_metadata
  update_options [] = refl
  update_options (m ∷ rest) = elim (Bool-cases (is_of scope_name scope_id m)) [
    | inl e ↦ rw e refl
    | inr e ↦ rw e (update_options rest)
  ]

  update-get_other :
      (stored : List Metadata) (other_name other_id : String)
      → (other_name == scope_name && other_id == scope_id) ≡ false
      → get_videoconference_metadata other_name other_id
          ((update_and_get_videoconference_metadata scope_name scope_id options stored).1)
        ≡ get_videoconference_metadata other_name other_id stored
  unfolding update_and_get_videoconference_metadata get_videoconference_metadata
  update-get_other [] other_name other_id h = ground (
    arith,
    eq_iff scope_name other_name,
    eq_iff scope_id other_id,
    eq_iff other_name scope_name,
    eq_iff other_id scope_id,
  )
  update-get_other (m ∷ rest) other_name other_id h =
      elim (Bool-cases (is_of scope_name scope_id m)) [
        | inl e ↦ ground (
          arith,
          eq_iff m.scope_name scope_name,
          eq_iff m.scope_id scope_id,
          eq_iff m.scope_name other_name,
          eq_iff m.scope_id other_id,
          eq_iff other_name scope_name,
          eq_iff other_id scope_id,
        )
        | inr e ↦ ground (arith, update-get_other rest other_name other_id h)
      ]

  -- The stored conference is the one that is found afterwards, with the given options over the
  -- earlier ones or the defaults; and the conferences of other scopes are as they were.
  pub update_and_get_videoconference_metadata-get :
      (stored after : List Metadata) (made : Metadata) (other_name other_id : String)
      → update_and_get_videoconference_metadata scope_name scope_id options stored ≡ (made, after)
      → (get_videoconference_metadata scope_name scope_id after ≡ some made)
        × (made.options
            ≡ assign_options
                (get_valid_options options)
                (earlier_options (get_videoconference_metadata scope_name scope_id stored)))
        × ((other_name == scope_name && other_id == scope_id) ≡ false
            → get_videoconference_metadata other_name other_id after
              ≡ get_videoconference_metadata other_name other_id stored)
  update_and_get_videoconference_metadata-get stored after made other_name other_id h =
      let first = ap (λ p. p.0) h in
      let second = ap (λ p. p.1) h in
      rw (← first, ← second)
        (update-get stored, update_options stored, update-get_other stored other_name other_id)
