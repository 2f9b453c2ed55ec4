-- ===== src/Videoconference/Service.antt =====
-- src/services/videoconference/index.js: who may start and join the conference of a course or an
-- event.
use schulcloud.Base.{
  ℕ, String, Option, none, some, List, [], ◌∷◌, ◌++◌, all, filter, includes, length, Bool, true,
  false, not, ◌&&◌, ◌||◌, ◌==◌, if◌then◌else◌, nat_eq, truthy, to_string, bad_request, forbidden,
  not_found, plain_error, type_error, Result, ok, err, ◌>>=◌, throw_if,
}
use schulcloud.ObjectId.{is_valid}
use schulcloud.Hook.Permission.{lookup}
use schulcloud.Videoconference.Meeting.{Role, moderator, attendee}

-- A value of an option in a request: only Booleans are valid.
pub data Value : Type 0 where
  flag : Bool → Value
  other : Value

-- The options in a request.
abbrev pub RawOptions : Type 0
RawOptions = List (String × Value)

-- The options that are stored with a conference.
pub record Options : Type 0 where
  pub moderator_must_approve_join_requests : Bool
  pub everybody_joins_as_moderator : Bool
  pub every_attende_joins_muted : Bool

abbrev pub default_options : Options
default_options = record {
  moderator_must_approve_join_requests = false;
  everybody_joins_as_moderator = false;
  every_attende_joins_muted = false;
}

abbrev pub copy_toggle : String → RawOptions → List (String × Bool)
copy_toggle name options = elim (lookup name options) [
  | some (flag b) ↦ (name, b) ∷ []
  | some other ↦ []
  | none ↦ []
]

unfoldable pub get_valid_options : RawOptions → List (String × Bool)
get_valid_options options =
    copy_toggle "moderatorMustApproveJoinRequests" options
    ++ (copy_toggle "everybodyJoinsAsModerator" options
        ++ copy_toggle "everyAttendeJoinsMuted" options)

abbrev pub entry_in : List (String × Bool) → String × Value → Bool
entry_in valid (name, other) = false
entry_in valid (name, flag b) = elim (lookup name valid) [
  | none ↦ false
  | some c ↦ if b then c else not c
]

abbrev pub size {ℓ} : {A : Type ℓ} → List A → ℕ
size xs = length xs

-- `lodash.isEqual(options, validOptions)`
abbrev pub is_equal : RawOptions → List (String × Bool) → Bool
is_equal options valid = nat_eq (size options) (size valid) && all (entry_in valid) options

-- `idAndScopeNameAreValid`; `is_event_id` is the pattern of the ids of events.
abbrev pub id_and_scope_name_are_valid : (String → Bool) → String → String → Bool
id_and_scope_name_are_valid is_event_id scope_id scope_name =
    (is_valid scope_id || is_event_id scope_id) && (scope_name == "course" || scope_name == "event")

unfoldable pub throw_on_validation_errors :
    (String → Bool) → String → String → Option RawOptions → Result (Unit {0})
throw_on_validation_errors is_event_id scope_id scope_name options =
    if not (id_and_scope_name_are_valid is_event_id scope_id scope_name)
    then err bad_request
    else elim options [
      | none ↦ ok tt
      | some given ↦ throw_if (not (is_equal given (get_valid_options given))) bad_request
    ]

-- A school's list of features, where the school was found and has one.
unfoldable pub is_school_feature_enabled : Option (List String) → Bool
is_school_feature_enabled none = false
is_school_feature_enabled (some features) = includes features "videoconference"

unfoldable pub throw_on_features_disabled : Bool → Option (List String) → Result (Unit {0})
throw_on_features_disabled enabled features =
    if not enabled
    then err forbidden
    else if not (is_school_feature_enabled features)
    then err forbidden
    else ok tt

abbrev pub may_start : List String → Bool
may_start permissions = includes permissions "START_MEETING"

abbrev pub may_join : List String → Bool
may_join permissions = includes permissions "JOIN_MEETING"

unfoldable pub throw_on_permission_missing_in_scope : String → List String → Result (Unit {0})
throw_on_permission_missing_in_scope permission permissions =
    throw_if (not (includes permissions permission)) forbidden

unfoldable pub throw_on_not_any_permission_in_scope : List String → List String → Result (Unit {0})
throw_on_not_any_permission_in_scope required permissions =
    throw_if (nat_eq (length (filter (includes required) permissions)) 0) forbidden

unfoldable pub get_user_role : List String → Result Role
get_user_role permissions =
    if may_start permissions
    then ok moderator
    else if may_join permissions
    then ok attendee
    else err plain_error

abbrev pub get_highest_videoconference_permission : List String → Option String
get_highest_videoconference_permission permissions =
    if may_start permissions
    then some "START_MEETING"
    else if may_join permissions
    then some "JOIN_MEETING"
    else none

-- An event of the calendar.
pub record Event : Type 0 where
  pub title : String
  pub team_id : Option String

-- What the services answer about the scope: the name of a course, the events with an id, and the
-- permissions that the permission service of a scope finds for the user.
pub record Scopes : Type 0 where
  pub course_name : String → Result String
  pub events : String → Result (List Event)
  pub permissions : String → String → String → Result (List (String × List String))

pub record ScopeInfo : Type 0 where
  pub scope_title : String
  pub permission_scope : String
  pub permission_scope_id : String
  pub user_permissions : List String

-- `{ [user.id]: userPermissionsInScope }`; what is undefined there throws where it is read.
abbrev pub info_of : Scopes → String → String → String → String → Result ScopeInfo
info_of scopes user_id title name id = scopes.permissions name id user_id >>= λ found.
    elim (lookup user_id found) [
      | none ↦ err type_error
      | some permissions ↦ ok (record {
        scope_title = title;
        permission_scope = name;
        permission_scope_id = id;
        user_permissions = permissions;
      })
    ]

abbrev pub event_info : Scopes → String → List Event → Result ScopeInfo
event_info scopes user_id [] = err not_found
event_info scopes user_id (event ∷ rest) =
    if not (truthy event.team_id)
    then err not_found
    else info_of scopes user_id event.title "teams" (to_string event.team_id)

unfoldable pub get_scope_info : Scopes → String → String → String → Result ScopeInfo
get_scope_info scopes user_id scope_name scope_id =
    if scope_name == "course"
    then (scopes.course_name scope_id >>= λ title. info_of scopes user_id title "courses" scope_id)
    else if scope_name == "event"
    then (scopes.events scope_id >>= event_info scopes user_id)
    else err bad_request

-- The stored conferences.
pub record Metadata : Type 0 where
  pub scope_name : String
  pub scope_id : String
  pub options : Options

abbrev pub is_of : String → String → Metadata → Bool
is_of scope_name scope_id m = m.scope_name == scope_name && m.scope_id == scope_id

unfoldable pub get_videoconference_metadata : String → String → List Metadata → Option Metadata
get_videoconference_metadata scope_name scope_id [] = none
get_videoconference_metadata scope_name scope_id (m ∷ rest) =
    if is_of scope_name scope_id m
    then some m
    else get_videoconference_metadata scope_name scope_id rest

abbrev pub toggle : String → List (String × Bool) → Bool → Bool
toggle name valid old = elim (lookup name valid) [ none ↦ old | some b ↦ b ]

-- `Object.assign(options, validOptions)`
unfoldable pub assign_options : List (String × Bool) → Options → Options
assign_options valid old = record {
  moderator_must_approve_join_requests =
      toggle "moderatorMustApproveJoinRequests" valid old.moderator_must_approve_join_requests;
  everybody_joins_as_moderator =
      toggle "everybodyJoinsAsModerator" valid old.everybody_joins_as_moderator;
  every_attende_joins_muted = toggle "everyAttendeJoinsMuted" valid old.every_attende_joins_muted;
}

-- `updateAndGetVideoconferenceMetadata`: the stored conference, and all of them.
unfoldable pub update_and_get_videoconference_metadata :
    String → String → RawOptions → List Metadata → Metadata × List Metadata
update_and_get_videoconference_metadata scope_name scope_id options [] =
    let made : Metadata = record {
      scope_name = scope_name;
      scope_id = scope_id;
      options = assign_options (get_valid_options options) default_options;
    } in
    (made, made ∷ [])
update_and_get_videoconference_metadata scope_name scope_id options (m ∷ rest) =
    let later = update_and_get_videoconference_metadata scope_name scope_id options rest in
    let changed : Metadata = record m {
      options = assign_options (get_valid_options options) m.options;
    } in
    if is_of scope_name scope_id m then (changed, changed ∷ rest) else (later.0, m ∷ later.1)

pub record Settings : Type 0 where
  pub user_id : String
  pub guest : Bool
  pub mute_on_start : Bool

abbrev pub is_moderator : Role → Bool
is_moderator moderator = true
is_moderator attendee = false

unfoldable pub get_settings : String → List String → Options → Result (Role × Settings)
get_settings user_id permissions options = get_user_role permissions >>= λ role. ok (
  if options.everybody_joins_as_moderator then moderator else role,
  record {
    user_id = user_id;
    guest = options.moderator_must_approve_join_requests && not (is_moderator role);
    mute_on_start = options.every_attende_joins_muted;
  },
)
