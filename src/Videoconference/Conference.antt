-- ===== src/Videoconference/Conference.antt =====
-- src/services/videoconference/index.js: the services that tell the state of a conference and give
-- a link to it.
use schulcloud.Base.{
  String, Option, none, some, List, [], ◌∷◌, Bool, true, false, if◌then◌else◌, is_some, Error,
  general_error, assertion_error, plain_error, type_error, Result, ok, err, ◌>>=◌, ◌>>◌, paired,
}
use schulcloud.Videoconference.Meeting.{
  Response, is_valid_found_response, is_valid_not_found_response, Join, join_meeting,
  get_meeting_info,
}
use schulcloud.Videoconference.Service.{
  RawOptions, Options, throw_on_validation_errors, throw_on_features_disabled, may_start,
  throw_on_permission_missing_in_scope, throw_on_not_any_permission_in_scope,
  get_highest_videoconference_permission, Scopes, ScopeInfo, get_scope_info, Metadata,
  get_videoconference_metadata, update_and_get_videoconference_metadata, get_settings,
}

pub data State : Type 0 where
  not_started running finished : State

pub record Answer : Type 0 where
  pub state : State
  pub permission : Option String
  pub options : Option Options
  pub join : Option Join

-- What a service is called with and learns: the authenticated user, whether the feature is on and
-- the features of the user's school, the services of scopes, the answer about the meeting, and that
-- to the creation of one.
pub record Call : Type 0 where
  pub user : Result (String × String)  -- the id and the full name
  pub is_event_id : String → Bool
  pub feature_enabled : Bool
  pub school_features : Option (List String)
  pub scopes : Scopes
  pub meeting_info : Result (Option Response)
  pub create_meeting : String → Result (Option Response)

abbrev pub options_of : Option Metadata → Option Options
options_of none = none
options_of (some m) = some m.options

abbrev pub answer_in : State → List String → Option Metadata → Answer
answer_in state permissions metadata = record {
  state = state;
  permission = get_highest_videoconference_permission permissions;
  options = if may_start permissions then options_of metadata else none;
  join = none;
}

abbrev pub state_of : List String → Option Metadata → Option Response → Result Answer
state_of permissions metadata info =
    if is_valid_not_found_response info
    then ok (answer_in (if is_some metadata then finished else not_started) permissions metadata)
    else if is_valid_found_response info
    then ok (answer_in running permissions metadata)
    else err general_error

module _ (call : Call) (scope_name scope_id : String) where
  -- `GetVideoconferenceService.get`
  unfoldable pub get_videoconference : List Metadata → Result Answer
  get_videoconference stored =
      throw_on_validation_errors call.is_event_id scope_id scope_name none >>= λ valid.
      call.user >>= λ user. get_scope_info call.scopes user.0 scope_name scope_id >>= λ info.
      throw_on_features_disabled call.feature_enabled call.school_features >>= λ enabled.
      throw_on_permission_missing_in_scope "JOIN_MEETING" info.user_permissions >>= λ joins.
      get_meeting_info call.meeting_info
      >>= state_of info.user_permissions (get_videoconference_metadata scope_name scope_id stored)

-- The result of the creation: an answer, or the value of an error that is returned and not thrown.
pub data Outcome : Type 0 where
  answered : Answer → Outcome
  ask_a_moderator : Outcome

abbrev pub is_feather_error : Error → Bool
is_feather_error assertion_error = false
is_feather_error plain_error = false
is_feather_error type_error = false
is_feather_error _ = true

-- The `catch` of `create`.
abbrev pub caught : Result Outcome → Result Outcome
caught (ok outcome) = ok outcome
caught (err e) = err (if is_feather_error e then e else general_error)

module _ (call : Call) (user : String × String) (info : ScopeInfo) where
  abbrev pub joined : Metadata → Result Join
  joined metadata =
      get_settings user.0 info.user_permissions metadata.options >>= λ (role, settings).
      join_meeting call.meeting_info call.create_meeting info.scope_title user.1 role
        (may_start info.user_permissions)

  unfoldable pub answer_with : Metadata → Result Outcome
  answer_with metadata = caught (
      joined metadata >>= λ join. ok (
        answered (record {
          state = running;
          permission = get_highest_videoconference_permission info.user_permissions;
          options = if may_start info.user_permissions then some metadata.options else none;
          join = some join;
        })))

  -- Who may only join uses the conference as it is stored.
  abbrev pub join_stored : List Metadata → Option Metadata → Result Outcome × List Metadata
  join_stored stored none = (ok ask_a_moderator, stored)
  join_stored stored (some metadata) = (answer_with metadata, stored)

  -- The business part, with the conferences that are stored afterwards.
  unfoldable pub start_or_join :
      String → String → RawOptions → List Metadata → Result Outcome × List Metadata
  start_or_join scope_name scope_id options stored =
      if may_start info.user_permissions
      then (let (metadata, after) =
            update_and_get_videoconference_metadata scope_name scope_id options stored in
          (answer_with metadata, after))
      else join_stored stored (get_videoconference_metadata scope_name scope_id stored)

-- The checks of `create`: those of the features and the permissions, the scope with these, and all.
abbrev pub check_info : Call → ScopeInfo → Result (Unit {0})
check_info call info =
    throw_on_features_disabled call.feature_enabled call.school_features
    >> throw_on_not_any_permission_in_scope ("START_MEETING" ∷ "JOIN_MEETING" ∷ [])
        info.user_permissions

abbrev pub check_scope : Call → String → String → String × String → Result ScopeInfo
check_scope call scope_name scope_id user =
    get_scope_info call.scopes user.0 scope_name scope_id >>= λ info.
    check_info call info >> ok info

unfoldable pub check_create :
    Call → String → String → RawOptions → Result ((String × String) × ScopeInfo)
check_create call scope_name scope_id options =
    throw_on_validation_errors call.is_event_id scope_id scope_name (some options)
    >> paired call.user (check_scope call scope_name scope_id)

abbrev pub after_checks :
    Call
    → String
    → String
    → RawOptions
    → List Metadata
    → Result ((String × String) × ScopeInfo)
    → Result Outcome × List Metadata
after_checks call scope_name scope_id options stored (err e) = (err e, stored)
after_checks call scope_name scope_id options stored (ok (user, info)) =
    start_or_join call user info scope_name scope_id options stored

-- `CreateVideoconferenceService.create`
unfoldable pub create_videoconference :
    Call → String → String → RawOptions → List Metadata → Result Outcome × List Metadata
create_videoconference call scope_name scope_id options stored =
    after_checks call scope_name scope_id options stored
      (check_create call scope_name scope_id options)
