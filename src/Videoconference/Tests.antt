-- ===== src/Videoconference/Tests.antt =====
-- The conference of a course, which a teacher starts and a student joins.
use schulcloud.Base.{
  String, ◌≡◌, ◌↔◌, refl, ◌⊎◌, some, List, [], ◌∷◌, Has, true, false, ◌&&◌, ◌==◌, if◌then◌else◌, ok,
  err, bad_request,
}
use schulcloud.ObjectId.{is_valid}
use schulcloud.Hook.Permission.{lookup}
use schulcloud.Videoconference.Meeting.{
  Response, moderator, Join, sanitize, keep_letters, enter_found, join_meeting,
}
use schulcloud.Videoconference.Service.{
  RawOptions, flag, other, default_options, get_valid_options, assign_options,
  throw_on_validation_errors, throw_on_features_disabled, is_school_feature_enabled,
  throw_on_not_any_permission_in_scope, get_user_role, get_settings, Settings, Scopes, ScopeInfo,
  get_scope_info, Metadata, get_videoconference_metadata, update_and_get_videoconference_metadata,
}
use schulcloud.Videoconference.Conference.{
  running, Answer, Call, answered, ask_a_moderator, answer_with, start_or_join, check_create,
  create_videoconference,
}
use schulcloud.Videoconference.Laws.{
  earlier_options, create_videoconference-Permitted, get_settings_iff,
  update_and_get_videoconference_metadata-get,
}

abbrev scopes : Scopes
scopes = record {
  course_name = λ id. ok "Maths";
  events = λ id. ok [];
  permissions = λ name id user. ok (
      (
        user,
        if user == "teacher" then "START_MEETING" ∷ "JOIN_MEETING" ∷ [] else "JOIN_MEETING" ∷ [],
      )
      ∷ []);
}

abbrev meeting : Response
meeting = record {
  is_found = true;
  is_not_found = false;
  moderator_pw = "m" ∷ [];
  attendee_pw = "a" ∷ [];
  meeting_id = "c" ∷ [];
}

abbrev no_meeting : Response
no_meeting = record {
  is_found = false;
  is_not_found = true;
  moderator_pw = [];
  attendee_pw = [];
  meeting_id = [];
}

abbrev call_of : String → Call
call_of user = record {
  user = ok (user, user);
  is_event_id = λ id. false;
  feature_enabled = true;
  school_features = some ("videoconference" ∷ []);
  scopes = scopes;
  meeting_info = ok (some no_meeting);
  create_meeting = λ name. ok (some meeting);
}

abbrev course : String
course = "5f2987e020834114b8efd6f8"

abbrev muted : RawOptions
muted = ("everyAttendeJoinsMuted", flag true) ∷ []

abbrev stored_conference : Metadata
stored_conference = record {
  scope_name = "course";
  scope_id = course;
  options = record default_options { every_attende_joins_muted = true };
}

abbrev link : Join
link = record { user_name = "teacher"; meeting_id = "c"; secret = "m"; is_new = true }

abbrev started : Answer
started = record {
  state = running;
  permission = some "START_MEETING";
  options = some (record default_options { every_attende_joins_muted = true });
  join = some link;
}

starts :
    create_videoconference (call_of "teacher") "course" course muted []
    ≡ (ok (answered started), stored_conference ∷ [])
unfolding create_videoconference check_create throw_on_validation_errors is_valid get_valid_options
    lookup get_scope_info throw_on_features_disabled is_school_feature_enabled
    throw_on_not_any_permission_in_scope start_or_join update_and_get_videoconference_metadata
    assign_options answer_with get_settings get_user_role join_meeting enter_found sanitize
    keep_letters
starts = refl

waits : create_videoconference (call_of "student") "course" course [] [] ≡ (ok ask_a_moderator, [])
unfolding create_videoconference check_create throw_on_validation_errors is_valid get_valid_options
    lookup get_scope_info throw_on_features_disabled is_school_feature_enabled
    throw_on_not_any_permission_in_scope start_or_join get_videoconference_metadata
waits = refl

create_videoconference-Permitted_example :
    (user : String × String) × (info : ScopeInfo) × (join : Join) × ((call_of "teacher").user
      ≡ ok user)
    × (get_scope_info scopes user.0 "course" course ≡ ok info)
    × (started.join ≡ some join)
    × ((call_of "teacher").feature_enabled ≡ true)
    × ((l : List String) × ((call_of "teacher").school_features ≡ some l) × Has l "videoconference")
    × (Has info.user_permissions "START_MEETING" ⊎ Has info.user_permissions "JOIN_MEETING")
    × (join.is_new ≡ true → Has info.user_permissions "START_MEETING")
create_videoconference-Permitted_example =
    create_videoconference-Permitted (call_of "teacher") "course" course muted []
      (stored_conference ∷ []) started starts

abbrev settings : Settings
settings = record { user_id = "teacher"; guest = false; mute_on_start = false }

moderates : get_settings "teacher" ("START_MEETING" ∷ []) default_options ≡ ok (moderator, settings)
unfolding get_settings get_user_role
moderates = refl

get_settings_iff_run :
    ((moderator ≡ moderator) ↔ (
      Has ("START_MEETING" ∷ []) "START_MEETING"
      ⊎ (default_options.everybody_joins_as_moderator ≡ true)))
    × ((settings.guest ≡ true) ↔ (
        (default_options.moderator_must_approve_join_requests ≡ true)
        × (¬ Has ("START_MEETING" ∷ []) "START_MEETING")))
    × (Has ("START_MEETING" ∷ []) "START_MEETING" ⊎ Has ("START_MEETING" ∷ []) "JOIN_MEETING")
get_settings_iff_run =
    get_settings_iff "teacher" ("START_MEETING" ∷ []) default_options moderator settings moderates

stores :
    update_and_get_videoconference_metadata "course" course muted []
    ≡ (stored_conference, stored_conference ∷ [])
unfolding update_and_get_videoconference_metadata get_valid_options lookup assign_options
stores = refl

update_and_get_videoconference_metadata-get_run :
    (get_videoconference_metadata "course" course (stored_conference ∷ []) ≡ some stored_conference)
    × (stored_conference.options
        ≡ assign_options
            (get_valid_options muted)
            (earlier_options (get_videoconference_metadata "course" course [])))
    × (("event" == "course" && course == course) ≡ false
        → get_videoconference_metadata "event" course (stored_conference ∷ [])
          ≡ get_videoconference_metadata "event" course [])
update_and_get_videoconference_metadata-get_run =
    update_and_get_videoconference_metadata-get "course" course muted [] (stored_conference ∷ [])
      stored_conference "event" course stores

-- An option that is no Boolean is refused.
invalid :
    throw_on_validation_errors
      (λ id. false)
      course
      "course"
      (some (("everyAttendeJoinsMuted", other) ∷ []))
    ≡ err bad_request
unfolding throw_on_validation_errors is_valid get_valid_options lookup
invalid = refl
