-- ===== src/Videoconference/Meeting.antt =====
-- src/services/videoconference/logic: the links with which users join a meeting on the server.
use Prim.Native.Char.{code}
use schulcloud.Base.{
  ℕ, String, Option, none, some, List, [], ◌∷◌, Bool, true, false, not, ◌&&◌, ◌||◌, if◌then◌else◌,
  leb, nat_eq, truthy_text, Result, ok, err, not_found, plain_error, assertion_error, ◌>>=◌,
}

-- What the code reads of the server's answer. `is_found` says that the return code is a success, and
-- `is_not_found` that the message says that there is no such meeting.
pub record Response : Type 0 where
  pub is_found : Bool
  pub is_not_found : Bool
  pub moderator_pw : List String
  pub attendee_pw : List String
  pub meeting_id : List String

abbrev pub is_valid_found_response : Option Response → Bool
is_valid_found_response none = false
is_valid_found_response (some r) = r.is_found

abbrev pub is_valid_not_found_response : Option Response → Bool
is_valid_not_found_response none = false
is_valid_not_found_response (some r) = r.is_not_found

pub data Role : Type 0 where
  moderator attendee : Role

abbrev pub between : ℕ → ℕ → ℕ → Bool
between from to c = leb from c && leb c to

-- `[0-9A-Za-zÀ-ÖØ-öø-ÿ.\-=_`´ ]`
abbrev pub is_kept : ℕ → Bool
is_kept c =
    between 48 57 c
    || between 65 90 c
    || between 97 122 c
    || between 192 214 c
    || between 216 246 c
    || between 248 255 c
    || nat_eq c 46
    || nat_eq c 45
    || nat_eq c 61
    || nat_eq c 95
    || nat_eq c 96
    || nat_eq c 180
    || nat_eq c 32

unfoldable pub keep_letters : String → String
keep_letters String.[] = String.[]
keep_letters (String.◌∷◌ c s) =
    let rest = keep_letters s in if is_kept (code c) then String.◌∷◌ c rest else rest

-- `sanitize`, which refuses an empty text.
unfoldable pub sanitize : String → Result String
sanitize text = if truthy_text text then ok (keep_letters text) else err assertion_error

-- `server.administration.join(userName, meetingId, secret, …)`, and whether the meeting was made
-- for it.
pub record Join : Type 0 where
  pub user_name : String
  pub meeting_id : String
  pub secret : String
  pub is_new : Bool

abbrev pub first_of : List String → Result String
first_of [] = err plain_error
first_of (s ∷ rest) = ok s

abbrev pub secret_of : Role → Response → Result String
secret_of moderator r = first_of r.moderator_pw
secret_of attendee r = first_of r.attendee_pw

unfoldable pub enter_found : Role → String → Bool → Response → Result Join
enter_found role user_name is_new r = secret_of role r >>= λ secret. first_of r.meeting_id >>= λ id.
    sanitize user_name >>= λ name.
    ok (record { user_name = name; meeting_id = id; secret = secret; is_new = is_new })

-- The meeting that the user is added to.
abbrev pub enter : Role → String → Bool → Option Response → Result Join
enter role user_name is_new none = err plain_error
enter role user_name is_new (some r) =
    if not r.is_found then err plain_error else enter_found role user_name is_new r

-- `joinMeeting`: `info` is the answer about the meeting, and `create_meeting` that to the creation
-- of one with a name.
unfoldable pub join_meeting :
    Result (Option Response)
    → (String → Result (Option Response))
    → String
    → String
    → Role
    → Bool
    → Result Join
join_meeting info create_meeting meeting_name user_name role create = info >>= λ response.
    (if is_valid_not_found_response response
      then (if create
          then (sanitize meeting_name >>= λ name. create_meeting name >>= enter role user_name true)
          else err not_found)
      else enter role user_name false response)

-- `getMeetingInfo`
unfoldable pub get_meeting_info : Result (Option Response) → Result (Option Response)
get_meeting_info info = info >>= λ response.
    (if is_valid_found_response response || is_valid_not_found_response response
      then ok response
      else err plain_error)
