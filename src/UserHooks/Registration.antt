-- ===== src/UserHooks/Registration.antt =====
-- userService.js: the hooks of the registration of a user.
pub mod Laws
use schulcloud.Base.{
  ℕ, suc, String, Option, none, some, List, [], ◌∷◌, length, all, includes, Bool, true, false, not,
  ◌&&◌, ◌||◌, ◌==◌, if◌then◌else◌, ltb, leb, nat_eq, truthy, to_string, get_or, is_some, Result, ok,
  err, bad_request, general_error, type_error, ◌>>=◌, throw_if,
}
use schulcloud.ObjectId.{codes}
use schulcloud.Pin.{Pin, missing, text, PinQuery, find_pins}
use schulcloud.Hook.{Context, many}
use schulcloud.Hook.Permission.{UserService, has_permission}

-- The data of a registration: `parent_email` is the address in `_additional`, and `age` what
-- `getAge` makes of the birthday, which may be undefined.
pub record Registration : Type 0 where
  pub parent_email : Option String
  pub email : Option String
  pub roles : List String
  pub age : Option ℕ

-- `age < CONSENT_WITHOUT_PARENTS_MIN_AGE_YEARS`, which is false where the age is undefined.
abbrev pub is_younger : ℕ → Option ℕ → Bool
is_younger min none = false
is_younger min (some age) = ltb age min

-- The pin that is removed with the registration, if it is.
abbrev pub used_pin : ℕ → Registration → Pin → Option String
used_pin min r p =
    if not (includes r.roles "student" && is_younger min r.age) then some p.id else none

-- The verified pins of the address.
abbrev pub check_found : ℕ → Registration → List Pin → Result (Option String)
check_found min r (p ∷ []) = if truthy p.pin then ok (used_pin min r p) else err bad_request
check_found min r _ = err bad_request

abbrev pub is_logged_in : Context → Bool
is_logged_in context = elim (context.account) [
  | none ↦ false
  | some account ↦ truthy account.user_id
]

-- The address whose pin is asked for.
abbrev pub address_of : Registration → Option String
address_of r = if truthy r.parent_email then r.parent_email else r.email

-- The query for the verified pins of an address, which may be undefined.
abbrev pub verified_pins : Option String → PinQuery
verified_pins address = record {
  email = elim address [ none ↦ missing | some s ↦ text s (length (codes s)) ];
  pin = missing;
  verified = some true;
}

-- `pinIsVerified`: the find runs the hooks of the pins.
unfoldable pub pin_is_verified :
    ℕ → ℕ → ℕ → ℕ → UserService → List Pin → Context → Registration → Result (Option String)
pin_is_verified min max_age now written users stored context r =
    if is_logged_in context
    then (has_permission (many ("STUDENT_CREATE" ∷ "TEACHER_CREATE" ∷ "ADMIN_CREATE" ∷ [])) users
          context
        >>= λ c. ok none)
    else (find_pins max_age now written (verified_pins (address_of r)) stored >>= λ a.
        check_found min r a.found)

-- `^[0-9a-fA-F]{24}$`
abbrev pub is_hex_digit : ℕ → Bool
is_hex_digit c = leb b'0' c && leb c b'9' || leb b'a' c && leb c b'f' || leb b'A' c && leb c b'F'

abbrev pub is_id : String → Bool
is_id id = let cs = codes id in nat_eq (length cs) 24 && all is_hex_digit cs

abbrev pub passes : (String → Bool) → Option String → Bool
passes test none = true
passes test (some value) = test value

-- `sanitizeData`: `is_email` is the pattern of addresses in src/utils/constants.js.
unfoldable pub sanitize_data :
    (String → Bool) → Option String → Option String → Option String → Result (Unit {0})
sanitize_data is_email email school_id class_id =
    if not (passes is_email email)
    then err bad_request
    else if not (passes is_id school_id)
    then err bad_request
    else if not (passes is_id class_id)
    then err bad_request
    else ok tt

-- What the service of registration links is asked for.
pub record Link : Type 0 where
  pub role : Option String
  pub school_id : Option String
  pub to_hash : Option String

abbrev pub first : List String → Option String
first [] = none
first (role ∷ rest) = some role

-- `generateRegistrationLink`: the hash that is stored with the user, if one is asked for. No role
-- at all passes.
unfoldable pub generate_registration_link :
    (Link → Result String)
    → Bool
    → Option (List String)
    → Option String
    → Option String
    → Result (Option String)
generate_registration_link create asked roles school_id email =
    if not asked then ok none else elim roles [
      | none ↦ err bad_request
      | some names ↦
          if ltb 1 (length names)
          then err bad_request
          else elim (create
              (record { role = first names; school_id = school_id; to_hash = email })) [
                | ok hash ↦ ok (some hash)
                | err e ↦ err general_error
              ]
    ]

-- `sendRegistrationLink`, for the id of the result, if there is a result yet: the ids that a link
-- is sent to.
unfoldable pub send_registration_link : Bool → Option String → Result (List String)
send_registration_link asked result =
    if not asked then ok [] else elim result [ none ↦ err type_error | some id ↦ ok (id ∷ []) ]
