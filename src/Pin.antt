-- ===== src/Pin.antt =====
-- src/services/user/hooks/registrationPins.js: the pins with which a new user confirms an address. A
-- time is in milliseconds.
mod Laws
mod Tests
use schulcloud.Base.{
  ℕ, ◌+◌, ◌-◌, ◌*◌, ◌/◌, ◌%◌, suc, String, Option, none, some, List, [], ◌∷◌, map, filter, length,
  Bool, true, false, not, ◌&&◌, ◌||◌, ◌==◌, if◌then◌else◌, ltb, leb, nat_eq, truthy, any, Result,
  ok, err, bad_request, forbidden, Error, too_many_requests, ◌>>=◌, ◌>>◌, throw_if, is_some,
}

pub record Pin : Type 0 where
  pub id : String
  pub email : String
  pub pin : Option String
  pub verified : Bool
  pub updated_at : ℕ

-- `removeOldPins`: the pins of other addresses stay.
unfoldable pub remove_old_pins : String → List Pin → List Pin
remove_old_pins email pins = filter (λ p. not (p.email == email)) pins

-- `getRandomInt(max, min)` from the number that the random bytes spell.
unfoldable pub get_random_int : ℕ → ℕ → ℕ → ℕ
get_random_int max min random = random % (max + 1 - min) + min

-- `generatePin` with the decimal text of a number as a parameter.
unfoldable pub generate_pin : (ℕ → String) → ℕ → String
generate_pin to_decimal random = to_decimal (get_random_int 9999 1000 random)

-- What creating a pin for an address does to the stored pins.
unfoldable pub create_pin : (ℕ → String) → String → ℕ → ℕ → String → List Pin → List Pin
create_pin to_decimal id random now email pins =
    record {
      id = id;
      email = email;
      pin = some (generate_pin to_decimal random);
      verified = false;
      updated_at = now;
    }
    ∷ remove_old_pins email pins

-- The texts that a mail has for each role.
pub data InfoText : Type 0 where
  parent_text : Bool → String → InfoText
  user_text : String → InfoText

-- `skipConsentRoles` is SKIP_CONDITIONS_CONSENT, and its length is given with it.
unfoldable pub create_info_text : Option String → String → ℕ → String → Result InfoText
create_info_text pin skip skip_length role = elim pin [
  | none ↦ err bad_request
  | some p ↦
      if not (truthy (some p))
      then err bad_request
      else if role == "parent"
      then ok (parent_text (not (not (skip == "") && ltb 1 skip_length)) p)
      else if role == "student" || role == "employee" || role == "expert"
      then ok (user_text p)
      else err bad_request
]

-- The result of the find and the pins that are stored.
pub record Answer : Type 0 where
  pub found : List Pin
  pub stored : List Pin

-- The patch that marks a pin as verified. The schema has timestamps, so the patch also sets the time
-- of the change.
abbrev pub verify : String → ℕ → Pin → Pin
verify id written p = if p.id == id then record p { verified = true; updated_at = written } else p

-- `firstDataItem.pin === hook.params.query.pin`
abbrev pub same_pin : String → Option String → Bool
same_pin p none = false
same_pin p (some q) = p == q

-- `max_age` is PIN_MAX_AGE_SECONDS, `now` the time of the check and `written` that of the patch. The
-- answer holds the pin that was found, as it was but for the mark.
unfoldable pub check_and_verify_pin : ℕ → ℕ → ℕ → Option String → Answer → Result Answer
check_and_verify_pin max_age now written queried answer = elim (answer.found) [
  | [] ↦ ok answer
  | p ∷ rest ↦
      if not (nat_eq (length rest) 0)
      then err bad_request
      else if ltb (p.updated_at + max_age * 1000) now
      then err forbidden
      else if p.verified
      then ok answer
      else elim (p.pin) [
        | none ↦ ok answer
        | some code ↦
            if not (truthy (some code))
            then ok answer
            else if same_pin code queried
            then ok (record {
              found = record p { verified = true } ∷ [];
              stored = map (verify p.id written) answer.stored;
            })
            else err bad_request
      ]
]

-- A field of the query: missing, a text with its length, or something else.
pub data Field : Type 0 where
  missing other : Field
  text : String → ℕ → Field

abbrev pub is_given : Field → Bool
is_given Field.missing = false
is_given Field.other = true
is_given (Field.text s n) = truthy (some s)

abbrev pub has_length : ℕ → Field → Bool
has_length n (Field.text s m) = nat_eq m n
has_length n _ = false

abbrev pub is_text : Field → Bool
is_text (Field.text s n) = true
is_text _ = false

-- `other` stands for a value that is not a text and that counts as true.
unfoldable pub validate_email_and_pin : Field → Field → Result (Unit {0})
validate_email_and_pin email pin =
    if not (is_given email)
    then err bad_request
    else if is_text email && (not (is_given pin) || has_length 4 pin)
    then ok tt
    else err bad_request

-- The query of a find. A field that is missing is not asked for.
pub record PinQuery : Type 0 where
  pub email : Field
  pub pin : Field
  pub verified : Option Bool

abbrev pub asked_text : Field → Option String
asked_text (Field.text s n) = some s
asked_text _ = none

abbrev pub has_email : Field → Pin → Bool
has_email Field.missing p = true
has_email Field.other p = false
has_email (Field.text s n) p = p.email == s

abbrev pub has_pin : Field → Pin → Bool
has_pin Field.missing p = true
has_pin Field.other p = false
has_pin (Field.text s n) p = same_pin s p.pin

abbrev pub has_mark : Option Bool → Pin → Bool
has_mark none p = true
has_mark (some mark) p = if mark then p.verified else not p.verified

abbrev pub matches : PinQuery → Pin → Bool
matches query p = has_email query.email p && (has_pin query.pin p && has_mark query.verified p)

-- A find of the service: the hook before it, the pins of the query, and the hook after it. The
-- calls from inside run the same hooks.
unfoldable pub find_pins : ℕ → ℕ → ℕ → PinQuery → List Pin → Result Answer
find_pins max_age now written query stored =
    validate_email_and_pin query.email query.pin
    >> check_and_verify_pin max_age now written (asked_text query.pin)
        (record { found = filter (matches query) stored; stored = stored })

abbrev pub minimal_time_difference : ℕ
minimal_time_difference = 5 * 60 * 1000

-- The pins that the service finds for the current user's address, or for an import hash whose user
-- exists.
unfoldable pub pins_of :
    Option (Result (List Pin))
    → Option String
    → (String → Result Bool)
    → (String → Result (List Pin))
    → Result (List Pin)
pins_of (some of_account) hash link_import of_hash = of_account
pins_of none hash link_import of_hash = elim hash [
  | none ↦ err bad_request
  | some h ↦
      if not (truthy (some h))
      then err bad_request
      else (do known ← link_import h; throw_if (not known) bad_request; of_hash h)
]

-- The check of the time window for the pins that were found.
unfoldable pub check_pins : ℕ → List Pin → Result (Unit {0})
check_pins now [] = ok tt
check_pins now (p ∷ rest) =
    if not (nat_eq (length rest) 0)
    then err bad_request
    else if ltb now (p.updated_at + minimal_time_difference)
    then err too_many_requests
    else ok tt

unfoldable pub check_time_window : Bool → ℕ → Result (List Pin) → Result (Unit {0})
check_time_window silent now pins = if silent then ok tt else pins >>= check_pins now

-- `returnPinOnlyToSuperHero`: whether the answer still holds the pin. The roles are those of the
-- account's user, if there is one.
unfoldable pub return_pin_only_to_super_hero : Bool → Option (List String) → Bool
return_pin_only_to_super_hero is_test roles =
    if is_test then true else elim roles [ none ↦ false | some l ↦ any (λ r. r == "superhero") l ]
