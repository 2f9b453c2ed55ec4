-- ===== src/Pin/Laws.antt =====
-- When a pin confirms an address, and when a new one is sent.
use native.Mathlib.Nat.{mod-lt}
use schulcloud.Base.{
  ℕ, ◌+◌, ◌-◌, ◌*◌, ◌%◌, ◌≤◌, ◌<◌, String, ◌≡◌, ◌≢◌, ◌↔◌, refl, ◌∙◌, ◌⊎◌, inl, inr, some, List, [],
  ◌∷◌, map, filter, Bool, true, false, ◌==◌, arith, truthy, Result, ok, err, Bool-cases, eq_iff,
  eq_refl, if◌then◌else◌, leb, forbidden, none,
}
use schulcloud.Pin.{
  Pin, remove_old_pins, get_random_int, generate_pin, create_pin, verify, text, PinQuery, matches,
  find_pins, validate_email_and_pin, check_and_verify_pin, minimal_time_difference, check_pins,
  check_time_window,
}

-- A pin is a number of four digits.
pub get_random_int-bounds :
    (max min random : ℕ)
    → min ≤ max
    → (min ≤ get_random_int max min random) × (get_random_int max min random ≤ max)
unfolding get_random_int
get_random_int-bounds max min random order =
    let below : random % (max + 1 - min) < max + 1 - min = mod-lt random (omega arith) in
    omega arith

email_filter-remove :
    (email : String) (pins : List Pin)
    → filter (λ p. p.email == email) (remove_old_pins email pins) ≡ []
unfolding remove_old_pins
email_filter-remove email [] = refl
email_filter-remove email (p ∷ pins) = ground (arith, email_filter-remove email pins)

other_filter-remove :
    (email other : String) (pins : List Pin)
    → email ≢ other
    → filter (λ p. p.email == other) (remove_old_pins email pins)
      ≡ filter (λ p. p.email == other) pins
unfolding remove_old_pins
other_filter-remove email other [] distinct = refl
other_filter-remove email other (p ∷ pins) distinct = ground (
  arith,
  other_filter-remove email other pins distinct,
  eq_iff p.email email,
  eq_iff p.email other,
)

-- The pin that is sent to an address.
abbrev pub sent_pin : String → String → String → ℕ → Pin
sent_pin id email code now = record {
  id = id;
  email = email;
  pin = some code;
  verified = false;
  updated_at = now;
}

-- The query for an address of `n` letters and a code of four.
abbrev pub asks : ℕ → String → String → PinQuery
asks n email given = record { email = text email n; pin = text given 4; verified = none }

filter-verify :
    (id email : String) (written : ℕ) (pins : List Pin)
    → filter (λ p. p.email == email) (map (verify id written) pins)
      ≡ map (verify id written) (filter (λ p. p.email == email) pins)
filter-verify id email written [] = refl
filter-verify id email written (p ∷ pins) = ground (arith, filter-verify id email written pins)

matches-remove :
    (email given : String) (n : ℕ) (pins : List Pin)
    → filter (matches (asks n email given)) (remove_old_pins email pins) ≡ []
unfolding remove_old_pins
matches-remove email given n [] = refl
matches-remove email given n (p ∷ pins) = ground (arith, matches-remove email given n pins)

found_after :
    (id email code given : String) (n now : ℕ) (pins : List Pin)
    → filter
        (matches (asks n email given))
        (sent_pin id email code now ∷ remove_old_pins email pins)
      ≡ (if given == code then sent_pin id email code now ∷ [] else [])
found_after id email code given n now pins =
    ground (arith, matches-remove email given n pins, eq_refl email)

checked :
    (max_age later written n now : ℕ) (id email code given : String) (stored : List Pin)
    → truthy (some code) ≡ true
    → check_and_verify_pin max_age later written (some given) (record {
      found = if given == code then sent_pin id email code now ∷ [] else [];
      stored = stored;
    })
      ≡ (if given == code
          then if leb later (now + max_age * 1000)
            then ok (record {
              found = record (sent_pin id email code now) { verified = true } ∷ [];
              stored = map (verify id written) stored;
            })
            else err forbidden
          else ok (record { found = []; stored = stored }))
unfolding check_and_verify_pin
checked max_age later written n now id email code given stored t =
    elim (Bool-cases (given == code)) [
      | inr f ↦ rw f refl
      | inl e ↦
          let same : given ≡ code = (eq_iff given code).0 e in
          rw e (rw same (ground (arith, eq_refl code)))
    ]

validated :
    (email given : String) (n : ℕ)
    → truthy (some email) ≡ true
    → validate_email_and_pin (text email n) (text given 4) ≡ ok tt
unfolding validate_email_and_pin
validated email given n h = elim (Bool-cases (truthy (some given))) [
  | inl t ↦ rw h (rw t refl)
  | inr f ↦ rw h (rw f refl)
]

-- After a pin was created for an address, it is the only one of the address, and the pins of another
-- address are those from before. A find for the address with a code of four characters then is
-- answered with the pin, which is marked as verified, if the code is the one that was sent and the
-- pin is not older than allowed; it is refused as forbidden if the code is right but the pin too old;
-- and finds nothing and changes nothing if the code is another one. In the store after a
-- verification the one pin of the address is marked as verified, and has the time of the patch, from
-- which its age counts anew. This holds where the address and the code that was sent are not empty.
pub create_pin-find_pins :
    (to_decimal : ℕ → String) (id email other given : String)
    (max_age n random now later written : ℕ) (pins : List Pin)
    → truthy (some email) ≡ true
    → truthy (some (generate_pin to_decimal random)) ≡ true
    → email ≢ other
    → let stored = create_pin to_decimal id random now email pins in
      let code = generate_pin to_decimal random in
      let sent = sent_pin id email code now in
      (filter (λ p. p.email == email) stored ≡ sent ∷ [])
      × (filter (λ p. p.email == other) stored ≡ filter (λ p. p.email == other) pins)
      × (find_pins max_age later written (asks n email given) stored ≡ (
          if given == code
          then if leb later (now + max_age * 1000)
            then ok (record {
              found = record sent { verified = true } ∷ [];
              stored = map (verify id written) stored;
            })
            else err forbidden
          else ok (record { found = []; stored = stored })))
      × (filter (λ p. p.email == email) (map (verify id written) stored)
          ≡ record sent { verified = true; updated_at = written } ∷ [])
unfolding create_pin find_pins
create_pin-find_pins to_decimal id email other given max_age n random now later written pins address
      code distinct =
    let sent = sent_pin id email (generate_pin to_decimal random) now in
    let stored = sent ∷ remove_old_pins email pins in
    let only : filter (λ p. p.email == email) stored ≡ sent ∷ [] =
      ground (arith, email_filter-remove email pins, eq_refl email) in
    (
      only,
      ground (arith, other_filter-remove email other pins distinct, eq_iff email other),
      rw (validated email given n address) (
          rw (found_after id email (generate_pin to_decimal random) given n now pins) (
            checked max_age later written n now id email (generate_pin to_decimal random) given
              stored code)),
      filter-verify id email written stored ∙ rw only (ground (arith, eq_refl id)),
    )

-- A request for a pin from outside passes the time window exactly if it is silent, or its pins can
-- be looked up and there are none, or there is one that is five minutes old.
pub check_time_window_iff :
    (silent : Bool) (now : ℕ) (pins : Result (List Pin))
    → (check_time_window silent now pins ≡ ok tt) ↔ (
        (silent ≡ true)
        ⊎ (pins ≡ ok [])
        ⊎ ((p : Pin) × (pins ≡ ok (p ∷ [])) × (p.updated_at + minimal_time_difference ≤ now)))
unfolding check_time_window check_pins
check_time_window_iff true now pins = ground arith
check_time_window_iff false now (err e) =
    (λ h. cc, elim [ inl h ↦ cc | inr (inl h) ↦ cc | inr (inr (p, h, k)) ↦ cc ])
check_time_window_iff false now (ok []) = ground arith
check_time_window_iff false now (ok (p ∷ [])) = ground arith
check_time_window_iff false now (ok (p ∷ q ∷ rest)) =
    (λ h. absurd (ground arith), elim [ inl h ↦ cc | inr (inl h) ↦ cc | inr (inr (x, h, k)) ↦ cc ])
