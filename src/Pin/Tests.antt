-- ===== src/Pin/Tests.antt =====
-- The theorems about pins at a concrete pin.
use schulcloud.Base.{
  ℕ, ◌+◌, ◌≤◌, String, ◌≡◌, ◌≢◌, ◌↔◌, ◌⊎◌, refl, some, [], ◌∷◌, map, filter, true, false, ◌==◌,
  arith, truthy, ok, err, bad_request, eq_iff, List, none, if◌then◌else◌, leb, forbidden, ◌*◌,
}
use schulcloud.Pin.{
  find_pins, Pin, get_random_int, generate_pin, create_pin, Answer, verify, check_and_verify_pin,
  minimal_time_difference, check_time_window,
}
use schulcloud.Pin.Laws.{
  get_random_int-bounds, sent_pin, asks, create_pin-find_pins, check_time_window_iff,
}

get_random_int-bounds_run :
    (1000 ≤ get_random_int 9999 1000 123456789) × (get_random_int 9999 1000 123456789 ≤ 9999)
get_random_int-bounds_run = get_random_int-bounds 9999 1000 123456789 (omega arith)

abbrev pin : Pin
pin = record { id = "1"; email = "a@b"; pin = some "1234"; verified = false; updated_at = 1000 }

abbrev before : Answer
before = record { found = pin ∷ []; stored = pin ∷ [] }

-- The answer holds the time from before, the store that of the patch.
abbrev after : Answer
after = record {
  found = record pin { verified = true } ∷ [];
  stored = record pin { verified = true; updated_at = 1600 } ∷ [];
}

verified : check_and_verify_pin 600 1500 1600 (some "1234") before ≡ ok after
unfolding check_and_verify_pin
verified = refl

without_code : check_and_verify_pin 600 1500 1600 none before ≡ err bad_request
unfolding check_and_verify_pin
without_code = refl

abbrev to_decimal : ℕ → String
to_decimal n = "1789"

code : truthy (some (generate_pin to_decimal 789)) ≡ true
unfolding generate_pin
code = refl

abbrev address : String
address = "a@b"

abbrev other_address : String
other_address = "c@d"

distinct : address ≢ other_address
distinct e = let (_, from) = eq_iff address other_address in let same : false ≡ true = from e in cc

abbrev stored : List Pin
stored = create_pin to_decimal "2" 789 1000 "a@b" (pin ∷ [])

abbrev sent : Pin
sent = sent_pin "2" "a@b" (generate_pin to_decimal 789) 1000

create_pin-find_pins_example :
    (filter (λ p. p.email == "a@b") stored ≡ sent ∷ [])
    × (filter (λ p. p.email == "c@d") stored ≡ filter (λ p. p.email == "c@d") (pin ∷ []))
    × (find_pins 600 2000 2100 (asks 3 "a@b" "1789") stored ≡ (
        if "1789" == generate_pin to_decimal 789
        then if leb 2000 (1000 + 600 * 1000)
          then ok (record {
            found = record sent { verified = true } ∷ [];
            stored = map (verify "2" 2100) stored;
          })
          else err forbidden
        else ok (record { found = []; stored = stored })))
    × (filter (λ p. p.email == "a@b") (map (verify "2" 2100) stored)
        ≡ record sent { verified = true; updated_at = 2100 } ∷ [])
create_pin-find_pins_example =
    create_pin-find_pins to_decimal "2" "a@b" "c@d" "1789" 600 3 789 1000 2000 2100 (pin ∷ []) refl
      code distinct

check_time_window_iff_run : (check_time_window false 400000 (ok (pin ∷ [])) ≡ ok tt) ↔ (
    (false ≡ true)
    ⊎ (ok (pin ∷ []) ≡ ok [])
    ⊎ ((p : Pin) × (ok (pin ∷ []) ≡ ok (p ∷ []))
        × (p.updated_at + minimal_time_difference ≤ 400000)))
check_time_window_iff_run = check_time_window_iff false 400000 (ok (pin ∷ []))
