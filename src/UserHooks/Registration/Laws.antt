-- ===== src/UserHooks/Registration/Laws.antt =====
-- Who may register.
use schulcloud.Base.{
  ℕ, String, ◌≡◌, ◌↔◌, refl, ◌⊎◌, inl, inr, Option, none, some, List, [], ◌∷◌, includes, true,
  false, ◌&&◌, ◌<◌, arith, Bool-cases, Has, includes_iff, truthy, ok, ◌+◌, ◌*◌, ◌≤◌, ltb, sym, ◌∙◌,
  Bool, ◌>>=◌, ◌==◌, filter, Option-cases, err, bad_request,
}
use schulcloud.Pin.{Pin, check_and_verify_pin, find_pins, validate_email_and_pin}
use schulcloud.Hook.{Context}
use schulcloud.Hook.Permission.{UserService}
use schulcloud.UserHooks.Registration.{
  Registration, is_younger, used_pin, check_found, is_logged_in, pin_is_verified, address_of,
}

-- A student below the age keeps the pin, for the registration of the parent.
abbrev pub KeepsPin : ℕ → Registration → Type 0
KeepsPin min r = Has r.roles "student" × ((age : ℕ) × (r.age ≡ some age) × (age < min))

is_younger_iff :
    (min : ℕ) (age : Option ℕ)
    → (is_younger min age ≡ true) ↔ ((a : ℕ) × (age ≡ some a) × (a < min))
is_younger_iff min none = (λ h. cc, λ (a, e, l). cc)
is_younger_iff min (some a) = (λ h. (a, refl, ground arith), λ (b, e, l). ground arith)

KeepsPin-iff :
    (min : ℕ) (r : Registration)
    → ((includes r.roles "student" && is_younger min r.age) ≡ true) ↔ KeepsPin min r
KeepsPin-iff min r =
    let (to, from) = is_younger_iff min r.age in
    let (has, included) = includes_iff r.roles "student" in
    (λ h. (has (ground arith), to (ground arith)), λ (s, y). ground (arith, included s, from y))

-- What happens to the pin.
abbrev pub Removal : ℕ → Registration → Pin → Option String → Type 0
Removal min r p removed =
    (removed ≡ some p.id) × (¬ KeepsPin min r) ⊎ (removed ≡ none) × KeepsPin min r

used_pin_iff :
    (min : ℕ) (r : Registration) (p : Pin) (removed : Option String)
    → (used_pin min r p ≡ removed) ↔ Removal min r p removed
used_pin_iff min r p removed =
    let (to, from) = KeepsPin-iff min r in
    elim (Bool-cases (includes r.roles "student" && is_younger min r.age)) [
      | inl k ↦ rw k (
        λ h. inr (ground arith, to k),
        elim [ inl x ↦ absurd (x.1 (to k)) | inr x ↦ ground arith ],
      )
      | inr k ↦ rw k (
        λ h. inl (ground arith, λ x. ground (arith, from x)),
        elim [ inl x ↦ ground arith | inr x ↦ absurd (ground (arith, from x.1)) ],
      )
    ]

check_found_iff :
    (min : ℕ) (r : Registration) (pins : List Pin) (removed : Option String)
    → (check_found min r pins ≡ ok removed)
      ↔ ((p : Pin) × (pins ≡ p ∷ []) × (truthy p.pin ≡ true) × Removal min r p removed)
check_found_iff min r [] removed =
    (λ h. absurd (ground arith), λ (p, e, y, x). absurd (ground arith))
check_found_iff min r (p ∷ q ∷ rest) removed =
    (λ h. absurd (ground arith), λ (o, e, y, x). absurd (ground arith))
check_found_iff min r (p ∷ []) removed = elim (Bool-cases (truthy p.pin)) [
  | inr t ↦ rw t (
    λ h. absurd (ground arith),
    λ (o, e, y, x).
        let same : p ≡ o = ground arith in let pin = rw (← same) at y in absurd (ground arith),
  )
  | inl t ↦ rw t (
    λ h. (p, refl, t, (used_pin_iff min r p removed).0 (ground arith)),
    λ (o, e, y, x).
        let same : o ≡ p = ground arith in
        ground (arith, (used_pin_iff min r p removed).1 (rw same at x)),
  )
]

filter_one :
    (test : Pin → Bool) (pins : List Pin) (p : Pin) → filter test pins ≡ p ∷ [] → test p ≡ true
filter_one test [] p h = absurd (ground arith)
filter_one test (q ∷ rest) p h = elim (Bool-cases (test q)) [
  | inl t ↦ let same : q ≡ p = ground arith in rw (← same) t
  | inr f ↦ filter_one test rest p (rw f at h)
]

-- The one pin that confirms the address: recent, not empty, and removed or kept.
abbrev pub Confirms : ℕ → ℕ → ℕ → Registration → Option String → List Pin → Type 0
Confirms min max_age now r removed found =
    (p : Pin) × (found ≡ p ∷ [])
    × (now ≤ p.updated_at + max_age * 1000)
    × (truthy p.pin ≡ true)
    × Removal min r p removed

module _ (min max_age now written : ℕ) (r : Registration) (removed : Option String) where
  check_verified :
      (found stored : List Pin)
      → ((p : Pin) → found ≡ p ∷ [] → p.verified ≡ true)
      → ((check_and_verify_pin max_age now written none (record { found = found; stored = stored })
            >>= λ a. check_found min r a.found)
          ≡ ok removed)
        ↔ Confirms min max_age now r removed found
  unfolding check_and_verify_pin
  check_verified [] stored marked =
      (λ h. absurd (ground arith), λ (p, e, l, t, x). absurd (ground arith))
  check_verified (p ∷ q ∷ rest) stored marked =
      (λ h. absurd (ground arith), λ (o, e, l, t, x). absurd (ground arith))
  check_verified (p ∷ []) stored marked =
      elim (Bool-cases (ltb (p.updated_at + max_age * 1000) now)) [
        | inl old ↦ rw old (
          λ h. absurd (ground arith),
          λ (o, e, l, t, x).
              let one : p ≡ o = ground arith in let late = rw (← one) at l in absurd (ground arith),
        )
        | inr young ↦
            let (to, from) = check_found_iff min r (p ∷ []) removed in
            rw young (
              simp (marked p refl) (
                λ h.
                    let (o, e, t, x) = to h in
                    let one : p ≡ o = ground arith in (o, e, rw (← one) (ground arith), t, x),
                λ (o, e, l, t, x). from (o, e, t, x),
              ))
      ]

  -- The address that is asked for, which is not empty.
  asked :
      (users : UserService) (stored : List Pin) (context : Context) (address : String)
      → is_logged_in context ≡ false
      → address_of r ≡ some address
      → truthy (some address) ≡ true
      → pin_is_verified min max_age now written users stored context r ≡ (
          check_and_verify_pin max_age now written none (record {
            found = filter (λ p. p.email == address && p.verified) stored;
            stored = stored;
          })
          >>= λ a. check_found min r a.found)
  unfolding pin_is_verified find_pins validate_email_and_pin
  asked users stored context address out e t = rw out (rw e (rw t refl))

  no_address :
      (users : UserService) (stored : List Pin) (context : Context)
      → is_logged_in context ≡ false
      → truthy (address_of r) ≡ false
      → pin_is_verified min max_age now written users stored context r ≡ err bad_request
  unfolding pin_is_verified find_pins validate_email_and_pin
  no_address users stored context out f = elim (Option-cases (address_of r)) [
    | inl e ↦ rw out (rw e refl)
    | inr (s, e) ↦ let empty : truthy (some s) ≡ false = rw e at f in rw out (rw e (rw empty refl))
  ]

  -- Who is not logged in registers exactly if there is an address, the parent's or else the own
  -- one, that has a single verified pin, and the pin is not older than allowed and is not empty;
  -- and the pin is removed then, unless it is that of a student who is too young to consent alone.
  pub pin_is_verified_iff :
      (users : UserService) (stored : List Pin) (context : Context)
      → is_logged_in context ≡ false
      → (pin_is_verified min max_age now written users stored context r ≡ ok removed) ↔ (
          (address : String) × (address_of r ≡ some address)
          × (truthy (some address) ≡ true)
          × Confirms min max_age now r removed
              (filter (λ p. p.email == address && p.verified) stored))
  pin_is_verified_iff users stored context out = elim (Bool-cases (truthy (address_of r))) [
    | inr f ↦ (
      λ h. absurd (let e = no_address users stored context out f in ground arith),
      λ (address, e, t, c). absurd (let g = rw e at f in ground arith),
    )
    | inl t ↦ elim (Option-cases (address_of r)) [
      | inl e ↦ absurd (let g = rw e at t in ground arith)
      | inr (address, e) ↦
          let given : truthy (some address) ≡ true = rw e at t in
          let test = λ (p : Pin). p.email == address && p.verified in
          let (to, from) = check_verified (filter test stored) stored (λ p h.
            let both : p.email == address && p.verified ≡ true = filter_one test stored p h in
            ground arith) in
          let run = asked users stored context address out e given in
          (
            λ h. (address, e, given, to (sym run ∙ h)),
            λ (other, e', t', x).
                let same : other ≡ address = ground arith in run ∙ from (rw same at x),
          )
    ]
  ]
