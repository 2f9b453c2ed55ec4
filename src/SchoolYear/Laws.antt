-- ===== src/SchoolYear/Laws.antt =====
-- What the getters of the school years return.
use schulcloud.Base.{
  ℕ, zero, suc, ◌<◌, ◌≤◌, String, ◌≡◌, refl, ◌⊎◌, inl, inr, Option, none, some, List, [], ◌∷◌, map,
  Bool, true, false, arith, if◌then◌else◌, ltb, leb, ◌==◌, get_elem?, length, filter, find_index,
  All, Exists, Bool-cases, Option-cases,
}
use schulcloud.SchoolYear.{
  Year, School, Value, Index, Facade, first, last, sort, override_dates, active_index, construct,
  is_active, active_year, next_year, last_year, default_year, get_next_year_after,
}

override_dates-id : (school : School) (y : Year) → override_dates school y ≡ y
unfolding override_dates
override_dates-id school y = ground arith

map-override_dates : (school : School) (ys : List Year) → map (override_dates school) ys ≡ ys
map-override_dates school [] = refl
map-override_dates school (y ∷ ys) =
    rw (override_dates-id school y, map-override_dates school ys) refl

find_index-length :
    (p : Year → Bool) (ys : List Year) (i : ℕ) → find_index p ys ≡ some i → i < length ys
find_index-length p [] i e = absurd (ground arith)
find_index-length p (y ∷ ys) i e = elim (Bool-cases (p y)) [
  | inl h ↦ ground arith
  | inr h ↦ elim (Option-cases (find_index p ys)) [
    | inl n ↦ absurd (ground arith)
    | inr (j, s) ↦ ground (arith, find_index-length p ys j s)
  ]
]

-- A getter returns a year of the list that passes the test, or null when none passes it.
pub data Found (p : Year → Bool) (years : List Year) : Value → Type 0 where
  found : (y : Year) → Exists (λ z. z ≡ y) years → p y ≡ true → Found p years (Value.year y)
  missing : All (λ y. p y ≡ false) years → Found p years Value.null

last-year : (y : Year) (ys : List Year) → (x : Year) × (last (y ∷ ys) ≡ Value.year x)
last-year y [] = (y, refl)
last-year y (z ∷ zs) = last-year z zs

module _ (p : Year → Bool) where
  Found-more :
      (z : Year) (zs : List Year) (v : Value) → p z ≡ false → Found p zs v → Found p (z ∷ zs) v
  Found-more z zs v e (found y member holds) = found y (inr member) holds
  Found-more z zs v e (missing others) = missing (e, others)

  first-Found : (ys : List Year) → Found p ys (first (filter p ys))
  first-Found [] = missing tt
  first-Found (z ∷ zs) = elim (Bool-cases (p z)) [
    | inl e ↦ rw e (found z (inl refl) e)
    | inr e ↦ rw e (Found-more z zs (first (filter p zs)) e (first-Found zs))
  ]

  Found-later :
      (z : Year) (zs : List Year) (v w : Value)
      → p z ≡ true
      → (v ≡ Value.null) × (w ≡ Value.year z) ⊎ (y : Year) × (v ≡ Value.year y) × (w ≡ v)
      → Found p zs v
      → Found p (z ∷ zs) w
  Found-later z zs v w e (inl (_, same)) h = rw same (found z (inl refl) e)
  Found-later z zs v w e (inr (y, is, same)) (found x member holds) =
      rw same (found x (inr member) holds)
  Found-later z zs v w e (inr (y, is, same)) (missing others) = absurd (ground arith)

  last-cons :
      (z : Year) (ys : List Year)
      → (last ys ≡ Value.null) × (last (z ∷ ys) ≡ Value.year z)
        ⊎ (y : Year) × (last ys ≡ Value.year y) × (last (z ∷ ys) ≡ last ys)
  last-cons z [] = inl (refl, refl)
  last-cons z (y ∷ ys) = let (x, e) = last-year y ys in inr (x, e, refl)

  last-Found : (ys : List Year) → Found p ys (last (filter p ys))
  last-Found [] = missing tt
  last-Found (z ∷ zs) = elim (Bool-cases (p z)) [
    | inl e ↦ rw e (
        Found-later z zs (last (filter p zs)) (last (z ∷ filter p zs)) e (last-cons z (filter p zs))
          (last-Found zs))
    | inr e ↦ rw e (Found-more z zs (last (filter p zs)) e (last-Found zs))
  ]

get_elem?-length : (ys : List Year) (i : ℕ) → i < length ys → (y : Year) × (get_elem? ys i ≡ some y)
get_elem?-length [] i h = absurd (omega arith)
get_elem?-length (y ∷ ys) zero h = (y, refl)
get_elem?-length (y ∷ ys) (suc i) h = get_elem?-length ys i (omega arith)

find_index-get_elem? :
    (p : Year → Bool) (ys : List Year) (i : ℕ)
    → find_index p ys ≡ some i
    → (y : Year) × (get_elem? ys i ≡ some y) × (p y ≡ true)
find_index-get_elem? p [] i e = absurd (ground arith)
find_index-get_elem? p (y ∷ ys) i e = elim (Bool-cases (p y)) [
  | inl h ↦ let at_front : i ≡ 0 = ground arith in (y, rw at_front refl, h)
  | inr h ↦ elim (Option-cases (find_index p ys)) [
    | inl n ↦ absurd (ground arith)
    | inr (j, s) ↦
        let later : i ≡ suc j = ground arith in
        let (z, there, holds) = find_index-get_elem? p ys j s in (z, rw later there, holds)
  ]
]

-- The custom years of a school never change a date: its school years are the given years, sorted by
-- name, with the dates that these have.
pub construct-custom_years :
    (greater : String → String → Bool) (years : List Year) (school : School)
    → (construct greater years (some school)).school_years
      ≡ (construct greater years none).school_years
unfolding construct
construct-custom_years greater years school = map-override_dates school (sort greater years)

-- Without a current year the getters go by the date: the active year is one whose dates enclose
-- now, the next year one that starts at now or later, the last year one that ended before now, and
-- each is null exactly when there is no such year.
pub getters-Found :
    (now : ℕ) (facade : Facade)
    → facade.active_year_index ≡ Index.unset
    → Found (is_active now) facade.school_years (active_year now facade)
      × Found (λ y. leb now y.start_date) facade.school_years (next_year now facade)
      × Found (λ y. ltb y.end_date now) facade.school_years (last_year now facade)
unfolding active_year next_year last_year
getters-Found now facade unset = rw unset (
  first-Found (is_active now) facade.school_years,
  first-Found (λ y. leb now y.start_date) facade.school_years,
  last-Found (λ y. ltb y.end_date now) facade.school_years,
)

get_elem?-beyond : (ys : List Year) (i : ℕ) → length ys ≤ i → get_elem? ys i ≡ none
get_elem?-beyond [] i h = refl
get_elem?-beyond (y ∷ ys) zero h = absurd (omega arith)
get_elem?-beyond (y ∷ ys) (suc i) h = get_elem?-beyond ys i (omega arith)

active_index-at :
    (ys : List Year) (o : Option String) (id : String) (i : ℕ)
    → o ≡ some id
    → active_index ys o ≡ Index.at i
    → find_index (λ y. y.id == id) ys ≡ some i
unfolding active_index
active_index-at ys none id i e h = absurd (ground arith)
active_index-at ys (some current) id i e h = elim (Option-cases (find_index (λ y. y.id == id) ys)) [
  | inl n ↦ absurd (ground arith)
  | inr (j, s) ↦ ground arith
]

module _ (now i : ℕ) (facade : Facade) (id : String) where
  at_current :
      find_index (λ y. y.id == id) facade.school_years ≡ some i
      → facade.active_year_index ≡ Index.at i
      → (y : Year) × (active_year now facade ≡ Value.year y)
        × (default_year now facade ≡ Value.year y)
        × ((y.id == id) ≡ true)
        × (get_next_year_after facade id ≡ (
            if ltb (suc i) (length facade.school_years)
            then next_year now facade
            else Value.undefined))
  unfolding active_year default_year get_next_year_after next_year
  at_current e h =
      let (y, there, same) = find_index-get_elem? (λ z. z.id == id) facade.school_years i e in
      let below : i < length facade.school_years =
        find_index-length (λ z. z.id == id) facade.school_years i e in
      (
        y,
        ground arith,
        ground arith,
        same,
        elim (Bool-cases (ltb (suc i) (length facade.school_years))) [
          | inl more ↦ ground arith
          | inr end ↦ ground (arith, get_elem?-beyond facade.school_years (suc i) (ground arith))
        ],
      )

-- For the current year of a school at an index of the school years: it is the active and the
-- default year; the year after it, looked up by its id, is the next year, except that for the last
-- school year the lookup gives undefined.
pub get_next_year_after-next_year :
    (now i : ℕ) (greater : String → String → Bool) (years : List Year) (school : School)
    (id : String)
    → school.current_year ≡ some id
    → (construct greater years (some school)).active_year_index ≡ Index.at i
    → (y : Year) × (active_year now (construct greater years (some school)) ≡ Value.year y)
      × (default_year now (construct greater years (some school)) ≡ Value.year y)
      × ((y.id == id) ≡ true)
      × (get_next_year_after (construct greater years (some school)) id ≡ (
          if ltb (suc i) (length (construct greater years (some school)).school_years)
          then next_year now (construct greater years (some school))
          else Value.undefined))
unfolding construct active_index
get_next_year_after-next_year now i greater years school id current h =
    at_current now i (construct greater years (some school)) id
      (active_index-at (map (override_dates school) (sort greater years)) school.current_year id i
        current h)
      h
