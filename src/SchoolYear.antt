-- ===== src/SchoolYear.antt =====
-- The school years of src/services/school/logic/year.js: the class SchoolYearFacade.
mod Laws
pub mod Tests
use schulcloud.Base.{
  ℕ, suc, ◌-◌, String, Option, none, some, List, [], ◌∷◌, map, Bool, true, false, not, ◌&&◌,
  if◌then◌else◌, ltb, leb, nat_eq, ◌==◌, get_elem?, length, filter, find_index,
}

pub record Year : Type 0 where
  id : String
  name : String
  start_date : ℕ
  end_date : ℕ

-- An override of the dates of a year, as a school stores it.
pub record CustomYear : Type 0 where
  id : String
  start_date : Option ℕ
  end_date : Option ℕ

pub record School : Type 0 where
  custom_years : List CustomYear
  current_year : Option String

-- What a getter returns. An index outside of an array gives undefined.
pub data Value : Type 0 where
  null undefined : Value
  year : Year → Value

abbrev pub is_truthy : Value → Bool
is_truthy Value.null = false
is_truthy Value.undefined = false
is_truthy (Value.year y) = true

-- `this.activeYearIndex`, which stays undefined without a current year, and is -1 when no school
-- year is the current one.
pub data Index : Type 0 where
  unset minus_one : Index
  at : ℕ → Index

pub record Facade : Type 0 where
  school_years : List Year
  active_year_index : Index

abbrev pub at_index : List Year → ℕ → Value
at_index years i = elim (get_elem? years i) [ none ↦ Value.undefined | some y ↦ Value.year y ]

abbrev pub first : List Year → Value
first [] = Value.null
first (y ∷ ys) = Value.year y

abbrev pub last : List Year → Value
last [] = Value.null
last (y ∷ ys) = elim ys [ [] ↦ Value.year y | _ ∷ _ ↦ last ys ]

-- The sort of the language is stable. `greater a b` stands for `a.localeCompare(b) > 0`.
module _ (greater : String → String → Bool) where
  unfoldable pub insert : Year → List Year → List Year
  insert y [] = y ∷ []
  insert y (z ∷ zs) =
      let rest = insert y zs in if greater y.name z.name then z ∷ rest else y ∷ z ∷ zs

  unfoldable pub sort : List Year → List Year
  sort [] = []
  sort (y ∷ ys) = insert y (sort ys)

unfoldable pub custom_years_of : School → String → List CustomYear
custom_years_of school id = filter (λ c. c.id == id) school.custom_years

-- `customYearForYear.startDate` is read from an array, which has no such field.
abbrev pub field_of_array : List CustomYear → Option ℕ
field_of_array _ = none

unfoldable pub override_dates : School → Year → Year
override_dates school y =
    let custom = custom_years_of school y.id in
    if not (nat_eq (length custom) 0)
    then record {
      id = y.id;
      name = y.name;
      start_date = elim (field_of_array custom) [ none ↦ y.start_date | some d ↦ d ];
      end_date = elim (field_of_array custom) [ none ↦ y.end_date | some d ↦ d ];
    }
    else y

unfoldable pub active_index : List Year → Option String → Index
active_index years none = unset
active_index years (some id) = elim (find_index (λ y. y.id == id) years) [
  | none ↦ minus_one
  | some i ↦ at i
]

-- `new SchoolYearFacade(years, school)`
unfoldable pub construct : (String → String → Bool) → List Year → Option School → Facade
construct greater years none = record {
  school_years = sort greater years;
  active_year_index = unset;
}
construct greater years (some school) =
    let own = map (override_dates school) (sort greater years) in
    record { school_years = own; active_year_index = active_index own school.current_year }

abbrev pub is_active : ℕ → Year → Bool
is_active now y = leb y.start_date now && leb now y.end_date

unfoldable pub active_year : ℕ → Facade → Value
active_year now facade = elim facade.active_year_index [
  | unset ↦ first (filter (is_active now) facade.school_years)
  | minus_one ↦ Value.undefined
  | at i ↦ at_index facade.school_years i
]

abbrev pub year_to_come : ℕ → List Year → Value
year_to_come now years = first (filter (λ y. leb now y.start_date) years)

-- With the index -1 the next year is the one at 0, when there is one.
unfoldable pub next_year : ℕ → Facade → Value
next_year now facade = elim facade.active_year_index [
  | unset ↦ year_to_come now facade.school_years
  | minus_one ↦
      if ltb 0 (length facade.school_years)
      then at_index facade.school_years 0
      else year_to_come now facade.school_years
  | at i ↦
      if ltb (suc i) (length facade.school_years)
      then at_index facade.school_years (suc i)
      else year_to_come now facade.school_years
]

abbrev pub year_gone : ℕ → List Year → Value
year_gone now years = last (filter (λ y. ltb y.end_date now) years)

-- With the index -1 the last year is the one at -2, which is undefined.
unfoldable pub last_year : ℕ → Facade → Value
last_year now facade = elim facade.active_year_index [
  | unset ↦ year_gone now facade.school_years
  | minus_one ↦ Value.undefined
  | at i ↦
      if not (nat_eq i 0)
      then at_index facade.school_years (i - 1)
      else year_gone now facade.school_years
]

unfoldable pub default_year : ℕ → Facade → Value
default_year now facade =
    if is_truthy (active_year now facade) then active_year now facade else next_year now facade

unfoldable pub get_next_year_after : Facade → String → Value
get_next_year_after facade year_id = elim (find_index (λ y. y.id == year_id) facade.school_years) [
  | none ↦ Value.null
  | some i ↦
      if ltb (length facade.school_years) (suc i)
      then Value.null
      else at_index facade.school_years (suc i)
]
