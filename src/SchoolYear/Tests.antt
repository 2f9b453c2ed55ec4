-- ===== src/SchoolYear/Tests.antt =====
-- The getters of the school years at three concrete years.
use schulcloud.Base.{
  String, ◌≡◌, refl, none, some, List, [], ◌∷◌, Bool, true, ◌&&◌, ◌||◌, if◌then◌else◌, ◌==◌, leb,
  ltb, length,
}
use schulcloud.SchoolYear.{
  Year, School, Value, Index, sort, insert, custom_years_of, override_dates, active_index,
  construct, is_active, active_year, next_year, last_year, default_year, get_next_year_after,
}
use schulcloud.SchoolYear.Laws.{
  Found, construct-custom_years, getters-Found, get_next_year_after-next_year,
}

abbrev year_20 : Year
year_20 = record { id = "a"; name = "2020/21"; start_date = 10; end_date = 19 }

abbrev year_21 : Year
year_21 = record { id = "b"; name = "2021/22"; start_date = 20; end_date = 29 }

abbrev year_22 : Year
year_22 = record { id = "c"; name = "2022/23"; start_date = 30; end_date = 39 }

abbrev greater : String → String → Bool
greater a b =
    a == "2021/22" && b == "2020/21" || a == "2022/23" && (b == "2020/21" || b == "2021/22")

abbrev years : List Year
years = year_21 ∷ year_22 ∷ year_20 ∷ []

abbrev school : School
school = record { custom_years = []; current_year = some "b" }

abbrev open_school : School
open_school = record { custom_years = []; current_year = none }

sorted : sort greater years ≡ year_20 ∷ year_21 ∷ year_22 ∷ []
unfolding sort insert
sorted = refl

no_current : (construct greater years (some open_school)).active_year_index ≡ Index.unset
unfolding construct active_index
no_current = refl

getters-Found_run :
    Found
      (is_active 25)
      (construct greater years (some open_school)).school_years
      (active_year 25 (construct greater years (some open_school)))
    × Found
        (λ y. leb 25 y.start_date)
        (construct greater years (some open_school)).school_years
        (next_year 25 (construct greater years (some open_school)))
    × Found
        (λ y. ltb y.end_date 25)
        (construct greater years (some open_school)).school_years
        (last_year 25 (construct greater years (some open_school)))
getters-Found_run = getters-Found 25 (construct greater years (some open_school)) no_current

current_index : (construct greater years (some school)).active_year_index ≡ Index.at 1
unfolding construct active_index sort insert override_dates custom_years_of
current_index = refl

get_next_year_after-next_year_run :
    (y : Year) × (active_year 25 (construct greater years (some school)) ≡ Value.year y)
    × (default_year 25 (construct greater years (some school)) ≡ Value.year y)
    × ((y.id == "b") ≡ true)
    × (get_next_year_after (construct greater years (some school)) "b" ≡ (
        if ltb 2 (length (construct greater years (some school)).school_years)
        then next_year 25 (construct greater years (some school))
        else Value.undefined))
get_next_year_after-next_year_run =
    get_next_year_after-next_year 25 1 greater years school "b" refl current_index

construct-custom_years_run :
    (construct greater years (some school)).school_years
    ≡ (construct greater years none).school_years
construct-custom_years_run = construct-custom_years greater years school
