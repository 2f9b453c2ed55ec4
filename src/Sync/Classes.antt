-- ===== src/Sync/Classes.antt =====
-- src/services/user-group/logic/classes.js: the grade and the name that the name of a class is made
-- of.
pub mod Laws
use Prim.Native.Char.{code}
use Prim.Native.String
use schulcloud.Base.{
  ℕ, String, Option, none, some, List, [], ◌∷◌, all, Bool, true, false, not, ◌&&◌, ◌||◌, leb,
  nat_eq, if◌then◌else◌,
}
use schulcloud.ObjectId.{codes}

abbrev pub is_digit : ℕ → Bool
is_digit c = leb b'0' c && leb c b'9'

-- What `.` does not match.
abbrev pub is_line_end : ℕ → Bool
is_line_end c = nat_eq c b'\n' || nat_eq c b'\r' || nat_eq c 8232 || nat_eq c 8233

-- `\D.*` up to the end.
unfoldable pub is_class_part : String → Bool
is_class_part String.[] = false
is_class_part (String.◌∷◌ c s) = not (is_digit (code c)) && all (λ d. not (is_line_end d)) (codes s)

-- `^(?:0)*`
unfoldable pub drop_zeros : String → String
drop_zeros String.[] = ""
drop_zeros (String.◌∷◌ c s) =
    let rest = drop_zeros s in if nat_eq (code c) b'0' then rest else String.◌∷◌ c s

-- `1[0-3]`, and what follows.
unfoldable pub two_digits : String → Option (String × String)
two_digits (String.◌∷◌ c (String.◌∷◌ d s)) =
    if nat_eq (code c) b'1' && leb b'0' (code d) && leb (code d) b'3' && is_class_part s
    then some (String.◌∷◌ c (String.◌∷◌ d ""), s)
    else none
two_digits _ = none

-- `[1-9]`, and what follows.
unfoldable pub one_digit : String → Option (String × String)
one_digit (String.◌∷◌ c s) =
    if leb b'1' (code c) && leb (code c) b'9' && is_class_part s
    then some (String.◌∷◌ c "", s)
    else none
one_digit _ = none

abbrev pub or_else {ℓ} : {A : Type ℓ} → Option A → Option A → Option A
or_else (some x) y = some x
or_else none y = y

abbrev pub grade_of : String → Option (String × String)
grade_of s = or_else (two_digits s) (one_digit s)

-- The first format.
unfoldable pub grade_format : String → Option (String × String)
grade_format name = grade_of (drop_zeros name)

pub record ClassName : Type 0 where
  pub name : String
  pub grade_level : Option String

-- The second format takes every name.
abbrev pub values : String → Option (String × String) → ClassName
values name (some (grade, part)) = record { name = part; grade_level = some grade }
values name none = record { name = name; grade_level = none }

unfoldable pub class_object_from_name : String → ClassName
class_object_from_name name = values name (grade_format name)
