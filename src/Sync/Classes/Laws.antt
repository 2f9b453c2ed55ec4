-- ===== src/Sync/Classes/Laws.antt =====
-- The name of a class is read back from its grade and what follows it.
use Prim.Native.Char.{Char, code}
use schulcloud.Base.{
  ℕ, zero, suc, String, ◌≡◌, refl, ap, ◌∙◌, none, some, true, false, nat_eq, arith, ◌≤◌,
}
use schulcloud.Sync.Classes.{
  is_class_part, drop_zeros, two_digits, one_digit, or_else, grade_of, grade_format, values,
  class_object_from_name,
}

-- The grades from 1 to 13, as they are written.
pub data IsGrade : String → Type 0 where
  units : (d : Char) → b'1' ≤ code d → code d ≤ b'9' → IsGrade (String.◌∷◌ d "")
  tens :
      (c d : Char)
      → code c ≡ b'1'
      → b'0' ≤ code d
      → code d ≤ b'3'
      → IsGrade (String.◌∷◌ c (String.◌∷◌ d ""))

abbrev pub zeros : ℕ → String → String
zeros zero s = s
zeros (suc n) s = String.◌∷◌ "0" (zeros n s)

-- One text after the other.
abbrev pub concat : String → String → String
concat String.[] t = t
concat (String.◌∷◌ c s) t = String.◌∷◌ c (concat s t)

drop_zeros-zeros : (n : ℕ) (s : String) → drop_zeros (zeros n s) ≡ drop_zeros s
unfolding drop_zeros
drop_zeros-zeros zero s = refl
drop_zeros-zeros (suc n) s = drop_zeros-zeros n s

drop_zeros_stops :
    (c : Char) (s : String)
    → nat_eq (code c) b'0' ≡ false
    → drop_zeros (String.◌∷◌ c s) ≡ String.◌∷◌ c s
unfolding drop_zeros
drop_zeros_stops c s e = rw e refl

two_digits-units :
    (d : Char) (part : String) → is_class_part part ≡ true → two_digits (String.◌∷◌ d part) ≡ none
unfolding two_digits is_class_part
two_digits-units d (String.[]) h = refl
two_digits-units d (String.◌∷◌ c s) h = ground arith

one_digit-units :
    (d : Char) (part : String)
    → b'1' ≤ code d
    → code d ≤ b'9'
    → is_class_part part ≡ true
    → one_digit (String.◌∷◌ d part) ≡ some (String.◌∷◌ d "", part)
unfolding one_digit
one_digit-units d part l u h = ground arith

two_digits-tens :
    (c d : Char) (part : String)
    → code c ≡ b'1'
    → b'0' ≤ code d
    → code d ≤ b'3'
    → is_class_part part ≡ true
    → two_digits (String.◌∷◌ c (String.◌∷◌ d part)) ≡ some (String.◌∷◌ c (String.◌∷◌ d ""), part)
unfolding two_digits
two_digits-tens c d part e l u h = ground arith

grade_format_lem :
    (n : ℕ) (grade part : String)
    → IsGrade grade
    → is_class_part part ≡ true
    → grade_format (zeros n (concat grade part)) ≡ some (grade, part)
unfolding grade_format
grade_format_lem n grade part (units d l u) h =
    ap grade_of (drop_zeros-zeros n (String.◌∷◌ d part) ∙ drop_zeros_stops d part (ground arith))
    ∙ ap (λ o. or_else o (one_digit (String.◌∷◌ d part))) (two_digits-units d part h)
    ∙ one_digit-units d part l u h
grade_format_lem n grade part (tens c d e l u) h =
    ap grade_of (
      drop_zeros-zeros n (String.◌∷◌ c (String.◌∷◌ d part))
      ∙ drop_zeros_stops c (String.◌∷◌ d part) (ground arith))
    ∙ ap (λ o. or_else o (one_digit (String.◌∷◌ c (String.◌∷◌ d part))))
        (two_digits-tens c d part e l u h)

-- A grade from 1 to 13, behind any number of zeros, and a rest that starts with no digit and has no
-- line end are read back as they were written.
pub class_object_from_name-print :
    (n : ℕ) (grade part : String)
    → IsGrade grade
    → is_class_part part ≡ true
    → class_object_from_name (zeros n (concat grade part))
      ≡ record { name = part; grade_level = some grade }
unfolding class_object_from_name
class_object_from_name-print n grade part g h =
    ap (values (zeros n (concat grade part))) (grade_format_lem n grade part g h)
