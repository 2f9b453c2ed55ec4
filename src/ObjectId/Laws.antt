-- ===== src/ObjectId/Laws.antt =====
-- What a successful comparison of ids means.
use schulcloud.Base.{
  String, ◌≡◌, refl, true, false, ◌↔◌, Option, none, some, ap, arith, eq_iff, to_string,
}
use schulcloud.ObjectId.{is_valid, equal}

pub equal_iff : (a b : String) → (equal a b ≡ true) ↔ (is_valid a ≡ true) × (a ≡ b)
unfolding equal
equal_iff a b = ground (arith, eq_iff a b)

pub equal-eq : (a b : String) → equal a b ≡ true → a ≡ b
equal-eq a b h = ((equal_iff a b).0 h).1

equal_undefined : (b : String) → equal "undefined" b ≡ false
unfolding equal is_valid
equal_undefined b = refl

-- A missing id equals nothing, since its text is no valid id.
pub equal-to_string : (o : Option String) (b : String) → equal (to_string o) b ≡ true → o ≡ some b
equal-to_string none b h = cc (equal_undefined b)
equal-to_string (some a) b h = ap some (equal-eq a b h)

abbrev sample_id : String
sample_id = "0000dcfbfb5c7a3f00bf21ab"

equal_tests : equal sample_id sample_id ≡ true
unfolding equal is_valid
equal_tests = refl
