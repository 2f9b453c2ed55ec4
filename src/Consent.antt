-- ===== src/Consent.antt =====
-- src/services/consent/utils/consent.js: the consents that a user and the parents give. A time is a
-- number of milliseconds from an origin before every date.
pub mod Filter
mod Laws
mod Tests
use schulcloud.Base.{
  ℕ, Option, none, some, List, [], ◌∷◌, Bool, true, false, not, ◌&&◌, if◌then◌else◌, ltb, leb,
  nat_eq, length, filter,
}

-- One consent; a field that is missing counts as false.
pub record Agreement : Type 0 where
  pub privacy_consent : Bool
  pub terms_of_use_consent : Bool

pub record Consent : Type 0 where
  pub user_consent : Option Agreement
  pub parent_consents : Option (List Agreement)

pub data Status : Type 0 where
  ok unknown missing parents_agreed : Status

-- CONSENT_AGE_FIRST and CONSENT_AGE_SECOND.
pub record Ages : Type 0 where
  pub first : ℕ
  pub second : ℕ

abbrev pub agrees : Agreement → Bool
agrees a = a.privacy_consent && a.terms_of_use_consent

unfoldable pub check_parent_consent : Option (List Agreement) → Bool
check_parent_consent none = false
check_parent_consent (some consents) =
    not (nat_eq (length consents) 0) && nat_eq (length (filter agrees consents)) (length consents)

unfoldable pub check_user_consent : Option Agreement → Bool
check_user_consent none = false
check_user_consent (some a) = agrees a

-- `years_ago n` stands for the date of today with the year set to n years before.
module _ (years_ago : ℕ → ℕ) (ages : Ages) where
  unfoldable pub define_consent_status : Option ℕ → Option Consent → Status
  define_consent_status birthday none = missing
  define_consent_status none (some consent) =
      if check_user_consent consent.user_consent then ok else unknown
  define_consent_status (some birthday) (some consent) =
      if ltb (years_ago ages.first) birthday
      then if check_parent_consent consent.parent_consents then ok else missing
      else if leb birthday (years_ago ages.second)
      then if check_user_consent consent.user_consent then ok else missing
      else if check_parent_consent consent.parent_consents
      then if check_user_consent consent.user_consent then ok else parents_agreed
      else missing

  -- none for a birthday that is no date
  unfoldable pub is_parent_consent_required : Option ℕ → Option Bool
  is_parent_consent_required none = none
  is_parent_consent_required (some birthday) = some (not (leb birthday (years_ago ages.second)))
