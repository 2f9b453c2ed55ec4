-- ===== src/Consent/Filter.antt =====
-- `createConsentFilterQuery` of src/services/consent/utils/consent.js. The reducers of
-- `createRequiredConsents` and `createMissingConsents` take the accumulator and the person in the
-- wrong order, and the model follows them: a field that is set on a text is lost, and a field that is
-- read from it is undefined.
use schulcloud.Base.{
  ℕ, String, Option, none, some, List, [], ◌∷◌, ◌++◌, if◌then◌else◌, ◌==◌, Result, ok, err,
  type_error, ◌>>=◌,
}

-- What the object of one condition is made of: the characters of a text that is spread into it,
-- and the bounds on the birthday.
pub record Condition : Type 0 where
  pub spread : Option String
  pub at_least : Option ℕ
  pub above : Option ℕ
  pub at_most : Option ℕ
  pub below : Option ℕ

-- The accumulator of the reducer: the object at the start, then a person's name.
unfoldable pub create_required_consents : Option String → List String → Option String
create_required_consents person [] = person
create_required_consents person (current ∷ rest) = create_required_consents (some current) rest

-- `current.$or` of a text is undefined, and so is its push.
unfoldable pub create_missing_consents : List String → Result (Option String)
create_missing_consents [] = ok none
create_missing_consents (current ∷ rest) = err type_error

module _ (first_switch second_switch : ℕ) where
  abbrev old : Option String → Condition
  old s = record {
    spread = s;
    at_least = some second_switch;
    above = none;
    at_most = none;
    below = none;
  }

  abbrev middle : Option String → Condition
  middle s = record {
    spread = s;
    at_least = none;
    above = some first_switch;
    at_most = some second_switch;
    below = none;
  }

  abbrev young : Option String → Condition
  young s = record {
    spread = s;
    at_least = none;
    above = none;
    at_most = none;
    below = some first_switch;
  }

  unfoldable pub conditions_of : String → Result (List Condition)
  conditions_of stat =
      if stat == "missing"
      then (do
        a ← create_missing_consents ("userConsent" ∷ [])
        b ← create_missing_consents ("parentConsents" ∷ [])
        c ← create_missing_consents ("parentConsents" ∷ [])
        ok (old a ∷ middle b ∷ young c ∷ []))
      else if stat == "parentAgree"
      then (do
        let a = create_required_consents none ("parentConsents" ∷ [])
        b ← create_missing_consents ("userConsent" ∷ [])
        ok (middle b ∷ []))
      else if stat == "ok"
      then ok (
          old (create_required_consents none ("userConsent" ∷ []))
          ∷ middle (create_required_consents none ("userConsent" ∷ "parentConsents" ∷ []))
          ∷ young (create_required_consents none ("parentConsents" ∷ []))
          ∷ [])
      else ok []

  unfoldable pub create_consent_filter_query :
      List Condition → List String → Result (List Condition)
  create_consent_filter_query query [] = ok query
  create_consent_filter_query query (stat ∷ rest) = do
    conditions ← conditions_of stat
    create_consent_filter_query (query ++ conditions) rest
