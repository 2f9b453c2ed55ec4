-- ===== src/Consent/Tests.antt =====
-- The consent of a teenager, and the filter at concrete statuses.
use schulcloud.Base.{
  Has, ℕ, ◌*◌, ◌≡◌, refl, ◌↔◌, ◌-◌, ◌⊎◌, inl, some, [], ◌∷◌, true, arith, err, type_error,
}
use schulcloud.Consent.{
  Agreement, Consent, Status, Ages, define_consent_status, is_parent_consent_required,
  check_parent_consent, check_user_consent,
}
use schulcloud.Consent.Filter.{create_consent_filter_query}
use schulcloud.Consent.Laws.{
  Complete, ParentsAgree, define_consent_status_iff, is_parent_consent_required-ParentsAgree,
  create_consent_filter_query_iff,
}

abbrev ages : Ages
ages = record { first = 14; second = 16 }

-- A calendar of 100 units a year, in the year 2021.
abbrev years_ago : ℕ → ℕ
years_ago n = 202100 - n * 100

abbrev given : Agreement
given = record { privacy_consent = true; terms_of_use_consent = true }

abbrev consent : Consent
consent = record { user_consent = some given; parent_consents = some (given ∷ []) }

define_consent_status_iff_example :
    (define_consent_status years_ago ages (some 200600) (some consent) ≡ Status.ok)
    ↔ Complete years_ago ages (some 200600) consent
define_consent_status_iff_example = define_consent_status_iff years_ago ages (some 200600) consent

required : is_parent_consent_required years_ago ages (some 200600) ≡ some true
unfolding is_parent_consent_required
required = refl

status : define_consent_status years_ago ages (some 200600) (some consent) ≡ Status.ok
unfolding define_consent_status check_parent_consent check_user_consent
status = refl

is_parent_consent_required-ParentsAgree_run : ParentsAgree consent
is_parent_consent_required-ParentsAgree_run =
    is_parent_consent_required-ParentsAgree years_ago ages 200600 consent (omega arith) required
      (inl status)

create_consent_filter_query_iff_run :
    (create_consent_filter_query 10 20 [] ("ok" ∷ "missing" ∷ []) ≡ err type_error)
    ↔ (Has ("ok" ∷ "missing" ∷ []) "missing" ⊎ Has ("ok" ∷ "missing" ∷ []) "parentAgree")
create_consent_filter_query_iff_run =
    create_consent_filter_query_iff 10 20 ("ok" ∷ "missing" ∷ []) []
