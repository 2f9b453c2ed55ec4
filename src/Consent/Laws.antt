-- ===== src/Consent/Laws.antt =====
-- When a consent is complete, and when the filter for consents fails.
use schulcloud.Base.{
  ℕ, String, ◌≡◌, refl, ◌↔◌, ◌⊎◌, inl, inr, ◌≤◌, ◌<◌, Option, none, some, List, [], ◌∷◌, ◌++◌, true,
  arith, ltb, leb, ◌==◌, length, filter, All, Bool-cases, Option-cases, ok, err, type_error,
  Result-cases, Has, eq_iff,
}
use schulcloud.Consent.{
  Agreement, Consent, Status, Ages, agrees, check_parent_consent, check_user_consent,
  define_consent_status, is_parent_consent_required,
}
use schulcloud.Consent.Filter.{
  Condition, create_missing_consents, conditions_of, create_consent_filter_query,
}

-- The user gave both consents.
abbrev pub UserAgrees : Consent → Type 0
UserAgrees consent = (a : Agreement) × (consent.user_consent ≡ some a) × (agrees a ≡ true)

-- There is a consent of a parent, and each of them has both parts.
abbrev AllAgree : Option (List Agreement) → Type 0
AllAgree o =
    (a : Agreement) × (rest : List Agreement) × (o ≡ some (a ∷ rest))
    × All (λ b. agrees b ≡ true) (a ∷ rest)

abbrev pub ParentsAgree : Consent → Type 0
ParentsAgree consent = AllAgree consent.parent_consents

length-filter : (l : List Agreement) → length (filter agrees l) ≤ length l
length-filter [] = omega arith
length-filter (a ∷ l) = ground (arith, length-filter l)

filter-All :
    (l : List Agreement) → (length (filter agrees l) ≡ length l) ↔ All (λ b. agrees b ≡ true) l
filter-All [] = (λ h. tt, λ h. refl)
filter-All (a ∷ l) = ground (arith, filter-All l, length-filter l)

check_user_consent_iff :
    (consent : Consent) → (check_user_consent consent.user_consent ≡ true) ↔ UserAgrees consent
unfolding check_user_consent
check_user_consent_iff consent = elim (Option-cases consent.user_consent) [
  | inl e ↦ ground arith
  | inr (a, e) ↦ ground arith
]

check_parent_consent-AllAgree :
    (o : Option (List Agreement)) → (check_parent_consent o ≡ true) ↔ AllAgree o
unfolding check_parent_consent
check_parent_consent-AllAgree none = (λ h. cc, λ (a, rest, e, h). cc)
check_parent_consent-AllAgree (some []) = (λ h. cc, λ (a, rest, e, h). cc)
check_parent_consent-AllAgree (some (a ∷ rest)) = (
  λ h. (a, rest, refl, ground (arith, filter-All rest, length-filter rest)),
  λ (b, others, e, h).
      let counted : length (filter agrees (a ∷ rest)) ≡ length (a ∷ rest) =
        ground (arith, filter-All (b ∷ others)) in
      ground arith,
)

-- What each age group needs.
pub data Complete (years_ago : ℕ → ℕ) (ages : Ages) : Option ℕ → Consent → Type 0 where
  no_birthday : (c : Consent) → UserAgrees c → Complete years_ago ages none c
  child :
      (birthday : ℕ) (c : Consent)
      → years_ago ages.first < birthday
      → ParentsAgree c
      → Complete years_ago ages (some birthday) c
  teenager :
      (birthday : ℕ) (c : Consent)
      → birthday ≤ years_ago ages.first
      → years_ago ages.second < birthday
      → ParentsAgree c
      → UserAgrees c
      → Complete years_ago ages (some birthday) c
  grown_up :
      (birthday : ℕ) (c : Consent)
      → birthday ≤ years_ago ages.first
      → birthday ≤ years_ago ages.second
      → UserAgrees c
      → Complete years_ago ages (some birthday) c

module _ (years_ago : ℕ → ℕ) (ages : Ages) where
  define_consent_status-Complete :
      (birthday : Option ℕ) (c : Consent)
      → define_consent_status years_ago ages birthday (some c) ≡ Status.ok
      → Complete years_ago ages birthday c
  unfolding define_consent_status
  define_consent_status-Complete none c h = no_birthday c (ground (arith, check_user_consent_iff c))
  define_consent_status-Complete (some birthday) c h =
      elim (Bool-cases (ltb (years_ago ages.first) birthday)) [
        | inl young ↦
            child birthday c (ground arith)
              (ground (arith, check_parent_consent-AllAgree c.parent_consents))
        | inr older ↦ elim (Bool-cases (leb birthday (years_ago ages.second))) [
          | inl old ↦
              grown_up birthday c (ground arith) (ground arith)
                (ground (arith, check_user_consent_iff c))
          | inr middle ↦
              teenager birthday c (ground arith) (ground arith)
                (ground (arith, check_parent_consent-AllAgree c.parent_consents))
                (ground (arith, check_user_consent_iff c))
        ]
      ]

  Complete-ok :
      (birthday : Option ℕ) (c : Consent)
      → Complete years_ago ages birthday c
      → define_consent_status years_ago ages birthday (some c) ≡ Status.ok
  unfolding define_consent_status
  Complete-ok _ _ (no_birthday c u) = ground (arith, check_user_consent_iff c)
  Complete-ok _ _ (child birthday c y p) =
      ground (arith, check_parent_consent-AllAgree c.parent_consents)
  Complete-ok _ _ (teenager birthday c o m p u) =
      ground (arith, check_parent_consent-AllAgree c.parent_consents, check_user_consent_iff c)
  Complete-ok _ _ (grown_up birthday c o m u) = ground (arith, check_user_consent_iff c)

  -- The consent status of a user with a consent is ok exactly if everyone who has to agree did:
  -- without a birthday the user; below the first age all the parents, of which there is one at
  -- least; from the second age on the user; and between the ages the parents and the user.
  pub define_consent_status_iff :
      (birthday : Option ℕ) (c : Consent)
      → (define_consent_status years_ago ages birthday (some c) ≡ Status.ok)
        ↔ Complete years_ago ages birthday c
  define_consent_status_iff birthday c =
      (define_consent_status-Complete birthday c, Complete-ok birthday c)

  -- Where the parents' consent is required, a status that is ok has it, and so has one that says
  -- that the parents agreed. The second age has to be the later one.
  pub is_parent_consent_required-ParentsAgree :
      (birthday : ℕ) (c : Consent)
      → years_ago ages.second ≤ years_ago ages.first
      → is_parent_consent_required years_ago ages (some birthday) ≡ some true
      → (define_consent_status years_ago ages (some birthday) (some c) ≡ Status.ok)
        ⊎ (define_consent_status years_ago ages (some birthday) (some c) ≡ Status.parents_agreed)
      → ParentsAgree c
  unfolding is_parent_consent_required define_consent_status
  is_parent_consent_required-ParentsAgree birthday c order required status =
      elim (Bool-cases (check_parent_consent c.parent_consents)) [
        | inl agreed ↦ ground (arith, check_parent_consent-AllAgree c.parent_consents)
        | inr refused ↦ absurd (ground arith)
      ]

module _ (first_switch second_switch : ℕ) where
  conditions_of_iff :
      (stat : String)
      → (conditions_of first_switch second_switch stat ≡ err type_error)
        ↔ ((stat ≡ "missing") ⊎ (stat ≡ "parentAgree"))
  unfolding conditions_of create_missing_consents
  conditions_of_iff stat = elim (Bool-cases (stat == "missing")) [
    | inl e ↦ ground (arith, eq_iff stat "missing")
    | inr e ↦ elim (Bool-cases (stat == "parentAgree")) [
      | inl e2 ↦ ground (arith, eq_iff stat "parentAgree")
      | inr e2 ↦ ground (arith, eq_iff stat "parentAgree", eq_iff stat "missing")
    ]
  ]

  conditions_of-cases :
      (stat : String)
      → ((l : List Condition) × (conditions_of first_switch second_switch stat ≡ ok l))
        ⊎ (conditions_of first_switch second_switch stat ≡ err type_error)
  unfolding conditions_of create_missing_consents
  conditions_of-cases stat = elim (Result-cases (conditions_of first_switch second_switch stat)) [
    | inl good ↦ inl good
    | inr (e, h) ↦ elim (Bool-cases (stat == "missing")) [
      | inl m ↦ inr (rw m refl)
      | inr m ↦ elim (Bool-cases (stat == "parentAgree")) [
        | inl p ↦ inr (rw (m, p) refl)
        | inr p ↦ elim (Bool-cases (stat == "ok")) [
          | inl k ↦ absurd (ground arith)
          | inr k ↦ absurd (ground arith)
        ]
      ]
    ]
  ]

  -- The filter for consents throws exactly if it is asked for the consents that are missing or for
  -- those where the parents agreed.
  pub create_consent_filter_query_iff :
      (statuses : List String) (query : List Condition)
      → (create_consent_filter_query first_switch second_switch query statuses ≡ err type_error)
        ↔ (Has statuses "missing" ⊎ Has statuses "parentAgree")
  unfolding create_consent_filter_query
  create_consent_filter_query_iff [] query = ground arith
  create_consent_filter_query_iff (stat ∷ rest) query = elim (conditions_of-cases stat) [
    | inl (l, e) ↦
        ground (arith, conditions_of_iff stat, create_consent_filter_query_iff rest (query ++ l))
    | inr e ↦ ground (arith, conditions_of_iff stat)
  ]
