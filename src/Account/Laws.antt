-- ===== src/Account/Laws.antt =====
-- Who may query, change and give a password to an account.
use schulcloud.Base.{
  String, ◌≡◌, ◌↔◌, refl, ◌⊎◌, inl, inr, none, some, List, any, Bool, true, false, not, ◌&&◌, ◌||◌,
  ◌==◌, arith, if◌then◌else◌, truthy, Result, ok, err, bad_request, forbidden, Bool-cases,
}
use schulcloud.Account.{
  Field, missing, other, text, Query, is_given, is_text, kept, restrict_access, PasswordChange,
  is_free, validate_password,
}

kept-given : (f : Field) → is_given f ≡ true → kept f ≡ f
kept-given f h = rw h refl

kept-missing : (f : Field) → is_given f ≡ false → kept f ≡ missing
kept-missing f h = rw h refl

given_text :
    (f : Field)
    → is_given f ≡ true
    → is_given f && not (is_text f) ≡ false
    → (s : String) × (f ≡ text s) × (truthy (some s) ≡ true)
given_text missing a c = absurd (ground arith)
given_text other a c = absurd (ground arith)
given_text (text s) a c = (s, refl, a)

module _ (is_object_id : Field → Bool) where
  -- The query names a user by a value that mongoose takes for an id, or by a name, and nothing that
  -- is no text.
  abbrev pub NamedBy : Field → Field → Type 0
  NamedBy user_id username =
      ((is_given user_id ≡ true)
        × (is_object_id user_id ≡ true)
        × ((username ≡ missing) ⊎ ((name : String) × (username ≡ text name))))
      ⊎ (user_id ≡ missing)
        × ((name : String) × (username ≡ text name) × (truthy (some name) ≡ true))

  abbrev pub Named : Query → Type 0
  Named query = NamedBy query.user_id query.username

  kept-NamedBy :
      (user_id username : Field)
      → not (is_given user_id) && not (is_given username) ≡ false
      → is_given user_id && not (is_object_id user_id) ≡ false
      → is_given username && not (is_text username) ≡ false
      → NamedBy (kept user_id) (kept username)
  kept-NamedBy user n a b c = elim (Bool-cases (is_given user)) [
    | inl t ↦
        let valid : is_object_id user ≡ true = ground arith in
        rw (kept-given user t) (
          inl (
            t,
            valid,
            elim (Bool-cases (is_given n)) [
              | inl g ↦ let (name, e, h) = given_text n g c in rw (kept-given n g) (inr (name, e))
              | inr g ↦ inl (kept-missing n g)
            ],
          ))
    | inr f ↦
        let g : is_given n ≡ true = ground arith in
        rw (kept-missing user f) (rw (kept-given n g) (inr (refl, given_text n g c)))
  ]

  -- A query that is let through for a user who is no superhero names a user by a value that mongoose
  -- takes for an id, with a name or none beside it, or by a name alone; and for a student it is a
  -- query for the student's own account.
  pub restrict_access-Named :
      (roles : List String) (account : String) (query result : Query)
      → any (λ r. r == "superhero") roles ≡ false
      → restrict_access is_object_id roles account query ≡ ok result
      → Named result × ((any (λ r. r == "student") roles ≡ false) ⊎ (result.id ≡ some account))
  unfolding restrict_access
  restrict_access-Named roles account query result plain h =
      elim (Bool-cases (not (is_given query.user_id) && not (is_given query.username))) [
        | inl a ↦ absurd (ground arith)
        | inr a ↦ elim (Bool-cases (is_given query.user_id && not (is_object_id query.user_id))) [
          | inl b ↦ absurd (ground arith)
          | inr b ↦ elim (Bool-cases (is_given query.username && not (is_text query.username))) [
            | inl c ↦ absurd (ground arith)
            | inr c ↦
                let sent : Query = record {
                  id = if any (λ r. r == "student") roles then some account else none;
                  user_id = kept query.user_id;
                  username = kept query.username;
                } in
                let same : sent ≡ result = ground arith in
                rw (← same) (
                  kept-NamedBy query.user_id query.username a b c,
                  elim (Bool-cases (any (λ r. r == "student") roles)) [
                    | inl s ↦ inr (rw s refl)
                    | inr s ↦ inl s
                  ],
                )
          ]
        ]
      ]

abbrev verdict : Bool → Bool → Bool → Bool → Bool → Bool → Result (Unit {0})
verdict s p u f v m =
    if not s && p
    then err bad_request
    else if not u
    then ok tt
    else if f
    then ok tt
    else if p && not v
    then err forbidden
    else if v
    then if m then ok tt else err bad_request
    else ok tt

answers :
    (s p u f v m : Bool)
    → (verdict s p u f v m ≡ ok tt) ↔ (
        ((s ≡ true) ⊎ (p ≡ false))
        × ((u ≡ false) ⊎ (f ≡ true) ⊎ (v ≡ true) × (m ≡ true) ⊎ (p ≡ false) × (v ≡ false)))
answers s p u f v m = ground arith

-- The reasons for which the old password is not asked for.
abbrev pub IsExempt : PasswordChange → Type 0
IsExempt c =
    (c.did_first_login ≡ false) × (c.edits_own_account ≡ true)
    ⊎ (c.edits_own_account ≡ false)
      × ((c.has_student_edit ≡ true) × (c.is_student ≡ true)
          ⊎ (c.has_admin_view ≡ true) × ((c.is_student ≡ true) ⊎ (c.is_teacher ≡ true))
          ⊎ (c.is_superhero ≡ true))
    ⊎ (c.forced ≡ true)

exempt :
    (own first student_edit student admin_view teacher superhero forced : Bool)
    → (not first && own
          || not own && (student_edit && student || admin_view && (student || teacher) || superhero)
          || forced
        ≡ true)
      ↔ ((first ≡ false) × (own ≡ true)
          ⊎ (own ≡ false)
            × ((student_edit ≡ true) × (student ≡ true)
                ⊎ (admin_view ≡ true) × ((student ≡ true) ⊎ (teacher ≡ true))
                ⊎ (superhero ≡ true))
          ⊎ (forced ≡ true))
exempt own first student_edit student admin_view teacher superhero forced = ground arith

is_free_iff : (c : PasswordChange) → (is_free c ≡ true) ↔ IsExempt c
is_free_iff c =
    exempt c.edits_own_account c.did_first_login c.has_student_edit c.is_student c.has_admin_view
      c.is_teacher c.is_superhero c.forced

-- The old password is not asked for, or given and right; or no password is set.
abbrev pub MaySet : PasswordChange → Type 0
MaySet c =
    (truthy c.user_id ≡ false)
    ⊎ IsExempt c
    ⊎ (truthy c.verification ≡ true) × (c.matches ≡ true)
    ⊎ (truthy c.password ≡ false) × (truthy c.verification ≡ false)

-- A change of an account passes exactly if a password that is set is strong, and: the one who asks
-- has no user yet; or it is the own account before the first login; or the account of somebody
-- else, where one has the right to edit students and it is a student's, or the right to see all as
-- an admin and it is a student's or a teacher's, or one is a superhero; or the change is forced; or
-- the old password is given and right; or no password is set and no old one is given.
pub validate_password_iff :
    (c : PasswordChange)
    → (validate_password c ≡ ok tt) ↔ (((c.strong ≡ true) ⊎ (truthy c.password ≡ false)) × MaySet c)
unfolding validate_password
validate_password_iff c =
    let (to, from) =
      answers c.strong (truthy c.password) (truthy c.user_id) (is_free c) (truthy c.verification)
        c.matches in
    let (open_, close) = is_free_iff c in
    (
      λ h.
          let (s, m) = to h in
          (
            s,
            elim m [
              | inl u ↦ inl u
              | inr (inl f) ↦ inr (inl (open_ f))
              | inr (inr rest) ↦ inr (inr rest)
            ],
          ),
      λ (s, m). from (
        s,
        elim m [
          | inl u ↦ inl u
          | inr (inl f) ↦ inr (inl (close f))
          | inr (inr rest) ↦ inr (inr rest)
        ],
      ),
    )
