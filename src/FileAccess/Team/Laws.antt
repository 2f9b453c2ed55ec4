-- ===== src/FileAccess/Team/Laws.antt =====
-- The search through a team's roles ends, and what it finds belongs to an inherited role.
use schulcloud.Base.{
  ℕ, zero, suc, ◌<◌, String, ◌≡◌, refl, sym, inl, inr, Option, none, some, List, [], ◌∷◌, ◌++◌,
  arith, All, All-map, ◌∙◌, Has, Has-append, find, Option-cases,
}
use mathlib.Core.Path.{subst}
use mathlib.Core.List.{append_assoc, append-nil}
use schulcloud.Role.{Role}
use schulcloud.FileAccess.Team.{Permission, refers_to, ended, pop, search_roles}

pub pop-append {ℓ} : {A : Type ℓ} (xs : List A) (x : A) → pop (xs ++ x ∷ []) ≡ some (x, xs)
unfolding pop
pop-append [] x = refl
pop-append (y ∷ ys) x = rw (pop-append ys x)

-- Inheritance goes down in rank, and every role that is inherited from is in the index.
abbrev pub Ranked : (String → Option Role) → (String → ℕ) → Type 0
Ranked role_index rank =
    (id : String) (role : Role)
    → role_index id ≡ some role
    → All (λ p. (rank p < rank id) × ((r : Role) × (role_index p ≡ some r))) role.roles

-- With some fuel the search ends.
abbrev pub Ends : (String → Option Role) → List Permission → List String → Type 0
Ends role_index permissions roles =
    (fuel : ℕ) × (found : Option Permission) × (search_roles fuel role_index permissions roles
      ≡ ended found)

module _ (role_index : String → Option Role) (permissions : List Permission) (rank : String → ℕ)
    (ranked : Ranked role_index rank) where
  search_roles-step :
      (fuel : ℕ) (rest : List String) (id : String) (role : Role)
      → role_index id ≡ some role
      → find (λ p. refers_to p id) permissions ≡ none
      → search_roles (suc fuel) role_index permissions (rest ++ id ∷ [])
        ≡ search_roles fuel role_index permissions (rest ++ role.roles)
  unfolding search_roles
  search_roles-step fuel rest id role e f = ground (arith, pop-append rest id)

  search_roles-hit :
      (fuel : ℕ) (rest : List String) (id : String) (role : Role) (p : Permission)
      → role_index id ≡ some role
      → find (λ q. refers_to q id) permissions ≡ some p
      → search_roles (suc fuel) role_index permissions (rest ++ id ∷ []) ≡ ended (some p)
  unfolding search_roles
  search_roles-hit fuel rest id role p e f = ground (arith, pop-append rest id)

  abbrev pub Known : ℕ → String → Type 0
  Known n id = (rank id < n) × ((r : Role) × (role_index id ≡ some r))

  Ends-append :
      (n : ℕ)
      → ((rest : List String) (id : String)
          → Known n id
          → Ends role_index permissions rest
          → Ends role_index permissions (rest ++ id ∷ []))
      → (ids rest : List String) → All (Known n) ids
      → Ends role_index permissions rest
      → Ends role_index permissions (rest ++ ids)
  Ends-append n one [] rest h e = rw append-nil e
  Ends-append n one (id ∷ ids) rest (k, ks) e =
      subst (Ends role_index permissions) (append_assoc rest (id ∷ []) ids)
        (Ends-append n one ids (rest ++ id ∷ []) ks (one rest id k e))

  Ends-snoc :
      (n : ℕ) (rest : List String) (id : String)
      → Known n id
      → Ends role_index permissions rest
      → Ends role_index permissions (rest ++ id ∷ [])
  Ends-snoc zero rest id k e = absurd (omega arith)
  Ends-snoc (suc n) rest id (lt, (role, found)) e =
      elim (Option-cases (find (λ p. refers_to p id) permissions)) [
        | inl f ↦
            let parents =
              All-map (λ p. (rank p < rank id) × ((r : Role) × (role_index p ≡ some r))) (Known n)
                (λ p k. (omega (arith, k.0), k.1)) role.roles (ranked id role found) in
            let (fuel, r, s) = Ends-append n (Ends-snoc n) role.roles rest parents e in
            (suc fuel, r, search_roles-step fuel rest id role found f ∙ s)
        | inr (p, f) ↦ (1, some p, search_roles-hit 0 rest id role p found f)
      ]

  Ends-nil : Ends role_index permissions []
  unfolding search_roles pop
  Ends-nil = (1, none, refl)

  -- From roles that are known, where inheritance goes down in rank, the search through the team's
  -- roles ends: some amount of fuel gives its result.
  pub search_roles-Ends :
      (n : ℕ) (roles : List String) → All (Known n) roles → Ends role_index permissions roles
  search_roles-Ends n roles known = Ends-append n (Ends-snoc n) roles [] known Ends-nil

-- The id is one of the roles, or one of the roles inherits from it over any number of steps.
pub data Reaches (role_index : String → Option Role) : List String → String → Type 0 where
  start : {roles : List String} {id : String} → Has roles id → Reaches role_index roles id
  step :
      {roles : List String} {id : String} (child : String) (role : Role)
      → Has roles child
      → role_index child ≡ some role
      → Reaches role_index role.roles id
      → Reaches role_index roles id

pub pop-none : (roles : List String) → pop roles ≡ none → roles ≡ []
unfolding pop
pop-none [] e = refl
pop-none (r ∷ rs) e = elim (Option-cases (pop rs)) [
  | inl h ↦ ground arith
  | inr ((x, xs), h) ↦ ground arith
]

pub pop-some :
    (roles : List String) {id : String} {rest : List String}
    → pop roles ≡ some (id, rest)
    → roles ≡ rest ++ id ∷ []
unfolding pop
pop-some [] e = cc
pop-some (r ∷ rs) {id} {rest} e = elim (Option-cases (pop rs)) [
  | inl h ↦ ground (arith, pop-none rs h)
  | inr ((x, xs), h) ↦ ground (arith, pop-some rs {id = x} {rest = xs} h)
]

Reaches-expand :
    (role_index : String → Option Role) (rest : List String) (id : String) (role : Role)
    {target : String}
    → role_index id ≡ some role
    → (roles : List String) → roles ≡ rest ++ role.roles
    → Reaches role_index roles target
    → Reaches role_index (rest ++ id ∷ []) target
Reaches-expand role_index rest id role {target} e roles same (start h) =
    elim ((Has-append rest role.roles target).0 (rw same at h)) [
      | inl here ↦ start ((Has-append rest (id ∷ []) target).1 (inl here))
      | inr up ↦ step id role ((Has-append rest (id ∷ []) id).1 (inr (inl refl))) e (start up)
    ]
Reaches-expand role_index rest id role {target} e roles same (step child other h e' r) =
    elim ((Has-append rest role.roles child).0 (rw same at h)) [
      | inl here ↦ step child other ((Has-append rest (id ∷ []) child).1 (inl here)) e' r
      | inr up ↦
          step id role ((Has-append rest (id ∷ []) id).1 (inr (inl refl))) e
            (step child other up e' r)
    ]

-- The permission that the search ends with is the file's first one for one of the roles, or for a
-- role that one of them inherits from.
pub search_roles-Reaches :
    (role_index : String → Option Role) (permissions : List Permission) (fuel : ℕ)
    (roles : List String) {p : Permission}
    → search_roles fuel role_index permissions roles ≡ ended (some p)
    → (id : String) × Reaches role_index roles id
      × (find (λ q. refers_to q id) permissions ≡ some p)
unfolding search_roles
search_roles-Reaches role_index permissions zero roles h = cc
search_roles-Reaches role_index permissions (suc fuel) roles {p} h =
    elim (Option-cases (pop roles)) [
      | inl e ↦ absurd (ground arith)
      | inr ((id, rest), e) ↦ elim (Option-cases (role_index id)) [
        | inl e2 ↦ absurd (ground arith)
        | inr (role, e2) ↦ elim (Option-cases (find (λ q. refers_to q id) permissions)) [
          | inl e3 ↦
              let h' : search_roles fuel role_index permissions (rest ++ role.roles)
                  ≡ ended (some p) =
                ground arith in
              let (i, r, f) =
                search_roles-Reaches role_index permissions fuel (rest ++ role.roles) h' in
              (
                i,
                subst (λ rs. Reaches role_index rs i) (sym (pop-some roles e))
                    (Reaches-expand role_index rest id role e2 (rest ++ role.roles) refl r),
                f,
              )
          | inr (q, e3) ↦ (
            id,
            subst (λ rs. Reaches role_index rs id) (sym (pop-some roles e))
                (start ((Has-append rest (id ∷ []) id).1 (inr (inl refl)))),
            ground arith,
          )
        ]
      ]
    ]
