-- ===== src/Role/Sort/Laws.antt =====
-- `sortRoles` ends on roles without cycles, and its levels follow the inheritance.
use schulcloud.Base.{
  ℕ, zero, suc, ◌+◌, ◌≤◌, ◌<◌, ◌≡◌, refl, ◌↔◌, ◌⊎◌, inl, inr, some, String, List, [], ◌∷◌, ◌++◌,
  Bool, true, arith, includes, includes_iff, filter, Has, Exists, Bool-cases, List-cases,
}
use mathlib.Core.Path.{subst}
use mathlib.Core.List.{append_assoc, append-nil}
use schulcloud.Role.{Role}
use schulcloud.Role.Sort.{is_empty, found, parents, sort, start_roles, sort_roles}

abbrev pub In : Role → List Role → Type 0
In role roles = Exists (λ r. r ≡ role) roles

In-filter :
    (p : Role → Bool) (roles : List Role) (r : Role)
    → In r (filter p roles) ↔ (In r roles × (p r ≡ true))
In-filter p [] r = (λ h. absurd h, λ h. absurd h.0)
In-filter p (x ∷ xs) r = elim (Bool-cases (p x)) [
  | inl e ↦ rw e (ground (arith, In-filter p xs r))
  | inr e ↦ rw e (ground (arith, In-filter p xs r))
]

In-append : (xs ys : List Role) (r : Role) → In r (xs ++ ys) ↔ (In r xs ⊎ In r ys)
In-append [] ys r = (λ h. inr h, elim [ inl h ↦ absurd h | inr h ↦ h ])
In-append (x ∷ xs) ys r = ground (arith, In-append xs ys r)

-- The role inherits from one of the level.
abbrev pub Inherits : List Role → Role → Type 0
Inherits level role = Exists (λ child. Has role.roles child.id) level

In-parents :
    (roles last : List Role) (r : Role) → In r (parents roles last) ↔ (In r roles × Inherits last r)
unfolding parents
In-parents roles [] r = (λ h. absurd h, λ h. h.1)
In-parents roles (c ∷ cs) r = ground (
  arith,
  In-append (found roles c) (parents roles cs) r,
  In-filter (λ el. includes el.roles c.id) roles r,
  includes_iff r.roles c.id,
  In-parents roles cs r,
)

-- Each level has exactly the roles that inherit from the level before it, and nothing inherits
-- from the last one.
abbrev pub Levels : List Role → List Role → List (List Role) → Type 0
Levels roles last [] = (r : Role) → In r roles → ¬ Inherits last r
Levels roles last (level ∷ rest) =
    ((r : Role) → In r level ↔ (In r roles × Inherits last r)) × Levels roles level rest

-- Inheritance goes down in rank, and no rank is above `top`.
abbrev pub Ranked : (String → ℕ) → ℕ → List Role → Type 0
Ranked rank top roles =
    (r : Role)
    → In r roles
    → (rank r.id ≤ top) × ((c : String) → Has r.roles c → rank c < rank r.id)

Inherits-rank :
    (rank : String → ℕ) (top k : ℕ) (roles last : List Role) (r : Role)
    → Ranked rank top roles
    → ((c : Role) → In c last → k ≤ rank c.id)
    → In r roles
    → Inherits last r
    → suc k ≤ rank r.id
Inherits-rank rank top k roles [] r ranked low m h = absurd h
Inherits-rank rank top k roles (c ∷ cs) r ranked low m (inl h) =
    omega (arith, (ranked r m).1 c.id h, low c (inl refl))
Inherits-rank rank top k roles (c ∷ cs) r ranked low m (inr h) =
    Inherits-rank rank top k roles cs r ranked (λ x i. low x (inr i)) m h

is_empty_iff : (xs : List String) → (is_empty xs ≡ true) ↔ (xs ≡ [])
is_empty_iff [] = ground arith
is_empty_iff (x ∷ xs) = ground arith

sort_end :
    (fuel : ℕ) (roles : List Role) (sorted : List (List Role)) (last : List Role)
    → parents roles last ≡ []
    → sort (suc fuel) roles sorted last ≡ some sorted
unfolding sort
sort_end fuel roles sorted last e = ground arith

sort_next :
    (fuel : ℕ) (roles : List Role) (sorted : List (List Role)) (last : List Role) (p : Role)
    (ps : List Role)
    → parents roles last ≡ p ∷ ps
    → sort (suc fuel) roles sorted last ≡ sort fuel roles (sorted ++ (p ∷ ps) ∷ []) (p ∷ ps)
unfolding sort
sort_next fuel roles sorted last p ps e = ground arith

-- Nothing is above the last level.
no_parents : (roles last : List Role) → parents roles last ≡ [] → Levels roles last []
no_parents roles last e r m h =
    let x : In r (parents roles last) = (In-parents roles last r).1 (m, h) in rw e at x

module _ (rank : String → ℕ) (top : ℕ) (roles : List Role) (ranked : Ranked rank top roles) where
  parents-rank :
      (k : ℕ) (last : List Role)
      → ((c : Role) → In c last → k ≤ rank c.id)
      → (r : Role) → In r (parents roles last)
      → (suc k ≤ rank r.id) × (rank r.id ≤ top)
  parents-rank k last low r h =
      let (m, i) = (In-parents roles last r).0 h in
      (Inherits-rank rank top k roles last r ranked low m i, (ranked r m).0)

  sort-Levels :
      (fuel k : ℕ) (sorted : List (List Role)) (last : List Role)
      → ((c : Role) → In c last → k ≤ rank c.id)
      → top < suc fuel + k
      → (levels : List (List Role)) × (sort (suc fuel) roles sorted last ≡ some (sorted ++ levels))
        × Levels roles last levels
  sort-Levels zero k sorted last low big = elim (List-cases (parents roles last)) [
    | inl e ↦ ([], rw append-nil (sort_end zero roles sorted last e), no_parents roles last e)
    | inr (p, ps, e) ↦
        let h : In p (parents roles last) = rw e (inl refl) in
        let q = parents-rank k last low p h in absurd (omega (arith, q.0, q.1))
  ]
  sort-Levels (suc fuel) k sorted last low big = elim (List-cases (parents roles last)) [
    | inl e ↦ ([], rw append-nil (sort_end (suc fuel) roles sorted last e), no_parents roles last e)
    | inr (p, ps, e) ↦
        let low' : ((c : Role) → In c (p ∷ ps) → suc k ≤ rank c.id) =
          λ c h. (parents-rank k last low c (rw e h)).0 in
        let (levels, r, l) =
          sort-Levels fuel (suc k) (sorted ++ (p ∷ ps) ∷ []) (p ∷ ps) low' (omega arith) in
        (
          (p ∷ ps) ∷ levels,
          rw (sort_next (suc fuel) roles sorted last p ps e) (rw r (rw append_assoc)),
          (
            λ c.
                subst (λ (xs : List Role). In c xs ↔ (In c roles × Inherits last c)) e
                  (In-parents roles last c),
            l,
          ),
        )
  ]

-- On roles that inherit downwards in rank, with ranks up to `top`, one round more than `top`
-- suffices: `sortRoles` returns the roles that inherit from none, followed by the levels above.
pub sort_roles-Levels :
    (rank : String → ℕ) (top : ℕ) (roles : List Role)
    → Ranked rank top roles
    → (levels : List (List Role)) × (sort_roles (suc top) roles ≡ some (start_roles roles ∷ levels))
      × ((r : Role) → In r (start_roles roles) ↔ (In r roles × (r.roles ≡ [])))
      × Levels roles (start_roles roles) levels
unfolding sort_roles
sort_roles-Levels rank top roles ranked =
    let (levels, r, l) =
      sort-Levels rank top roles ranked top 0 (start_roles roles ∷ []) (start_roles roles)
        (λ c h. omega arith) (omega arith) in
    (
      levels,
      r,
      λ x. ground (arith, In-filter (λ role. is_empty role.roles) roles x, is_empty_iff x.roles),
      l,
    )
