-- ===== src/Role/BySchool/Laws.antt =====
-- What the permissions of a role and of a user are after the school's overrides.
use schulcloud.Base.{
  String, ◌≡◌, ◌≢◌, ◌↔◌, ◌⊎◌, inl, inr, none, some, List, [], ◌∷◌, ◌++◌, Bool, true, false, not,
  arith, eq_iff, ◌==◌, if◌then◌else◌, includes, filter, Has, Exists, Has-append, Has-add,
  Bool-cases, Option-cases,
}
use schulcloud.Role.{Role}
use schulcloud.Role.BySchool.{
  Overrides, SchoolPermissions, lookup, enabled, filter_permissions, override, override_all,
  update_role, set_from, user_permissions,
}

-- No key of the object stands twice.
abbrev pub DistinctKeys {ℓ} : {V : Type ℓ} → List (String × V) → Type ℓ
DistinctKeys [] = Unit
DistinctKeys ((k, v) ∷ rest) = (lookup k rest ≡ none) × DistinctKeys rest

Has-filter_ne :
    (r : String) (permissions : List String) (s : String)
    → Has (filter (λ p. not (p == r)) permissions) s ↔ (Has permissions s × (r ≢ s))
Has-filter_ne r [] s = (λ h. absurd h, λ h. absurd h.0)
Has-filter_ne r (p ∷ ps) s = elim (Bool-cases (p == r)) [
  | inl e ↦ rw e (ground (arith, Has-filter_ne r ps s, eq_iff p r))
  | inr e ↦ rw e (ground (arith, Has-filter_ne r ps s, eq_iff p r, eq_iff r s))
]

Has-override :
    (r : String) (b : Bool) (permissions : List String) (s : String)
    → Has (override (r, b) permissions) s ↔ (((r ≡ s) × (b ≡ true)) ⊎ ((r ≢ s) × Has permissions s))
unfolding override
Has-override r true permissions s = ground (arith, Has-add permissions r s, eq_iff r s)
Has-override r false permissions s = ground (arith, Has-filter_ne r permissions s)

-- The school sets the permission, or says nothing of it and it was there.
abbrev pub Effective : Overrides → List String → String → Type 0
Effective overrides permissions s =
    (lookup s overrides ≡ some true) ⊎ ((lookup s overrides ≡ none) × Has permissions s)

Has-override_all :
    (overrides : Overrides) (permissions : List String) (s : String)
    → DistinctKeys overrides
    → Has (override_all overrides permissions) s ↔ Effective overrides permissions s
unfolding override_all lookup
Has-override_all [] permissions s d = ground arith
Has-override_all ((r, b) ∷ os) permissions s (fresh, d) = elim (Bool-cases (r == s)) [
  | inl e ↦
      let same : r ≡ s = (eq_iff r s).0 e in
      let none_s : lookup s os ≡ none = rw same at fresh in
      ground (
        arith,
        Has-override_all os (override (r, b) permissions) s d,
        Has-override r b permissions s,
      )
  | inr e ↦ ground (
    arith,
    Has-override_all os (override (r, b) permissions) s d,
    Has-override r b permissions s,
    eq_iff r s,
  )
]

-- Where the school has entries for the role's name, after `updateRoles` the role has a permission
-- exactly when the school sets it, or has no entry for it and the role had it before.
pub update_role_iff :
    (school : SchoolPermissions) (role : Role) (overrides : Overrides) (s : String)
    → lookup role.name school ≡ some overrides
    → DistinctKeys overrides
    → Has (update_role school role).permissions s ↔ Effective overrides role.permissions s
unfolding update_role
update_role_iff school role overrides s e d =
    rw (e, update_role) (Has-override_all overrides role.permissions s d)

Has-enabled :
    (overrides : Overrides) (s : String)
    → DistinctKeys overrides
    → Has (enabled overrides) s ↔ (lookup s overrides ≡ some true)
unfolding lookup
Has-enabled [] s d = ground arith
Has-enabled ((r, true) ∷ os) s (fresh, d) = ground (arith, Has-enabled os s d, eq_iff r s)
Has-enabled ((r, false) ∷ os) s (fresh, d) = elim (Bool-cases (r == s)) [
  | inl e ↦
      let same : r ≡ s = (eq_iff r s).0 e in
      let none_s : lookup s os ≡ none = rw same at fresh in ground (arith, Has-enabled os s d)
  | inr e ↦ ground (arith, Has-enabled os s d)
]

-- The school enables the permission for the name.
abbrev pub Enables : SchoolPermissions → String → String → Type 0
Enables school s name =
    (overrides : Overrides) × (lookup name school ≡ some overrides)
    × (lookup s overrides ≡ some true)

-- The overrides of every name have distinct keys.
abbrev pub WellKeyed : SchoolPermissions → Type 0
WellKeyed school =
    (name : String) (overrides : Overrides)
    → lookup name school ≡ some overrides
    → DistinctKeys overrides

Enables-iff :
    (school : SchoolPermissions) (s name : String) (overrides : Overrides)
    → lookup name school ≡ some overrides
    → Enables school s name ↔ (lookup s overrides ≡ some true)
Enables-iff school s name overrides e =
    (λ (other, e', h). let same : other ≡ overrides = cc in rw same at h, λ h. (overrides, e, h))

not-Enables :
    (school : SchoolPermissions) (s name : String)
    → lookup name school ≡ none
    → ¬ Enables school s name
not-Enables school s name e (other, e', h) = cc

Has-filter_permissions :
    (names : List String) (school : SchoolPermissions) (s : String)
    → WellKeyed school
    → Has (filter_permissions names school) s ↔ Exists (Enables school s) names
unfolding filter_permissions
Has-filter_permissions [] school s keyed = (λ h. h, λ h. h)
Has-filter_permissions (name ∷ names) school s keyed = elim (Option-cases (lookup name school)) [
  | inl e ↦ ground (arith, Has-filter_permissions names school s keyed, not-Enables school s name e)
  | inr (overrides, e) ↦
      (ground (
        arith,
        Has-filter_permissions names school s keyed,
        Has-append (enabled overrides) (filter_permissions names school) s,
        Has-enabled overrides s (keyed name overrides e),
        Enables-iff school s name overrides e,
      ))
]

Has-set_from :
    (set vs : List String) (s : String) → Has (set_from set vs) s ↔ (Has set s ⊎ Has vs s)
unfolding set_from
Has-set_from set [] s = (λ h. inl h, elim [ inl h ↦ h | inr h ↦ absurd h ])
Has-set_from set (v ∷ vs) s =
    ground
      (arith, Has-set_from (if includes set v then set else set ++ v ∷ []) vs s, Has-add set v s)

-- A user has the permissions of the user document, and those that the school enables for one of
-- the names of the user's roles; what a school takes from a role is not taken from the user here.
pub user_permissions_iff :
    (own names : List String) (school : SchoolPermissions) (s : String)
    → WellKeyed school
    → Has (user_permissions own names school) s ↔ (Has own s ⊎ Exists (Enables school s) names)
unfolding user_permissions
user_permissions_iff own names school s keyed = ground (
  arith,
  Has-set_from [] (own ++ filter_permissions names school) s,
  Has-append own (filter_permissions names school) s,
  Has-filter_permissions names school s keyed,
)
