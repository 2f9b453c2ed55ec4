-- ===== src/FileAccess/Team/Steps.antt =====
-- src/services/fileStorage/utils/filePermissionHelper.js: the loop of `checkTeamPermission` as
-- steps, without a bound on their number.
use schulcloud.Base.{
  ℕ, zero, suc, String, ◌≡◌, refl, inl, inr, Option, none, some, List, [], ◌∷◌, ◌++◌, arith, find,
  Option-cases,
}
use schulcloud.Role.{Role}
use schulcloud.FileAccess.Team.{Permission, refers_to, ended, pop, search_roles}
use schulcloud.FileAccess.Team.Laws.{pop-append, pop-none, pop-some}

-- The last role is tested. The search finds nothing when no role is left; ends with the file's first
-- permission for the role that is tested; and goes on with the others and the roles that this role
-- inherits from, if the file has no permission for it.
pub data Searches (role_index : String → Option Role) (permissions : List Permission)
    : List String → Option Permission → Type 0 where
  exhausted : {roles : List String} → roles ≡ [] → Searches role_index permissions roles none
  hit :
      {roles : List String} (rest : List String) (id : String) (role : Role) (p : Permission)
      → roles ≡ rest ++ id ∷ []
      → role_index id ≡ some role
      → find (λ q. refers_to q id) permissions ≡ some p
      → Searches role_index permissions roles (some p)
  next :
      {roles : List String} {found : Option Permission} (rest : List String) (id : String)
      (role : Role)
      → roles ≡ rest ++ id ∷ []
      → role_index id ≡ some role
      → find (λ q. refers_to q id) permissions ≡ none
      → Searches role_index permissions (rest ++ role.roles) found
      → Searches role_index permissions roles found

module _ (role_index : String → Option Role) (permissions : List Permission) where
  pub search_roles-Searches :
      (fuel : ℕ) (roles : List String) (found : Option Permission)
      → search_roles fuel role_index permissions roles ≡ ended found
      → Searches role_index permissions roles found
  unfolding search_roles
  search_roles-Searches zero roles found h = absurd (ground arith)
  search_roles-Searches (suc fuel) roles found h = elim (Option-cases (pop roles)) [
    | inl e ↦ let same : none ≡ found = ground arith in rw (← same) (exhausted (pop-none roles e))
    | inr ((id, rest), e) ↦ elim (Option-cases (role_index id)) [
      | inl f ↦ absurd (ground arith)
      | inr (role, f) ↦ elim (Option-cases (find (λ q. refers_to q id) permissions)) [
        | inr (p, g) ↦
            let same : some p ≡ found = ground arith in
            rw (← same) (hit rest id role p (pop-some roles {id = id} {rest = rest} e) f g)
        | inl g ↦
            let later : search_roles fuel role_index permissions (rest ++ role.roles)
                ≡ ended found =
              ground arith in
            next rest id role (pop-some roles {id = id} {rest = rest} e) f g
              (search_roles-Searches fuel (rest ++ role.roles) found later)
      ]
    ]
  ]

  pub Searches-search_roles :
      (roles : List String) (found : Option Permission)
      → Searches role_index permissions roles found
      → (fuel : ℕ) × (search_roles fuel role_index permissions roles ≡ ended found)
  unfolding search_roles pop
  Searches-search_roles roles found (exhausted e) = (1, rw e refl)
  Searches-search_roles roles found (hit rest id role p e f g) =
      (1, rw e (ground (arith, pop-append rest id)))
  Searches-search_roles roles found (next rest id role e f g later) =
      let (fuel, h) = Searches-search_roles (rest ++ role.roles) found later in
      (suc fuel, rw e (ground (arith, pop-append rest id)))
