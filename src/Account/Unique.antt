-- ===== src/Account/Unique.antt =====
-- The names of accounts without a system stay unique.
use schulcloud.Base.{
  String, ◌≡◌, refl, ◌⊎◌, inl, inr, Option, none, some, List, [], ◌∷◌, Bool, true, false, ◌&&◌,
  ◌==◌, arith, truthy, is_some, to_string, Exists, ok, Bool-cases, Option-cases, List-cases, eq_iff,
}
use schulcloud.ObjectId.{equal, is_valid}
use schulcloud.Account.{Account, named, of_system, is_own, check_unique}

-- An account without a system has this name.
abbrev pub Takes : String → Account → Type 0
Takes username a = (a.username ≡ username) × (a.system_id ≡ none)

-- No two accounts without a system have one name.
abbrev pub Unique : List Account → Type 0
Unique [] = Unit
Unique (a ∷ rest) = ((is_some a.system_id ≡ true) ⊎ ¬ Exists (Takes a.username) rest) × Unique rest

-- The accounts that `check_unique` counts for an account without a system.
abbrev counted : (Option String → Option String → Bool) → List Account → String → List Account
counted same_system accounts username = of_system none (named same_system accounts username none)

taken-some :
    (same_system : Option String → Option String → Bool) (a : Account) (accounts : List Account)
    (username : String)
    → same_system none none ≡ true
    → (a.username == username) ≡ true
    → a.system_id ≡ none
    → counted same_system (a ∷ accounts) username ≡ []
    → ⊥
taken-some same_system a accounts username s same o h =
    let t : same_system a.system_id none ≡ true = ground arith in ground arith

found_tail :
    (same_system : Option String → Option String → Bool) (a : Account) (accounts : List Account)
    (username : String)
    → counted same_system (a ∷ accounts) username ≡ []
    → counted same_system accounts username ≡ []
found_tail same_system a accounts username h =
    elim (Bool-cases (a.username == username && same_system a.system_id none)) [
      | inr e ↦ ground arith
      | inl e ↦ elim (Option-cases a.system_id) [
        | inl o ↦ absurd (ground arith)
        | inr (x, o) ↦ ground arith
      ]
    ]

found-none :
    (same_system : Option String → Option String → Bool) (accounts : List Account)
    (username : String)
    → same_system none none ≡ true
    → of_system none (named same_system accounts username none) ≡ []
    → ¬ Exists (Takes username) accounts
found-none same_system [] username s h e = e
found-none same_system (a ∷ accounts) username s h (inl (n, o)) =
    let same : (a.username == username) ≡ true = ground (arith, eq_iff a.username username) in
    absurd (taken-some same_system a accounts username s same o h)
found-none same_system (a ∷ accounts) username s h (inr e) =
    found-none same_system accounts username s (found_tail same_system a accounts username h) e

-- The account that was found is not the one of a request without an id.
is_own-none : (l : List Account) → is_own none l ≡ false
unfolding equal is_valid
is_own-none [] = refl
is_own-none (a ∷ []) = refl
is_own-none (a ∷ b ∷ l) = refl

of_system-some : (system : String) (l : List Account) → of_system (some system) l ≡ []
of_system-some system [] = refl
of_system-some system (a ∷ l) = elim (Option-cases a.system_id) [
  | inl o ↦ ground (arith, of_system-some system l)
  | inr (s, o) ↦ ground (arith, of_system-some system l)
]

refused :
    (same_system : Option String → Option String → Bool) (accounts : List Account) (new a : Account)
    (rest : List Account)
    → truthy (some new.username) ≡ true
    → counted same_system accounts new.username ≡ a ∷ rest
    → check_unique same_system accounts none (some new.username) none ≡ ok tt
    → ⊥
unfolding check_unique
refused same_system accounts new a rest t e h =
    let other = is_own-none (counted same_system accounts new.username) in ground arith

-- A name that the check lets through for a new account keeps the names of the accounts without a
-- system unique, where the database finds accounts without a system for a query without one.
pub check_unique-Unique :
    (same_system : Option String → Option String → Bool) (accounts : List Account) (new : Account)
    → same_system none none ≡ true
    → new.system_id ≡ none
    → truthy (some new.username) ≡ true
    → Unique accounts
    → check_unique same_system accounts none (some new.username) none ≡ ok tt
    → Unique (new ∷ accounts)
unfolding check_unique
check_unique-Unique same_system accounts new s o t unique h =
    elim (List-cases (counted same_system accounts new.username)) [
      | inl e ↦ (inr (found-none same_system accounts new.username s e), unique)
      | inr (a, rest, e) ↦ absurd (refused same_system accounts new a rest t e h)
    ]

-- With a system the check never finds an account: it compares the ids of systems as objects, and so
-- lets every name through.
pub check_unique-with_system :
    (same_system : Option String → Option String → Bool) (accounts : List Account)
    (id username : Option String) (system : String)
    → check_unique same_system accounts id username (some system) ≡ ok tt
unfolding check_unique
check_unique-with_system same_system accounts id username system =
    rw (of_system-some system (named same_system accounts (to_string username) (some system)))
      (elim (Bool-cases (truthy username)) [ inl t ↦ rw t refl | inr f ↦ rw f refl ])
