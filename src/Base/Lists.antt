-- ===== src/Base/Lists.antt =====
-- The array methods of JavaScript that the server calls, with what their results mean.
use Prim.Native.Nat.{ℕ, zero, suc}
use Prim.Native.String.{String}
use mathlib.Core.Path.{◌≡◌, refl}
use mathlib.Core.Logic.{◌⊎◌, ◌↔◌, inl, inr}
use mathlib.Core.Bool.{Bool, true, false, ◌&&◌, ◌||◌}
use mathlib.Core.Option.{Option, none, some}
use mathlib.Core.List.{List, [], ◌∷◌, ◌++◌}
use native.Mathlib.Omega.{arith}
use text.Mathlib.Text.{◌==◌}
use text.Mathlib.TextEquality.{eq_iff}
use schulcloud.Base.Tests.{if◌then◌else◌, Bool-cases}

module _ {ℓ} {A : Type ℓ} where
  abbrev pub length : List A → ℕ
  length [] = 0
  length (x ∷ xs) = suc (length xs)

  -- `Array.prototype.some`
  abbrev pub any : (A → Bool) → List A → Bool
  any p [] = false
  any p (x ∷ xs) = p x || any p xs

  -- `Array.prototype.every`
  abbrev pub all : (A → Bool) → List A → Bool
  all p [] = true
  all p (x ∷ xs) = p x && all p xs

  -- `Array.prototype.find`
  abbrev pub find : (A → Bool) → List A → Option A
  find p [] = none
  find p (x ∷ xs) = if p x then some x else find p xs

  -- `Array.prototype.filter`
  abbrev pub filter : (A → Bool) → List A → List A
  filter p [] = []
  filter p (x ∷ xs) = let rest = filter p xs in if p x then x ∷ rest else rest

  abbrev pub get_elem? : List A → ℕ → Option A
  get_elem? [] i = none
  get_elem? (x ∷ xs) zero = some x
  get_elem? (x ∷ xs) (suc i) = get_elem? xs i

-- `array.includes(text)`
abbrev pub includes : List String → String → Bool
includes [] s = false
includes (x ∷ xs) s = x == s || includes xs s

-- `array.indexOf(text)`, where none is -1.
abbrev pub index_of : List String → String → Option ℕ
index_of [] s = none
index_of (x ∷ xs) s =
    if x == s then some 0 else elim (index_of xs s) [ none ↦ none | some i ↦ some (suc i) ]

-- `array.findIndex(test)`, where none is -1.
abbrev pub find_index {ℓ} : {A : Type ℓ} → (A → Bool) → List A → Option ℕ
find_index p [] = none
find_index p (x ∷ xs) =
    if p x then some 0 else elim (find_index p xs) [ none ↦ none | some i ↦ some (suc i) ]

-- Some element satisfies `P`.
abbrev pub Exists {ℓ} : {A : Type ℓ} → (A → Type 0) → List A → Type 0
Exists P [] = ⊥
Exists P (x ∷ xs) = P x ⊎ Exists P xs

abbrev pub All {ℓ} : {A : Type ℓ} → (A → Type 0) → List A → Type 0
All P [] = Unit
All P (x ∷ xs) = P x × All P xs

abbrev pub Has : List String → String → Type 0
Has xs s = Exists (λ x. x ≡ s) xs

module _ {ℓ} {A : Type ℓ} (p : A → Bool) where
  pub any_iff : (xs : List A) → (any p xs ≡ true) ↔ Exists (λ x. p x ≡ true) xs
  any_iff [] = (λ h. cc, λ h. absurd h)
  any_iff (x ∷ xs) = ground (arith, any_iff xs)

  pub all_iff : (xs : List A) → (all p xs ≡ true) ↔ All (λ x. p x ≡ true) xs
  all_iff [] = (λ h. tt, λ h. refl)
  all_iff (x ∷ xs) = ground (arith, all_iff xs)

  pub find-some : (xs : List A) {x : A} → find p xs ≡ some x → p x ≡ true
  find-some [] e = cc
  find-some (y ∷ ys) {x} e = ground (arith, find-some ys {x = x})

  pub find-some_of_any : (xs : List A) → any p xs ≡ true → (x : A) × (find p xs ≡ some x)
  find-some_of_any [] e = cc
  find-some_of_any (y ∷ ys) e = elim (Bool-cases (p y)) [
    | inl h ↦ (y, rw h)
    | inr h ↦ let (x, found) = find-some_of_any ys (rw h at e) in (x, rw h found)
  ]

  pub find-none : (xs : List A) → find p xs ≡ none → All (λ x. p x ≡ false) xs
  find-none [] e = tt
  find-none (x ∷ xs) e = ground (arith, find-none xs)

pub includes_iff : (xs : List String) (s : String) → (includes xs s ≡ true) ↔ Has xs s
includes_iff [] s = (λ h. cc, λ h. absurd h)
includes_iff (x ∷ xs) s = ground (arith, includes_iff xs s, eq_iff x s)

module _ {ℓ} {A : Type ℓ} (P Q : A → Type 0) where
  pub Exists-map : (f : (x : A) → P x → Q x) (xs : List A) → Exists P xs → Exists Q xs
  Exists-map f [] h = h
  Exists-map f (x ∷ xs) (inl h) = inl (f x h)
  Exists-map f (x ∷ xs) (inr h) = inr (Exists-map f xs h)

  pub All-map : (f : (x : A) → P x → Q x) (xs : List A) → All P xs → All Q xs
  All-map f [] h = h
  All-map f (x ∷ xs) (h, hs) = (f x h, All-map f xs hs)

  pub Exists-All : (xs : List A) → Exists P xs → All Q xs → Exists (λ x. P x × Q x) xs
  Exists-All [] h k = h
  Exists-All (x ∷ xs) (inl h) (k, ks) = inl (h, k)
  Exists-All (x ∷ xs) (inr h) (k, ks) = inr (Exists-All xs h ks)

pub Has-append : (xs ys : List String) (s : String) → Has (xs ++ ys) s ↔ (Has xs s ⊎ Has ys s)
Has-append [] ys s = (λ h. inr h, elim [ inl h ↦ absurd h | inr h ↦ h ])
Has-append (x ∷ xs) ys s = ground (arith, Has-append xs ys s)

-- An element that is added where it is missing is there.
pub Has-add :
    (set : List String) (p s : String)
    → Has (if includes set p then set else set ++ p ∷ []) s ↔ (Has set s ⊎ (p ≡ s))
Has-add set p s = elim (Bool-cases (includes set p)) [
  | inl old ↦ rw old (ground (arith, includes_iff set p, includes_iff set s, eq_iff p s))
  | inr new ↦ rw new (ground (arith, Has-append set (p ∷ []) s))
]

pub List-cases {ℓ} :
    {A : Type ℓ} (xs : List A) → (xs ≡ []) ⊎ ((x : A) × (rest : List A) × (xs ≡ x ∷ rest))
List-cases [] = inl refl
List-cases (x ∷ rest) = inr (x, rest, refl)
