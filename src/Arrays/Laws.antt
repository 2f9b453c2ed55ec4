-- ===== src/Arrays/Laws.antt =====
-- What flattening, cutting into pages and filtering give.
use schulcloud.Base.{
  ℕ, zero, suc, ◌+◌, ◌-◌, ◌*◌, ◌≤◌, ◌<◌, String, ◌≡◌, refl, sym, ap, ◌∙◌, some, List, [], ◌∷◌, ◌++◌,
  map, filter, length, Bool, true, false, nat_eq, get_elem?, arith,
}
use mathlib.Core.List.{append-nil, append_assoc}
use schulcloud.Arrays.{
  Element, Elements, value, array, nil, cons, flatten_onto, flatten_element, flatten, number, take,
  drop, Paginated, page, whole, paginate, filter_by_index, async_filter,
}

-- The values in an array, and those in its arrays, from the left to the right.
mutual
  pub leaves : Elements → List String
  leaves nil = []
  leaves (cons e es) = leaves_of e ++ leaves es

  pub leaves_of : Element → List String
  leaves_of (value v) = v ∷ []
  leaves_of (array es) = leaves es

mutual
  unfolding flatten_onto leaves

  flatten_onto-eq-leaves :
      (agg : List String) (es : Elements) → flatten_onto agg es ≡ agg ++ leaves es
  flatten_onto-eq-leaves agg nil = sym (append-nil agg)
  flatten_onto-eq-leaves agg (cons e es) =
      flatten_onto-eq-leaves (agg ++ flatten_element e) es
      ∙ (rw (flatten_element-eq-leaves e) (append_assoc agg (leaves_of e) (leaves es)))

  flatten_element-eq-leaves : (e : Element) → flatten_element e ≡ leaves_of e
  flatten_element-eq-leaves (value v) = refl
  flatten_element-eq-leaves (array es) = flatten_onto-eq-leaves [] es

abbrev pub elements : List String → Elements
elements [] = nil
elements (v ∷ vs) = cons (value v) (elements vs)

leaves-elements : (vs : List String) → leaves (elements vs) ≡ vs
unfolding leaves
leaves-elements [] = refl
leaves-elements (v ∷ vs) = ap (λ l. v ∷ l) (leaves-elements vs)

-- Flattening gives the values of the array and of all arrays in it, from the left to the right; and
-- to flatten the result again changes nothing.
pub flatten-leaves :
    (es : Elements) → (flatten es ≡ leaves es) × (flatten (elements (flatten es)) ≡ flatten es)
unfolding flatten
flatten-leaves es = (
  flatten_onto-eq-leaves [] es,
  flatten_onto-eq-leaves [] (elements (flatten_onto [] es)) ∙ leaves-elements (flatten_onto [] es),
)

get_elem?-middle :
    {B : Type 0} (before : List B) (b : B) (rest : List B)
    → get_elem? (before ++ b ∷ rest) (length before) ≡ some b
get_elem?-middle [] b rest = refl
get_elem?-middle (x ∷ xs) b rest = get_elem?-middle xs b rest

length-snoc :
    {B : Type 0} (before : List B) (b : B) → length (before ++ b ∷ []) ≡ suc (length before)
length-snoc [] b = refl
length-snoc (x ∷ xs) b = ap suc (length-snoc xs b)

module _ {ℓ} {A : Type ℓ} where
  drop_nil : (n : ℕ) → drop {A = A} n [] ≡ []
  drop_nil zero = refl
  drop_nil (suc n) = refl

  take_nil : (n : ℕ) → take {A = A} n [] ≡ []
  take_nil zero = refl
  take_nil (suc n) = refl

  take-add : (m n : ℕ) (xs : List A) → take (m + n) xs ≡ take m xs ++ take n (drop m xs)
  take-add zero n xs = let e : 0 + n ≡ n = omega arith in rw e refl
  take-add (suc m) n [] = rw (take_nil n, take_nil (suc m + n)) refl
  take-add (suc m) n (x ∷ xs) =
      let e : suc m + n ≡ suc (m + n) = omega arith in rw e (ap (λ l. x ∷ l) (take-add m n xs))

  take_all : (n : ℕ) (xs : List A) → length xs ≤ n → take n xs ≡ xs
  take_all zero [] h = refl
  take_all zero (x ∷ xs) h = absurd (omega arith)
  take_all (suc n) [] h = refl
  take_all (suc n) (x ∷ xs) h = ap (λ l. x ∷ l) (take_all n xs (omega arith))

  abbrev pub items_of : Paginated A → List A
  items_of (whole items) = items
  items_of (page p) = p.items

  -- The first `k` pages of `n` elements, one after the other.
  abbrev pub pages : List A → ℕ → ℕ → List A
  pages items n zero = []
  pages items n (suc k) =
      pages items n k
      ++ items_of (
          paginate items (
            some
              (record { paginate = true; limit = some (number n); skip = some (number (k * n)) })))

  page-slice :
      (items : List A) (n skip : ℕ)
      → 0 < n
      → items_of (
          paginate items
            (some (record { paginate = true; limit = some (number n); skip = some (number skip) })))
        ≡ take n (drop skip items)
  unfolding paginate
  page-slice items n skip h =
      let positive : nat_eq n 0 ≡ false = ground arith in
      let width : skip + n - skip ≡ n = omega arith in rw (positive, width) refl

  pages-eq-take : (items : List A) (n k : ℕ) → 0 < n → pages items n k ≡ take (k * n) items
  pages-eq-take items n zero h = let e : 0 * n ≡ 0 = omega arith in rw e refl
  pages-eq-take items n (suc k) h =
      let e : suc k * n ≡ k * n + n = grind arith in
      rw (e, pages-eq-take items n k h, page-slice items n (k * n) h, take-add (k * n) n items) refl

  -- The pages of some size, one after the other, are the elements in their order, each once, as
  -- soon as there is room on them for all.
  pub pages_cover :
      (items : List A) (n k : ℕ) → 0 < n → length items ≤ k * n → pages items n k ≡ items
  pages_cover items n k h enough = pages-eq-take items n k h ∙ take_all (k * n) items enough

  filter_by_index-filter :
      (p : A → Bool) (xs : List A) (before : List Bool)
      → filter_by_index (length before) xs (before ++ map p xs) ≡ filter p xs
  unfolding filter_by_index
  filter_by_index-filter p [] before = refl
  filter_by_index-filter p (x ∷ xs) before =
      let ih = filter_by_index-filter p xs (before ++ p x ∷ []) in
      let shifted =
        rw (length-snoc before (p x), append_assoc before (p x ∷ []) (map p xs)) at ih in
      rw (get_elem?-middle before (p x) (map p xs), shifted) refl

  -- The elements are kept by their own answers.
  pub async_filter-eq-filter : (p : A → Bool) (xs : List A) → async_filter p xs ≡ filter p xs
  unfolding async_filter
  async_filter-eq-filter p xs = filter_by_index-filter p xs []
