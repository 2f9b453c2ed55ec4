-- ===== src/Arrays.antt =====
-- src/utils/array.js: lists that are flattened, cut into pages and filtered, and the orders to sort
-- by.
mod Laws
mod Tests
use Prim.Native.String
use Prim.Native.Char.{code}
use schulcloud.Base.{
  ℕ, zero, suc, ◌+◌, ◌-◌, String, Option, none, some, List, [], ◌∷◌, ◌++◌, map, length, Bool, true,
  false, not, ◌&&◌, ◌||◌, if◌then◌else◌, nat_eq, get_elem?, get_or,
}

-- An array whose elements are values or arrays.
mutual
  pub data Element : Type 0 where
    value : String → Element
    array : Elements → Element

  pub data Elements : Type 0 where
    nil : Elements
    cons : Element → Elements → Elements

-- `flatten`, whose `reduce` appends to what it has so far.
unfoldable mutual
  pub flatten_onto : List String → Elements → List String
  flatten_onto agg nil = agg
  flatten_onto agg (cons e es) = flatten_onto (agg ++ flatten_element e) es

  pub flatten_element : Element → List String
  flatten_element (value v) = v ∷ []
  flatten_element (array es) = flatten_onto [] es

unfoldable pub flatten : Elements → List String
flatten es = flatten_onto [] es

-- A whole number: `minus n` is -(n + 1).
pub data Number : Type 0 where
  number minus : ℕ → Number

pub record PageParams : Type 0 where
  pub paginate : Bool
  pub limit : Option Number
  pub skip : Option Number

-- `params.$limit || data.length`, and the length again where the limit is negative.
abbrev pub limit_of : ℕ → Option Number → ℕ
limit_of all none = all
limit_of all (some (minus n)) = all
limit_of all (some (number n)) = if nat_eq n 0 then all else n

abbrev pub skip_of : Option Number → ℕ
skip_of none = 0
skip_of (some (minus n)) = 0
skip_of (some (number n)) = n

module _ {ℓ} {A : Type ℓ} where
  abbrev pub take : ℕ → List A → List A
  take zero xs = []
  take (suc n) [] = []
  take (suc n) (x ∷ xs) = x ∷ take n xs

  abbrev pub drop : ℕ → List A → List A
  drop zero xs = xs
  drop (suc n) [] = []
  drop (suc n) (x ∷ xs) = drop n xs

  -- `data.slice(from, to)`
  abbrev pub slice : ℕ → ℕ → List A → List A
  slice from to xs = take (to - from) (drop from xs)

pub record Page {ℓ} (A : Type ℓ) : Type ℓ where
  pub total : ℕ
  pub limit : ℕ
  pub skip : ℕ
  pub items : List A

pub data Paginated {ℓ} (A : Type ℓ) : Type ℓ where
  whole : List A → Paginated A
  page : Page A → Paginated A

unfoldable pub paginate {ℓ} : {A : Type ℓ} → List A → Option PageParams → Paginated A
paginate items none = whole items
paginate items (some params) =
    if not params.paginate
    then whole items
    else (let limit = limit_of (length items) params.limit in
        let skip = skip_of params.skip in
        page (record {
          total = length items;
          limit = limit;
          skip = skip;
          items = slice skip (skip + limit) items;
        }))

-- An order to sort by: for the name of an attribute, whether it is descending.
abbrev pub SortOrder : Type 0
SortOrder = List (String × Bool)

-- The argument of `sort` is an order, a text, or neither.
pub data Order : Type 0 where
  object : SortOrder → Order
  text : String → Order
  neither : Order

-- `/^-/` with the rest of the text.
abbrev pub minus_prefix : String → Bool × String
minus_prefix String.[] = (false, "")
minus_prefix (String.◌∷◌ c s) = if nat_eq (code c) b'-' then (true, s) else (false, String.◌∷◌ c s)

-- `convertToSortOrderObject`, for a text of one line.
unfoldable pub convert_to_sort_order_object : Order → SortOrder
convert_to_sort_order_object (object order) = order
convert_to_sort_order_object (text t) =
    let (descending, name) = minus_prefix t in (name, descending) ∷ []
convert_to_sort_order_object neither = []

-- `asyncFilter`, where the answers to the predicate are there already: an element is kept by the
-- answer at its index.
unfoldable pub filter_by_index {ℓ} : {A : Type ℓ} → ℕ → List A → List Bool → List A
filter_by_index index [] results = []
filter_by_index index (x ∷ xs) results =
    let rest = filter_by_index (suc index) xs results in
    if get_or (get_elem? results index) false then x ∷ rest else rest

unfoldable pub async_filter {ℓ} : {A : Type ℓ} → (A → Bool) → List A → List A
async_filter predicate items = filter_by_index 0 items (map predicate items)
