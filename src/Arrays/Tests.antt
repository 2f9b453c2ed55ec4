-- ===== src/Arrays/Tests.antt =====
-- Lists that are flattened and cut into pages.
use schulcloud.Base.{String, ◌≡◌, refl, some, List, [], ◌∷◌, true, arith}
use schulcloud.Arrays.{
  value, array, nil, cons, Elements, flatten_onto, flatten, number, minus, page, paginate, text,
  convert_to_sort_order_object,
}
use schulcloud.Arrays.Laws.{leaves, elements, flatten-leaves, pages, pages_cover}

abbrev nested : Elements
nested = cons (value "1") (
    cons (array (cons (value "2") nil)) (
      cons (array (cons (array (cons (value "3") (cons (value "4") nil))) (cons (value "5") nil)))
        (cons (value "6") nil)))

flattens : flatten nested ≡ "1" ∷ "2" ∷ "3" ∷ "4" ∷ "5" ∷ "6" ∷ []
unfolding flatten flatten_onto
flattens = refl

flatten-leaves_run :
    (flatten nested ≡ leaves nested) × (flatten (elements (flatten nested)) ≡ flatten nested)
flatten-leaves_run = flatten-leaves nested

abbrev letters : List String
letters = "a" ∷ "b" ∷ "c" ∷ []

-- A limit of 0 is no limit, and a negative number to skip is 0.
unlimited :
    paginate letters
      (some (record { paginate = true; limit = some (number 0); skip = some (minus 4) }))
    ≡ page (record { total = 3; limit = 3; skip = 0; items = letters })
unfolding paginate
unlimited = refl

pages_cover_run : pages letters 2 2 ≡ letters
pages_cover_run = pages_cover letters 2 2 (omega arith) (omega arith)

descending : convert_to_sort_order_object (text "-name") ≡ ("name", true) ∷ []
unfolding convert_to_sort_order_object
descending = refl
