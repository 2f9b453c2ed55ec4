-- ===== src/ErrorHandler/Tests.antt =====
-- The filter at a body with a password, and at a value that is nested too deep.
use schulcloud.Base.{◌≤◌, String, ◌≡◌, refl, List, [], ◌∷◌, true, false, arith, All}
use schulcloud.ErrorHandler.{
  text, object, Fields, empty, field, is_secret, filter_deep, filter_data, Failure,
  get_error_response,
}
use schulcloud.ErrorHandler.Laws.{
  depth, depth_of, CleanFields, filter_data-CleanFields, nest, filter_data-nest,
}

abbrev same : String → String
same s = s

abbrev body : Fields
body =
    field "password" (text "hello") (field "user" (object (field "email" (text "a@b") empty)) empty)

shallow : depth_of body ≤ 12
unfolding depth
shallow = omega arith

filter_data-CleanFields_example : CleanFields same (filter_data same body)
filter_data-CleanFields_example = filter_data-CleanFields same body shallow

filtered :
    filter_data same body
    ≡ field "password"
        (text "<secret>")
        (field "user" (object (field "email" (text "<secret>") empty)) empty)
unfolding filter_data filter_deep is_secret
filtered = refl

abbrev keys : List String
keys = "a" ∷ "a" ∷ "a" ∷ "a" ∷ "a" ∷ "a" ∷ "a" ∷ "a" ∷ "a" ∷ "a" ∷ "a" ∷ "a" ∷ []

plain : All (λ k. is_secret same k ≡ false) ("a" ∷ keys)
unfolding is_secret
plain = (
  refl,
  (
    refl,
    (refl, (refl, (refl, (refl, (refl, (refl, (refl, (refl, (refl, (refl, (refl, tt))))))))))),
  ),
)

filter_data-nest_run :
    filter_data same (field "a" (nest keys (object (field "password" (text "hello") empty))) empty)
    ≡ field "a" (nest keys (object (field "password" (text "hello") empty))) empty
filter_data-nest_run =
    filter_data-nest same "a" keys (object (field "password" (text "hello") empty)) plain
      (omega arith)

not_found_answer : (get_error_response true Failure.document_not_found).status ≡ 404
unfolding get_error_response
not_found_answer = refl
