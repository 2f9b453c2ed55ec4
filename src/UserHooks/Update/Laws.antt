-- ===== src/UserHooks/Update/Laws.antt =====
-- A change leaves the roles and the school alone, and a result shows what is public of a user.
use schulcloud.Base.{
  String, ◌≡◌, refl, ◌∙◌, Option, none, some, List, [], ◌∷◌, map, includes, false, ◌&&◌, ◌||◌, ◌==◌,
  eq_iff, arith, truthy, to_string, if◌then◌else◌,
}
use schulcloud.ObjectId.{equal}
use schulcloud.UserHooks.Update.{
  Entry, attribute, operator, delete, delete_attribute, delete_within, delete_within_all,
  role_operators, protect_immutable_attributes, allowed_attributes, keep, filter_result,
}

module _ {ℓ} {Value : Type ℓ} where
  -- The value of an attribute among some.
  abbrev pub value_of : String → List (String × Value) → Option Value
  value_of name [] = none
  value_of name ((key, v) ∷ rest) = if key == name then some v else value_of name rest

  -- What a change sets an attribute to.
  abbrev pub attribute_of : String → List (Entry Value) → Option Value
  attribute_of name [] = none
  attribute_of name (attribute key v ∷ rest) =
      if key == name then some v else attribute_of name rest
  attribute_of name (operator op fields ∷ rest) = attribute_of name rest

  -- What a change says about an attribute under an operator.
  abbrev pub under : String → String → List (Entry Value) → Option Value
  under op name [] = none
  under op name (attribute key v ∷ rest) = under op name rest
  under op name (operator o fields ∷ rest) =
      let later = under op name rest in
      elim (if o == op then value_of name fields else none) [ some v ↦ some v | none ↦ later ]

  value_of-delete :
      (name other : String) (fields : List (String × Value))
      → value_of other (delete name fields)
        ≡ (if other == name then none else value_of other fields)
  value_of-delete name other [] = ground arith
  value_of-delete name other ((key, v) ∷ rest) =
      ground (
        arith,
        eq_iff key name,
        eq_iff other name,
        eq_iff key other,
        value_of-delete name other rest,
      )

  attribute_of-delete_attribute :
      (name other : String) (data_ : List (Entry Value))
      → attribute_of other (delete_attribute name data_)
        ≡ (if other == name then none else attribute_of other data_)
  attribute_of-delete_attribute name other [] = ground arith
  attribute_of-delete_attribute name other (attribute key v ∷ rest) = ground (
    arith,
    eq_iff key name,
    eq_iff other name,
    eq_iff key other,
    attribute_of-delete_attribute name other rest,
  )
  attribute_of-delete_attribute name other (operator op fields ∷ rest) =
      attribute_of-delete_attribute name other rest

  attribute_of-delete_within :
      (op name other : String) (data_ : List (Entry Value))
      → attribute_of other (delete_within op name data_) ≡ attribute_of other data_
  attribute_of-delete_within op name other [] = refl
  attribute_of-delete_within op name other (attribute key v ∷ rest) =
      ground (arith, attribute_of-delete_within op name other rest)
  attribute_of-delete_within op name other (operator o fields ∷ rest) =
      attribute_of-delete_within op name other rest

  under-delete_attribute :
      (op name other : String) (data_ : List (Entry Value))
      → under op other (delete_attribute name data_) ≡ under op other data_
  under-delete_attribute op name other [] = refl
  under-delete_attribute op name other (attribute key v ∷ rest) =
      ground (arith, under-delete_attribute op name other rest)
  under-delete_attribute op name other (operator o fields ∷ rest) =
      ground (arith, under-delete_attribute op name other rest)

  under-delete_within :
      (op name o other : String) (data_ : List (Entry Value))
      → under o other (delete_within op name data_)
        ≡ (if o == op && other == name then none else under o other data_)
  under-delete_within op name o other [] = ground arith
  under-delete_within op name o other (attribute key v ∷ rest) =
      under-delete_within op name o other rest
  under-delete_within op name o other (operator p fields ∷ rest) = ground (
    arith,
    eq_iff p op,
    eq_iff o op,
    eq_iff p o,
    value_of-delete name other fields,
    under-delete_within op name o other rest,
  )

  attribute_of-delete_within_all :
      (ops : List String) (name other : String) (data_ : List (Entry Value))
      → attribute_of other (delete_within_all ops name data_) ≡ attribute_of other data_
  attribute_of-delete_within_all [] name other data_ = refl
  attribute_of-delete_within_all (op ∷ ops) name other data_ =
      attribute_of-delete_within_all ops name other (delete_within op name data_)
      ∙ attribute_of-delete_within op name other data_

  under-delete_within_all :
      (ops : List String) (name o other : String) (data_ : List (Entry Value))
      → under o other (delete_within_all ops name data_)
        ≡ (if includes ops o && other == name then none else under o other data_)
  under-delete_within_all [] name o other data_ = refl
  under-delete_within_all (op ∷ ops) name o other data_ = ground (
    arith,
    eq_iff op o,
    eq_iff o op,
    under-delete_within_all ops name o other (delete_within op name data_),
    under-delete_within op name o other data_,
  )

  -- The deletions in turn, for any operators and names.
  abbrev deletions :
      List String → String → String → String → List (Entry Value) → List (Entry Value)
  deletions ops roles set school data_ =
      delete_within set school
        (delete_attribute school (delete_within_all ops roles (delete_attribute roles data_)))

  attribute_of-deletions :
      (ops : List String) (roles set school name : String) (data_ : List (Entry Value))
      → attribute_of name (deletions ops roles set school data_)
        ≡ (if name == roles || name == school then none else attribute_of name data_)
  attribute_of-deletions ops roles set school name data_ =
      let first = delete_attribute roles data_ in
      let second = delete_within_all ops roles first in
      ground (
        arith,
        attribute_of-delete_within set school name (delete_attribute school second),
        attribute_of-delete_attribute school name second,
        attribute_of-delete_within_all ops roles name first,
        attribute_of-delete_attribute roles name data_,
      )

  under-deletions :
      (ops : List String) (roles set school op name : String) (data_ : List (Entry Value))
      → under op name (deletions ops roles set school data_) ≡ (
          if includes ops op && name == roles || op == set && name == school
          then none
          else under op name data_)
  under-deletions ops roles set school op name data_ =
      let first = delete_attribute roles data_ in
      let second = delete_within_all ops roles first in
      ground (
        arith,
        under-delete_within set school op name (delete_attribute school second),
        under-delete_attribute op school name second,
        under-delete_within_all ops roles op name first,
        under-delete_attribute op roles name data_,
      )

  -- What is left of a change that no superhero asks for: nothing that sets the roles or the school,
  -- nothing about the roles under one of the six operators and nothing about the school under
  -- `$set`; and all else as it was, which includes the roles and the school under any other
  -- operator.
  pub protect_immutable_attributes_lem :
      (data_ : List (Entry Value)) (op name : String)
      → (attribute_of name (protect_immutable_attributes false data_)
          ≡ (if name == "roles" || name == "schoolId" then none else attribute_of name data_))
        × (under op name (protect_immutable_attributes false data_) ≡ (
            if includes role_operators op && name == "roles" || op == "$set" && name == "schoolId"
            then none
            else under op name data_))
  unfolding protect_immutable_attributes
  protect_immutable_attributes_lem data_ op name = (
    attribute_of-deletions role_operators "roles" "$set" "schoolId" name data_,
    under-deletions role_operators "roles" "$set" "schoolId" op name data_,
  )

  value_of-keep :
      (names : List String) (name : String) (fields : List (String × Value))
      → value_of name (keep names fields)
        ≡ (if includes names name then value_of name fields else none)
  value_of-keep names name [] = ground arith
  value_of-keep names name ((key, v) ∷ rest) =
      ground (arith, eq_iff key name, value_of-keep names name rest)

  -- Who is no superhero is shown of another user the public attributes, with their values, and no
  -- others.
  pub filter_result_public :
      (id : Option String) (user_id name : String) (fields : List (String × Value))
      (rest : List (List (String × Value)))
      → (truthy id && equal (to_string id) user_id) ≡ false
      → (shown : List (String × Value)) × (others : List (List (String × Value))) × (filter_result
            id user_id false
            (fields ∷ rest)
          ≡ shown ∷ others)
        × (value_of name shown
            ≡ (if includes allowed_attributes name then value_of name fields else none))
  unfolding filter_result
  filter_result_public id user_id name fields rest h = (
    keep allowed_attributes fields,
    map (keep allowed_attributes) rest,
    rw h refl,
    value_of-keep allowed_attributes name fields,
  )
