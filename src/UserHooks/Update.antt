-- ===== src/UserHooks/Update.antt =====
-- userService.js: what a request may change of a user, and what it is shown.
pub mod Laws
use schulcloud.Base.{
  String, Option, none, some, List, [], ◌∷◌, map, filter, includes, Bool, true, false, not, ◌&&◌,
  ◌||◌, ◌==◌, if◌then◌else◌, truthy, to_string, Result, ok, err, ◌>>=◌,
}
use schulcloud.ObjectId.{equal}

-- An entry of the data of a change: an attribute with its new value, or an operator, such as
-- `$set`, with attributes.
pub data Entry {ℓ} (Value : Type ℓ) : Type ℓ where
  attribute : String → Value → Entry Value
  operator : String → List (String × Value) → Entry Value

abbrev pub role_operators : List String
role_operators = "$push" ∷ "$pull" ∷ "$pop" ∷ "$addToSet" ∷ "$pullAll" ∷ "$set" ∷ []

abbrev pub allowed_attributes : List String
allowed_attributes =
    "_id" ∷ "roles" ∷ "schoolId" ∷ "firstName" ∷ "middleName" ∷ "lastName" ∷ "namePrefix"
    ∷ "nameSuffix" ∷ "discoverable" ∷ "fullName" ∷ "displayName" ∷ "avatarInitials"
    ∷ "avatarBackgroundColor" ∷ []

module _ {ℓ} {Value : Type ℓ} where
  -- `delete object[name]`
  abbrev pub delete : String → List (String × Value) → List (String × Value)
  delete name [] = []
  delete name ((key, v) ∷ rest) =
      let kept = delete name rest in if key == name then kept else (key, v) ∷ kept

  abbrev pub delete_attribute : String → List (Entry Value) → List (Entry Value)
  delete_attribute name [] = []
  delete_attribute name (attribute key v ∷ rest) =
      let kept = delete_attribute name rest in if key == name then kept else attribute key v ∷ kept
  delete_attribute name (operator op fields ∷ rest) =
      operator op fields ∷ delete_attribute name rest

  -- `delete (data[op] || {})[name]`
  abbrev pub delete_within : String → String → List (Entry Value) → List (Entry Value)
  delete_within op name [] = []
  delete_within op name (attribute key v ∷ rest) = attribute key v ∷ delete_within op name rest
  delete_within op name (operator o fields ∷ rest) =
      operator o (if o == op then delete name fields else fields) ∷ delete_within op name rest

  abbrev pub delete_within_all : List String → String → List (Entry Value) → List (Entry Value)
  delete_within_all [] name data_ = data_
  delete_within_all (op ∷ ops) name data_ = delete_within_all ops name (delete_within op name data_)

  unfoldable pub protect_immutable_attributes : Bool → List (Entry Value) → List (Entry Value)
  protect_immutable_attributes superhero data_ =
      if superhero
      then data_
      else delete_within "$set" "schoolId" (
          delete_attribute "schoolId"
            (delete_within_all role_operators "roles" (delete_attribute "roles" data_)))

  -- `keep(...names)` of a record.
  abbrev pub keep : List String → List (String × Value) → List (String × Value)
  keep names [] = []
  keep names ((key, v) ∷ rest) =
      let kept = keep names rest in if includes names key then (key, v) ∷ kept else kept

  -- `filterResult` for the id of the request and that of the current user.
  unfoldable pub filter_result :
      Option String → String → Bool → List (List (String × Value)) → List (List (String × Value))
  filter_result id user_id superhero results =
      if truthy id && equal (to_string id) user_id || superhero
      then results
      else map (keep allowed_attributes) results
