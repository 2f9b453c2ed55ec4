-- ===== src/ErrorHandler.antt =====
-- src/middleware/errorHandler.js: the secrets that are taken out of what is logged, and the answer to
-- a request that failed.
mod Laws
mod Tests
use schulcloud.Base.{
  ℕ, suc, String, Option, none, some, List, [], ◌∷◌, map, Bool, true, false, if◌then◌else◌, ltb,
  includes,
}

-- A value of a request body. `other` stands for those that are neither a text nor an object, and an
-- array is an object with its indices as keys.
mutual
  pub data Value : Type 0 where
    text : String → Value
    other : Value
    object : Fields → Value

  pub data Fields : Type 0 where
    empty : Fields
    field : String → Value → Fields → Fields

abbrev pub secret_data_keys : List String
secret_data_keys =
    "headers" ∷ "password" ∷ "passwort" ∷ "new_password" ∷ "new-password" ∷ "oauth-password"
    ∷ "current-password" ∷ "passwort_1" ∷ "passwort_2" ∷ "password_1" ∷ "password_2" ∷ "password-1"
    ∷ "password-2" ∷ "password_verification" ∷ "password_control" ∷ "PASSWORD_HASH" ∷ "password_new"
    ∷ "accessToken" ∷ "ticket" ∷ "firstName" ∷ "lastName" ∷ "email" ∷ "birthday" ∷ "description"
    ∷ "gradeComment" ∷ "_csrf" ∷ "searchUserPassword" ∷ []

abbrev pub max_level_filter : ℕ
max_level_filter = 12

-- `lower` stands for `toLocaleLowerCase`.
module _ (lower : String → String) where
  unfoldable pub is_secret : String → Bool
  is_secret key = includes (map lower secret_data_keys) (lower key)

  -- A value after `filterDeep` was called on it. The text that the function returns beyond the last
  -- level is dropped by its caller, and the value there stays as it is.
  unfoldable mutual
    pub filter_deep : ℕ → Value → Value
    filter_deep level (text s) = text s
    filter_deep level other = other
    filter_deep level (object fields) =
        let inside = filter_fields level fields in
        if ltb max_level_filter level then object fields else object inside

    pub filter_fields : ℕ → Fields → Fields
    filter_fields level empty = empty
    filter_fields level (field key value rest) =
        let deep = filter_deep (suc level) value in
        let others = filter_fields level rest in
        field key (if is_secret key then text "<secret>" else deep) others

  -- `filter(data)` for the fields of an object, which are copied first.
  unfoldable pub filter_data : Fields → Fields
  filter_data fields = filter_fields 0 fields

-- The kinds of error that the last handler tells apart.
pub data Failure : Type 0 where
  silent : Failure
  validation document_not_found assertion application : Failure
  framework : ℕ → Failure
  unhandled : Failure

-- The fields of the answer's body that hold details, where it has any.
pub data Details : Type 0 where
  none_given validation_errors assertion_errors : Details

pub record Response : Type 0 where
  pub status : ℕ
  pub silent_header : Bool
  pub details : Details

abbrev pub answer : ℕ → Details → Response
answer status details = record { status = status; silent_header = false; details = details }

-- `silent_enabled` is SILENT_ERROR_ENABLED.
unfoldable pub get_error_response : Bool → Failure → Response
get_error_response silent_enabled silent = record {
  status = 200;
  silent_header = silent_enabled;
  details = none_given;
}
get_error_response silent_enabled validation = answer 400 validation_errors
get_error_response silent_enabled document_not_found = answer 404 none_given
get_error_response silent_enabled assertion = answer 500 assertion_errors
get_error_response silent_enabled application = answer 500 none_given
get_error_response silent_enabled (framework code) = answer code none_given
get_error_response silent_enabled unhandled = answer 500 none_given
