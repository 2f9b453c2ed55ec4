-- ===== src/Sync/Records.antt =====
-- src/services/sync/strategies/CSVSyncer.js: the lines of a file, from their columns to the records
-- that are imported.
pub mod Laws
use schulcloud.Base.{
  ℕ, suc, String, Option, none, some, List, [], ◌∷◌, ◌++◌, map, any, all, filter, find, includes,
  Bool, true, false, not, ◌&&◌, ◌||◌, ◌==◌, if◌then◌else◌, truthy, to_string, is_some, Result, ok,
  err, plain_error, type_error, ◌>>=◌,
}

pub record Attribute : Type 0 where
  pub name : String
  pub required : Bool
  pub aliases : List String

abbrev attribute : String → Bool → List String → Attribute
attribute name required aliases = record { name = name; required = required; aliases = aliases }

abbrev pub attributes : List Attribute
attributes =
    attribute "namePrefix" false ("nameprefix" ∷ "prefix" ∷ "title" ∷ "affix" ∷ [])
    ∷ attribute "firstName" true ("firstname" ∷ "first" ∷ "first-name" ∷ "fn" ∷ [])
    ∷ attribute "middleName" false ("middlename" ∷ "middle" ∷ [])
    ∷ attribute "lastName" true ("lastname" ∷ "last" ∷ "last-name" ∷ "n" ∷ [])
    ∷ attribute "nameSuffix" false ("namesuffix" ∷ "suffix" ∷ [])
    ∷ attribute "email" true ("email" ∷ "mail" ∷ "e-mail" ∷ [])
    ∷ attribute "class" false ("class" ∷ "classes" ∷ [])
    ∷ attribute "birthday" false
        ("birthday" ∷ "birth date" ∷ "birthdate" ∷ "birth" ∷ "geburtstag" ∷ "geburtsdatum" ∷ [])
    ∷ []

-- A line of the file: the values of its columns, which may be undefined.
abbrev pub Fields : Type 0
Fields = List (String × Option String)

abbrev pub keys : Fields → List String
keys [] = []
keys ((key, v) ∷ rest) = key ∷ keys rest

abbrev pub field : String → Fields → Option String
field name [] = none
field name ((key, v) ∷ rest) = if key == name then v else field name rest

-- `object[key] = value`
abbrev pub assign : String → Option String → Fields → Fields
assign name v [] = (name, v) ∷ []
assign name v ((key, old) ∷ rest) =
    if key == name then (key, v) ∷ rest else (key, old) ∷ assign name v rest

-- `clean` is `toLowerCase().trim()`.
module _ (clean : String → String) where
  abbrev pub attribute_of : List Attribute → String → Option Attribute
  attribute_of schema key = find (λ a. includes a.aliases (clean key)) schema

  -- The mapping of `buildMappingFunction`: columns with the names of their attributes.
  unfoldable pub mapping_of : List String → List Attribute → List (String × String)
  mapping_of [] schema = []
  mapping_of (key ∷ rest) schema =
      let later = mapping_of rest schema in
      elim (attribute_of schema key) [ none ↦ later | some a ↦ (key, a.name) ∷ later ]

-- The function that it returns: a later column of the same attribute takes precedence.
unfoldable pub map_record : List (String × String) → Fields → Fields → Fields
map_record [] line res = res
map_record ((key, name) ∷ rest) line res = map_record rest line (assign name (field key line) res)

abbrev pub required_names : List Attribute → List String
required_names schema = map (λ a. a.name) (filter (λ (a : Attribute). a.required) schema)

-- The check of `parseCsvData` on the columns of the first line.
unfoldable pub check_required : (String → String) → List Attribute → List String → Result (Unit {0})
check_required clean [] columns = ok tt
check_required clean (a ∷ rest) columns =
    if not a.required
    then check_required clean rest columns
    else if any (λ k. includes a.aliases (clean k)) columns
    then check_required clean rest columns
    else err plain_error

-- A record with what `sanitizeRecords` makes of the address and the birthday.
pub record Record {ℓ} (Date : Type ℓ) : Type ℓ where
  pub fields : Fields
  pub email : String
  pub birthday : Option Date

-- What is reported: a birthday that is not valid, or an address that is used again.
pub data Issue : Type 0 where
  invalid_birthday repeated_email : Issue

-- `clean_email` is `trim().toLowerCase()`; `date_of` is the date of a valid birthday.
module _ {ℓ} {Date : Type ℓ} (clean_email : String → String) (date_of : String → Option Date) where
  abbrev pub birthday_issues : Option String → List Issue
  birthday_issues given =
      if truthy given && not (is_some (date_of (to_string given)))
      then invalid_birthday ∷ []
      else []

  abbrev pub sanitize_record : Fields → Record Date × List Issue
  sanitize_record mapped = (
    record {
      fields = mapped;
      email = clean_email (to_string (field "email" mapped));
      birthday =
          if truthy (field "birthday" mapped)
          then date_of (to_string (field "birthday" mapped))
          else none;
    },
    birthday_issues (field "birthday" mapped),
  )

  -- Lines without a required value are skipped.
  unfoldable pub sanitize_records :
      List String → List (String × String) → List Fields → List (Record Date) × List Issue
  sanitize_records required mapping [] = ([], [])
  sanitize_records required mapping (line ∷ lines) =
      let (later, issues) = sanitize_records required mapping lines in
      let mapped = map_record mapping line [] in
      let (sanitized, found) = sanitize_record mapped in
      if all (λ name. truthy (field name mapped)) required
      then (sanitized ∷ later, found ++ issues)
      else (later, issues)

module _ {ℓ} {Date : Type ℓ} where
  abbrev pub has_email : String → List (Record Date) → Bool
  has_email email [] = false
  has_email email (r ∷ rest) = r.email == email || has_email email rest

  -- The records so far by their addresses, and the number of those that failed.
  abbrev pub cluster_step : List (Record Date) → ℕ → Record Date → List (Record Date) × ℕ
  cluster_step seen failed r =
      if has_email r.email seen then (seen, suc failed) else (seen ++ r ∷ [], failed)

  unfoldable pub cluster_onto : List (Record Date) → ℕ → List (Record Date) → List (Record Date) × ℕ
  cluster_onto seen failed [] = (seen, failed)
  cluster_onto seen failed (r ∷ rest) =
      let (seen', failed') = cluster_step seen failed r in cluster_onto seen' failed' rest

  -- `clusterByEmail`
  unfoldable pub cluster_by_email : List (Record Date) → List (Record Date) × ℕ
  cluster_by_email records = cluster_onto [] 0 records

  -- `needsToImportClasses`, which throws where no record is left.
  unfoldable pub needs_to_import_classes : List (Record Date) → Result Bool
  needs_to_import_classes [] = err type_error
  needs_to_import_classes (r ∷ rest) = ok (is_some (field "class" r.fields))
