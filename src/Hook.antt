-- ===== src/Hook.antt =====
-- The request context that the hooks of src/hooks/index.js read and change, and the users and
-- roles that they fetch. What a database or another service answers is an argument.
pub mod Permission
pub mod School
pub mod Course
pub mod Mail
pub mod Request
pub mod Roles
mod Tests
use schulcloud.Base.{String, Option, List, [], ◌∷◌, Bool, false, true}

pub data Method : Type 0 where
  find get create update patch remove : Method

-- `context.params.account`
pub record Account : Type 0 where
  pub user_id : Option String

-- A role with its name; the name is undefined where the role was not populated.
pub record Role : Type 0 where
  pub name : Option String
  pub permissions : List String

pub record User : Type 0 where
  pub id : String
  pub school_id : String
  pub roles : List Role
  pub permissions : List String

pub record Context : Type 0 where
  pub provider : Option String
  pub method : Method
  pub id : Option String
  pub account : Option Account
  pub route_school_id : Option String
  pub query_school_id : Option String
  pub data_school_id : Option String

-- A parameter that is a text or an array of texts.
pub data Names : Type 0 where
  one : String → Names
  many : List String → Names

-- `typeof names === 'string' ? [names] : names`
abbrev pub names_list : Names → List String
names_list (one s) = s ∷ []
names_list (many l) = l

-- `['get', 'find'].includes(method)`
abbrev pub is_read : Method → Bool
is_read find = true
is_read get = true
is_read _ = false

-- `['update', 'patch', 'remove'].includes(method)`
abbrev pub is_change : Method → Bool
is_change update = true
is_change patch = true
is_change remove = true
is_change _ = false

-- `['create', 'update', 'patch'].includes(method)`
abbrev pub is_write : Method → Bool
is_write create = true
is_write update = true
is_write patch = true
is_write _ = false
