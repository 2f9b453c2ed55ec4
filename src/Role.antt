-- ===== src/Role.antt =====
-- The roles of src/services/role: inheritance, the overrides of a school, and the hierarchy.
pub mod Resolve
pub mod BySchool
pub mod Sort
mod Tests
use schulcloud.Base.{String, List}

-- A role as the database holds it; `roles` has the ids of those it inherits from.
pub record Role : Type 0 where
  pub id : String
  pub name : String
  pub permissions : List String
  pub roles : List String
