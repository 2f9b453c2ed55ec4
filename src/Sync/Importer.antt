-- ===== src/Sync/Importer.antt =====
-- src/services/sync/strategies/mixins/ClassImporter.js: classes that are created or updated by
-- their names, and the statistics of it. The calls that run side by side are taken one after the
-- other.
pub mod Laws
use schulcloud.Base.{
  ℕ, suc, String, Option, none, some, List, [], ◌∷◌, ◌++◌, any, Bool, true, false, not, ◌&&◌, ◌==◌,
  nat_eq, if◌then◌else◌, truthy, to_string, includes, Result, ok, err,
}
use schulcloud.Sync.Classes.{ClassName, or_else, class_object_from_name}

-- An id in a list of members: a text, or an object, which is the same as another one only if it is
-- that very object.
pub data MemberId : Type 0 where
  undefined : MemberId
  text : String → MemberId
  object : ℕ → String → MemberId

unfoldable pub is_same : MemberId → MemberId → Bool
is_same undefined undefined = true
is_same (text a) (text b) = a == b
is_same (object i a) (object j b) = nat_eq i j
is_same _ _ = false

-- `Array.from(new Set(ids))`, after those that were met before.
unfoldable pub unique_after : List MemberId → List MemberId → List MemberId
unique_after met [] = met
unique_after met (x ∷ xs) = unique_after (if any (is_same x) met then met else met ++ x ∷ []) xs

pub record Options : Type 0 where
  pub name : Option String
  pub grade_level : Option String
  pub teacher_ids : Option (List MemberId)
  pub user_ids : Option (List MemberId)

pub record Class : Type 0 where
  pub id : String
  pub teacher_ids : Option (List MemberId)
  pub user_ids : Option (List MemberId)

pub data Problem : Type 0 where
  not_processed not_updated not_created : Problem

pub record Stats : Type 0 where
  pub successful : ℕ
  pub failed : ℕ
  pub created : ℕ
  pub updated : ℕ
  pub errors : List Problem

abbrev pub fail : Problem → Stats → Stats
fail problem st = record st { failed = suc st.failed; errors = st.errors ++ problem ∷ [] }

-- `concat(ids)`, which appends undefined itself.
abbrev pub appended : Option (List MemberId) → List MemberId
appended none = undefined ∷ []
appended (some ids) = ids

-- `Array.from(new Set((existing || []).concat(given)))`
abbrev pub merge_ids : Option (List MemberId) → Option (List MemberId) → Option (List MemberId)
merge_ids none given = some (unique_after [] (appended given))
merge_ids (some ids) given = some (unique_after [] (ids ++ appended given))

abbrev pub merge_members : Bool → Class → Options → Options
merge_members only_add_new existing options =
    if only_add_new
    then record options {
      teacher_ids = merge_ids existing.teacher_ids options.teacher_ids;
      user_ids = merge_ids existing.user_ids options.user_ids;
    }
    else options

-- The name that is parsed overrides the one that is given.
abbrev pub with_class_name : ClassName → Options → Options
with_class_name parsed options = record options {
  name = some parsed.name;
  grade_level = or_else parsed.grade_level options.grade_level;
}

abbrev pub parse_name : Options → Options
parse_name options =
    if truthy options.name && not (truthy options.grade_level)
    then with_class_name (class_object_from_name (to_string options.name)) options
    else options

-- The service of classes, whose queries are `Query`.
pub record ClassService {ℓ} (Query : Type ℓ) : Type ℓ where
  pub find : Query → Result (List Class)
  pub by_options : Options → Query
  pub patch : String → Options → Result Class
  pub create : Options → Result Class

module _ {ℓ} {Query : Type ℓ} (classes : ClassService Query) where
  abbrev pub first_class : List Class → Option Class
  first_class [] = none
  first_class (c ∷ rest) = some c

  abbrev pub updated_class : Result Class → Stats → Option Class × Stats
  updated_class (ok c) st = (some c, record st { updated = suc st.updated })
  updated_class (err e) st = (none, fail not_updated st)

  abbrev pub created_class : Result Class → Stats → Option Class × Stats
  created_class (ok c) st = (some c, record st { created = suc st.created })
  created_class (err e) st = (none, fail not_created st)

  -- `updateClass` and `createClass` keep what is thrown to themselves.
  abbrev pub write_class : Option Class → Bool → Options → Stats → Option Class × Stats
  write_class (some existing) only_add_new options st =
      updated_class (classes.patch existing.id (merge_members only_add_new existing options)) st
  write_class none only_add_new options st = created_class (classes.create options) st

  abbrev pub count_success : Option Class × Stats → Option Class × Stats
  count_success (c, st) = (c, record st { successful = suc st.successful })

  abbrev pub after_find : Result (List Class) → Bool → Options → Stats → Option Class × Stats
  after_find (err e) only_add_new options st = (none, fail not_processed st)
  after_find (ok found) only_add_new options st =
      count_success (write_class (first_class found) only_add_new options st)

  abbrev pub query_or : Option Query → Options → Query
  query_or (some query) options = query
  query_or none options = classes.by_options options

  unfoldable pub create_or_update_class :
      Options → Option Query → Bool → Stats → Option Class × Stats
  create_or_update_class given query only_add_new st =
      let options = parse_name given in
      after_find (classes.find (query_or query options)) only_add_new options st

  -- `new Set(classes)`
  abbrev pub unique_names : List String → List String → List String
  unique_names met [] = met
  unique_names met (x ∷ xs) = unique_names (if includes met x then met else met ++ x ∷ []) xs

  unfoldable pub build_mapping_of :
      List String → Options → Stats → List (String × Option Class) × Stats
  build_mapping_of [] options st = ([], st)
  build_mapping_of (name ∷ names) options st =
      let (c, st') = create_or_update_class (record options { name = some name }) none false st in
      let (later, last) = build_mapping_of names options st' in ((name, c) ∷ later, last)

  unfoldable pub build_class_mapping :
      List String → Options → Stats → List (String × Option Class) × Stats
  build_class_mapping names options st = build_mapping_of (unique_names [] names) options st
