-- ===== src/Sync/Importer/Laws.antt =====
-- What the statistics of the classes count.
use schulcloud.Base.{
  ℕ, suc, ◌+◌, ◌≤◌, ◌≡◌, refl, ap, Option, none, some, String, List, [], ◌∷◌, ◌++◌, length, map,
  Bool, false, Result, ok, err, arith,
}
use schulcloud.Sync.Importer.{
  Options, Class, Problem, not_updated, not_created, not_processed, Stats, fail, parse_name,
  ClassService, write_class, query_or, after_find, updated_class, created_class, count_success,
  create_or_update_class, first_class, merge_members, unique_names, build_mapping_of,
  build_class_mapping,
}

-- Each class is created, updated or failed, each failure is reported, and a class that is created
-- or updated is successful.
pub record IsConsistent (st : Stats) : Type 0 where
  pub reported : length st.errors ≡ st.failed
  pub written : st.created + st.updated ≤ st.successful
  pub bounded : st.successful ≤ st.created + st.updated + st.failed

abbrev pub processed : Stats → ℕ
processed st = st.created + st.updated + st.failed

length-snoc {ℓ} : {A : Type ℓ} (xs : List A) (x : A) → length (xs ++ x ∷ []) ≡ suc (length xs)
length-snoc [] x = refl
length-snoc (y ∷ xs) x = ap suc (length-snoc xs x)

-- One more class in the statistics.
abbrev OneMore : Stats → Stats → Type 0
OneMore st st' = IsConsistent st' × (processed st' ≡ suc (processed st))

module _ {ℓ} {Query : Type ℓ} (classes : ClassService Query) where
  failed-OneMore : (problem : Problem) (st : Stats) → IsConsistent st → OneMore st (fail problem st)
  failed-OneMore problem st w = (
    record {
      reported = omega (arith, w.reported, length-snoc st.errors problem);
      written = w.written;
      bounded = omega (arith, w.bounded);
    },
    omega arith,
  )

  updated-OneMore :
      (r : Result Class) (st : Stats)
      → IsConsistent st
      → OneMore st (count_success classes (updated_class classes r st)).1
  updated-OneMore (ok c) st w = (
    record {
      reported = w.reported;
      written = omega (arith, w.written);
      bounded = omega (arith, w.bounded);
    },
    omega arith,
  )
  updated-OneMore (err e) st w = (
    record {
      reported = omega (arith, w.reported, length-snoc st.errors not_updated);
      written = omega (arith, w.written);
      bounded = omega (arith, w.bounded);
    },
    omega arith,
  )

  created-OneMore :
      (r : Result Class) (st : Stats)
      → IsConsistent st
      → OneMore st (count_success classes (created_class classes r st)).1
  created-OneMore (ok c) st w = (
    record {
      reported = w.reported;
      written = omega (arith, w.written);
      bounded = omega (arith, w.bounded);
    },
    omega arith,
  )
  created-OneMore (err e) st w = (
    record {
      reported = omega (arith, w.reported, length-snoc st.errors not_created);
      written = omega (arith, w.written);
      bounded = omega (arith, w.bounded);
    },
    omega arith,
  )

  written-OneMore :
      (existing : Option Class) (only_add_new : Bool) (options : Options) (st : Stats)
      → IsConsistent st
      → OneMore st (count_success classes (write_class classes existing only_add_new options st)).1
  written-OneMore (some c) only_add_new options st w =
      updated-OneMore (classes.patch c.id (merge_members only_add_new c options)) st w
  written-OneMore none only_add_new options st w = created-OneMore (classes.create options) st w

  found-OneMore :
      (found : Result (List Class)) (only_add_new : Bool) (options : Options) (st : Stats)
      → IsConsistent st
      → OneMore st (after_find classes found only_add_new options st).1
  found-OneMore (err e) only_add_new options st w = failed-OneMore not_processed st w
  found-OneMore (ok found) only_add_new options st w =
      written-OneMore (first_class classes found) only_add_new options st w

  create_or_update_class-OneMore :
      (given : Options) (query : Option Query) (only_add_new : Bool) (st : Stats)
      → IsConsistent st
      → OneMore st (create_or_update_class classes given query only_add_new st).1
  unfolding create_or_update_class
  create_or_update_class-OneMore given query only_add_new st w =
      let options = parse_name given in
      found-OneMore (classes.find (query_or classes query options)) only_add_new options st w

  build_mapping_of_lem :
      (names : List String) (options : Options) (st : Stats)
      → IsConsistent st
      → let (mapping, st') = build_mapping_of classes names options st in
        IsConsistent st'
        × (processed st' ≡ processed st + length names)
        × (map (λ p. p.0) mapping ≡ names)
  unfolding build_mapping_of
  build_mapping_of_lem [] options st w = (w, omega arith, refl)
  build_mapping_of_lem (name ∷ names) options st w =
      let (w', n) =
        create_or_update_class-OneMore (record options { name = some name }) none false st w in
      let st' =
        (create_or_update_class classes (record options { name = some name }) none false st).1 in
      let (last, m, found) = build_mapping_of_lem names options st' w' in
      (last, omega (arith, n, m), ap (λ l. name ∷ l) found)

  -- The statistics stay consistent: each class is counted once as created, updated or failed, the
  -- failures are those that are reported, and successful lies between the classes that were written
  -- and all of them. Each name has one entry of the mapping and is counted once.
  pub build_class_mapping-IsConsistent :
      (names : List String) (options : Options) (st : Stats)
      → IsConsistent st
      → let (mapping, st') = build_class_mapping classes names options st in
        IsConsistent st'
        × (processed st' ≡ processed st + length (unique_names classes [] names))
        × (map (λ p. p.0) mapping ≡ unique_names classes [] names)
  unfolding build_class_mapping
  build_class_mapping-IsConsistent names options st w =
      build_mapping_of_lem (unique_names classes [] names) options st w
