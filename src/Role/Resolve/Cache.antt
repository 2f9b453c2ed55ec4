-- ===== src/Role/Resolve/Cache.antt =====
-- src/utils/cache.js, and the use that `resolvePermissions` makes of it.
use schulcloud.Base.{
  ℕ, ◌+◌, ◌≤◌, ◌<◌, ◌≡◌, refl, String, Option, none, some, List, [], ◌∷◌, ltb, ◌==◌, eq_refl,
  eq_iff, if◌then◌else◌, arith, ◌≢◌,
}
use schulcloud.Role.Resolve.{Store, Run, returned, threw, running, Walk, empty_walk, resolve_each}

pub record Entry : Type 0 where
  pub value : List String
  pub valid_until : ℕ

pub record Cache : Type 0 where
  pub cache : List (String × Entry)
  pub clear_interval : ℕ

unfoldable pub clear : Cache → Cache
clear c = record c { cache = [] }

-- `createMongooseIndex`: the ids one after the other.
unfoldable pub create_mongoose_index : List String → String
create_mongoose_index [] = ""
create_mongoose_index (id ∷ ids) = Prim.Native.String.◌++◌ id (create_mongoose_index ids)

unfoldable pub assign : String → Entry → List (String × Entry) → List (String × Entry)
assign key e [] = (key, e) ∷ []
assign key e ((k, old) ∷ rest) = if k == key then (key, e) ∷ rest else (k, old) ∷ assign key e rest

unfoldable pub entry : String → List (String × Entry) → Option Entry
entry key [] = none
entry key ((k, e) ∷ rest) = if k == key then some e else entry key rest

unfoldable pub update : ℕ → String → List String → Cache → Cache
update now key value c = record c {
  cache = assign key (record { value = value; valid_until = now + c.clear_interval }) c.cache;
}

unfoldable pub get : ℕ → String → Cache → Option (List String)
get now key c = elim (entry key c.cache) [
  | none ↦ none
  | some e ↦ if ltb e.valid_until now then none else some e.value
]

-- `resolvePermissions`: the cached set, or the walk, whose result is cached if it returns.
unfoldable pub resolve_permissions : ℕ → ℕ → Store → List String → Cache → Run × Cache
resolve_permissions fuel now store ids c =
    let key = create_mongoose_index ids in
    elim (get now key c) [
      | some permissions ↦ (returned (record empty_walk { permissions = permissions }), c)
      | none ↦ elim (resolve_each fuel store ids empty_walk) [
        | returned w ↦ (returned w, update now key w.permissions c)
        | threw e ↦ (threw e, c)
        | running ↦ (running, c)
      ]
    ]

entry-assign :
    (k j : String) (e : Entry) (m : List (String × Entry))
    → entry j (assign k e m) ≡ (if k == j then some e else entry j m)
unfolding entry assign
entry-assign k j e [] = refl
entry-assign k j e ((i, old) ∷ m) =
    ground (arith, eq_iff k j, eq_iff i k, eq_iff i j, entry-assign k j e m)

-- What was cached is answered until the interval is over, and not after; other keys keep their
-- answers.
pub get-update :
    (now later : ℕ) (key other : String) (value : List String) (c : Cache)
    → (later ≤ now + c.clear_interval → get later key (update now key value c) ≡ some value)
      × (now + c.clear_interval < later → get later key (update now key value c) ≡ none)
      × (key ≢ other → get later other (update now key value c) ≡ get later other c)
unfolding get update
get-update now later key other value c =
    let e : Entry = record { value = value; valid_until = now + c.clear_interval } in
    (
      λ h. ground (arith, entry-assign key key e c.cache, eq_refl key),
      λ h. ground (arith, entry-assign key key e c.cache, eq_refl key),
      λ h. ground (arith, entry-assign key other e c.cache, eq_iff key other),
    )

-- A second call within the interval answers what the first one returned, whatever the database
-- holds by then.
pub resolve_permissions_cached :
    (fuel fuel' now later : ℕ) (store store' : Store) (ids : List String) (c : Cache) {w : Walk}
    → (resolve_permissions fuel now store ids c).0 ≡ returned w
    → get now (create_mongoose_index ids) c ≡ none
    → later ≤ now + c.clear_interval
    → (resolve_permissions fuel' later store' ids (resolve_permissions fuel now store ids c).1).0
      ≡ returned (record empty_walk { permissions = w.permissions })
unfolding resolve_permissions
resolve_permissions_cached fuel fuel' now later store store' ids c {w} h miss t =
    let key = create_mongoose_index ids in
    ground (arith, (get-update now later key key w.permissions c).0 t)
