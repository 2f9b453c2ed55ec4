-- ===== src/Role/Resolve.antt =====
-- src/services/role/model.js: `resolvePermissions`, over the cache of src/utils/cache.js.
-- The array of the processed ids is searched by `includes`, which compares the objects of the
-- driver by identity: an id is an address with a text, and each document that is loaded brings
-- ids at new addresses. The queries of one call run one after the other here; their order
-- changes only the order in which the set is filled.
pub mod Cache
pub mod Laws
pub mod Cycle
use schulcloud.Base.{
  ◌≡◌, refl, ℕ, zero, suc, ◌+◌, String, Option, none, some, List, [], ◌∷◌, ◌++◌, Bool, true, false,
  not, ◌||◌, nat_eq, includes, filter, if◌then◌else◌, Error, type_error,
}
use schulcloud.Role.{Role}

pub record Ref : Type 0 where
  pub address : ℕ
  pub id : String

pub record Walk : Type 0 where
  pub next : ℕ  -- the next free address
  pub processed : List Ref
  pub permissions : List String

-- `running` means that the fuel ran out.
pub data Run : Type 0 where
  returned : Walk → Run
  threw : Error → Run
  running : Run

infixl 5 ◌>>=◌
abbrev pub ◌>>=◌ : Run → (Walk → Run) → Run
returned w >>= f = f w
threw e >>= f = threw e
running >>= f = running

-- `roleModel.findById(id)`
abbrev pub Store : Type 0
Store = String → Option Role

abbrev pub hydrate : ℕ → List String → List Ref
hydrate next [] = []
hydrate next (id ∷ ids) = record { address = next; id = id } ∷ hydrate (suc next) ids

-- The next free address behind those of `hydrate`.
abbrev pub after : ℕ → List String → ℕ
after next [] = next
after next (_ ∷ ids) = after (suc next) ids

-- `processedRoleIds.includes(id)`
abbrev pub is_processed : List Ref → Ref → Bool
is_processed [] ref = false
is_processed (p ∷ ps) ref = nat_eq p.address ref.address || is_processed ps ref

-- `Set.add` of each element
abbrev pub add_all : List String → List String → List String
add_all set [] = set
add_all set (p ∷ ps) = add_all (if includes set p then set else set ++ p ∷ []) ps

unfoldable pub visit_all : (String → Walk → Run) → List Ref → Walk → Run
visit_all visit [] w = returned w
visit_all visit (ref ∷ refs) w = do w' ← visit ref.id w; visit_all visit refs w'

-- The body of `resolveSubRoles` for a role that was found, with the recursive call as `visit`.
unfoldable pub enter : (String → Walk → Run) → Role → Walk → Run
enter visit role w =
    let refs = hydrate w.next role.roles in
    let fresh = filter (λ ref. not (is_processed w.processed ref)) refs in
    visit_all visit fresh (record {
      next = after w.next role.roles;
      processed = w.processed ++ fresh;
      permissions = add_all w.permissions role.permissions;
    })

-- A missing role is null, which is an object to `typeof`, so that reading its permissions throws.
unfoldable pub resolve_sub_roles : ℕ → Store → String → Walk → Run
resolve_sub_roles zero store id w = running
resolve_sub_roles (suc fuel) store id w =
    let visit = resolve_sub_roles fuel store in
    elim (store id) [ none ↦ threw type_error | some role ↦ enter visit role w ]

abbrev pub empty_walk : Walk
empty_walk = record { next = 0; processed = []; permissions = [] }

unfoldable pub resolve_each : ℕ → Store → List String → Walk → Run
resolve_each fuel store [] w = returned w
resolve_each fuel store (id ∷ ids) w = do
  w' ← resolve_sub_roles fuel store id w
  resolve_each fuel store ids w'

-- Inversion of a walk that returned.
pub >>=-eq-returned :
    (m : Run) (f : Walk → Run) {w : Walk}
    → (m >>= f) ≡ returned w
    → (v : Walk) × (m ≡ returned v) × (f v ≡ returned w)
>>=-eq-returned (returned v) f h = (v, refl, h)
>>=-eq-returned (threw e) f h = cc
>>=-eq-returned running f h = cc
