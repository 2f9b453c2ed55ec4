-- ===== src/Role/Resolve/Laws.antt =====
-- On roles that inherit along no cycle `resolvePermissions` returns what the roles grant.
use schulcloud.Base.{
  ℕ, zero, suc, ◌≤◌, ◌<◌, ◌≡◌, refl, ◌↔◌, ◌⊎◌, inl, inr, String, some, List, [], ◌∷◌, ◌++◌, false,
  not, arith, includes, filter, Has, Has-add, Exists, All, All-map, if◌then◌else◌,
}
use schulcloud.Role.{Role}
use schulcloud.Role.Resolve.{
  Ref, Walk, Run, returned, Store, hydrate, after, is_processed, add_all, visit_all, enter,
  resolve_sub_roles, empty_walk, resolve_each,
}

-- The role with this id has the permission, or one that it inherits from grants it.
pub data Grants (store : Store) : String → String → Type 0 where
  own :
      {id permission : String} (role : Role)
      → store id ≡ some role
      → Has role.permissions permission
      → Grants store id permission
  inherited :
      {id permission : String} (role : Role) (parent : String)
      → store id ≡ some role
      → Has role.roles parent
      → Grants store parent permission
      → Grants store id permission

-- Every id that was processed has an address in use.
abbrev pub Below : ℕ → List Ref → Type 0
Below n refs = All (λ r. r.address < n) refs

abbrev pub IsFresh : Walk → Type 0
IsFresh w = Below w.next w.processed

is_processed-Below :
    (n : ℕ) (refs : List Ref) (r : Ref) → Below n refs → n ≤ r.address → is_processed refs r ≡ false
is_processed-Below n [] r h le = refl
is_processed-Below n (p ∷ ps) r h le = ground (arith, is_processed-Below n ps r h.1 le)

-- The addresses of a document that was just loaded are new, so the filter keeps all its ids.
pub filter-hydrate :
    (n m : ℕ) (processed : List Ref) (ids : List String)
    → Below n processed
    → n ≤ m
    → filter (λ r. not (is_processed processed r)) (hydrate m ids) ≡ hydrate m ids
filter-hydrate n m processed [] h le = refl
filter-hydrate n m processed (id ∷ ids) h le = ground (
  arith,
  is_processed-Below n processed (record { address = m; id = id }) h le,
  filter-hydrate n (suc m) processed ids h (omega arith),
)

pub after-le : (m : ℕ) (ids : List String) → m ≤ after m ids
after-le m [] = omega arith
after-le m (id ∷ ids) = omega (arith, after-le (suc m) ids)

pub hydrate-Below : (m : ℕ) (ids : List String) → Below (after m ids) (hydrate m ids)
hydrate-Below m [] = tt
hydrate-Below m (id ∷ ids) = (omega (arith, after-le (suc m) ids), hydrate-Below (suc m) ids)

pub Below-append : (n : ℕ) (xs ys : List Ref) → Below n xs → Below n ys → Below n (xs ++ ys)
Below-append n [] ys h k = k
Below-append n (x ∷ xs) ys (h, hs) k = (h, Below-append n xs ys hs k)

pub Below-mono : (n m : ℕ) (xs : List Ref) → n ≤ m → Below n xs → Below m xs
Below-mono n m xs le h = All-map _ _ (λ r (q : r.address < n). omega arith) xs h

Has-add_all : (set ps : List String) (s : String) → Has (add_all set ps) s ↔ (Has set s ⊎ Has ps s)
Has-add_all set [] s = (λ h. inl h, elim [ inl h ↦ h | inr h ↦ absurd h ])
Has-add_all set (p ∷ ps) s =
    ground
      (arith, Has-add_all (if includes set p then set else set ++ p ∷ []) ps s, Has-add set p s)

-- The run returns a walk that has gained what the roles with these ids grant.
abbrev pub Adds : Store → List String → Walk → Run → Type 0
Adds store ids w run =
    (w' : Walk) × (run ≡ returned w')
    × IsFresh w'
    × ((p : String)
        → Has w'.permissions p ↔ (Has w.permissions p ⊎ Exists (λ id. Grants store id p) ids))

visit_all-Adds :
    (store : Store) (visit : String → Walk → Run) (m : ℕ) (ids : List String) (w : Walk)
    → All (λ id. (v : Walk) → IsFresh v → Adds store (id ∷ []) v (visit id v)) ids
    → IsFresh w
    → Adds store ids w (visit_all visit (hydrate m ids) w)
unfolding visit_all
visit_all-Adds store visit m [] w h fresh =
    (w, refl, fresh, λ p. (λ k. inl k, elim [ inl k ↦ k | inr k ↦ absurd k ]))
visit_all-Adds store visit m (id ∷ ids) w (h, hs) fresh =
    let (w1, r1, f1, s1) = h w fresh in
    let (w2, r2, f2, s2) = visit_all-Adds store visit (suc m) ids w1 hs f1 in
    (w2, rw r1 r2, f2, λ p. ground (arith, s1 p, s2 p))

Has-Exists :
    (P : String → Type 0) (ids : List String) (id : String) → Has ids id → P id → Exists P ids
Has-Exists P (x ∷ xs) id (inl e) p = inl (rw e p)
Has-Exists P (x ∷ xs) id (inr h) p = inr (Has-Exists P xs id h p)
Has-Exists P [] id h p = absurd h

Exists-Has :
    (P : String → Type 0) (ids : List String) → Exists P ids → (id : String) × (Has ids id) × P id
Exists-Has P [] h = absurd h
Exists-Has P (x ∷ xs) (inl p) = (x, inl refl, p)
Exists-Has P (x ∷ xs) (inr h) = let (id, m, p) = Exists-Has P xs h in (id, inr m, p)

some-eq : {a b : Role} → some a ≡ some b → a ≡ b
some-eq e = cc

Grants-of_role :
    (store : Store) {id permission : String} (role : Role)
    → store id ≡ some role
    → Grants store id permission
    → Has role.permissions permission ⊎ Exists (λ i. Grants store i permission) role.roles
Grants-of_role store role e (own other e' h) = let same : other ≡ role = cc in inl (rw same at h)
Grants-of_role store {permission = permission} role e (inherited other parent e' h g) =
    let same : other ≡ role = cc in
    inr (Has-Exists (λ i. Grants store i permission) role.roles parent (rw same at h) g)

Grants-iff :
    (store : Store) (id permission : String) (role : Role)
    → store id ≡ some role
    → Grants store id permission
      ↔ (Has role.permissions permission ⊎ Exists (λ i. Grants store i permission) role.roles)
Grants-iff store id permission role e = (
  Grants-of_role store role e,
  elim [
    | inl h ↦ own role e h
    | inr h ↦
        let (parent, m, g) = Exists-Has (λ i. Grants store i permission) role.roles h in
        inherited role parent e m g
  ],
)

enter-Adds :
    (store : Store) (visit : String → Walk → Run) (id : String) (role : Role) (w : Walk)
    → store id ≡ some role
    → All (λ i. (v : Walk) → IsFresh v → Adds store (i ∷ []) v (visit i v)) role.roles
    → IsFresh w
    → Adds store (id ∷ []) w (enter visit role w)
unfolding enter
enter-Adds store visit id role w e h fresh =
    let kept = filter-hydrate w.next w.next w.processed role.roles fresh (omega arith) in
    let v : Walk = record {
      next = after w.next role.roles;
      processed = w.processed ++ hydrate w.next role.roles;
      permissions = add_all w.permissions role.permissions;
    } in
    let fresh_v =
      Below-append v.next w.processed (hydrate w.next role.roles)
        (Below-mono w.next v.next w.processed (after-le w.next role.roles) fresh)
        (hydrate-Below w.next role.roles) in
    let (w', r, f, s) = visit_all-Adds store visit w.next role.roles v h fresh_v in
    rw kept (
      w',
      r,
      f,
      λ p.
          ground (
            arith,
            s p,
            Has-add_all w.permissions role.permissions p,
            Grants-iff store id p role e,
          ),
    )

-- Inheritance goes down in rank, and every role that is inherited from exists.
abbrev pub Ranked : Store → (String → ℕ) → Type 0
Ranked store rank =
    (id : String) (role : Role)
    → store id ≡ some role
    → All (λ parent. (rank parent < rank id) × ((r : Role) × (store parent ≡ some r))) role.roles

pub resolve_sub_roles-eq-enter :
    (fuel : ℕ) (store : Store) (id : String) (role : Role) (w : Walk)
    → store id ≡ some role
    → resolve_sub_roles (suc fuel) store id w ≡ enter (resolve_sub_roles fuel store) role w
unfolding resolve_sub_roles
resolve_sub_roles-eq-enter fuel store id role w e = ground arith

resolve_sub_roles-Adds :
    (store : Store) (rank : String → ℕ)
    → Ranked store rank
    → (fuel : ℕ) (id : String) (role : Role) (w : Walk) → rank id < fuel
    → store id ≡ some role
    → IsFresh w
    → Adds store (id ∷ []) w (resolve_sub_roles fuel store id w)
resolve_sub_roles-Adds store rank ranked zero id role w lt e fresh = absurd (omega arith)
resolve_sub_roles-Adds store rank ranked (suc fuel) id role w lt e fresh =
    rw (resolve_sub_roles-eq-enter fuel store id role w e) (
      enter-Adds store (resolve_sub_roles fuel store) id role w e
        (All-map _ _
          (λ parent q v f.
            resolve_sub_roles-Adds store rank ranked fuel parent (q.1).0 v (omega (arith, q.0))
              (q.1).1 f)
          role.roles (ranked id role e))
        fresh)

resolve_each-Adds :
    (store : Store) (rank : String → ℕ) (fuel : ℕ) (ids : List String) (w : Walk)
    → Ranked store rank
    → All (λ id. (rank id < fuel) × ((r : Role) × (store id ≡ some r))) ids
    → IsFresh w
    → Adds store ids w (resolve_each fuel store ids w)
unfolding resolve_each
resolve_each-Adds store rank fuel [] w ranked h fresh =
    (w, refl, fresh, λ p. (λ k. inl k, elim [ inl k ↦ k | inr k ↦ absurd k ]))
resolve_each-Adds store rank fuel (id ∷ ids) w ranked ((lt, (role, e)), hs) fresh =
    let (w1, r1, f1, s1) = resolve_sub_roles-Adds store rank ranked fuel id role w lt e fresh in
    let (w2, r2, f2, s2) = resolve_each-Adds store rank fuel ids w1 ranked hs f1 in
    (w2, rw r1 r2, f2, λ p. ground (arith, s1 p, s2 p))

-- Where inheritance goes down in rank and no role is missing, the walk over the ids returns, given
-- more fuel than their ranks, and its set holds exactly the permissions that one of them grants,
-- itself or by inheritance.
pub resolve_each-Grants :
    (store : Store) (rank : String → ℕ) (fuel : ℕ) (ids : List String)
    → Ranked store rank
    → All (λ id. (rank id < fuel) × ((r : Role) × (store id ≡ some r))) ids
    → (w : Walk) × (resolve_each fuel store ids empty_walk ≡ returned w)
      × ((p : String) → Has w.permissions p ↔ Exists (λ id. Grants store id p) ids)
resolve_each-Grants store rank fuel ids ranked h =
    let (w, r, f, s) = resolve_each-Adds store rank fuel ids empty_walk ranked h tt in
    (w, r, λ p. (λ k. elim ((s p).0 k) [ inl bad ↦ absurd bad | inr g ↦ g ], λ k. (s p).1 (inr k)))
