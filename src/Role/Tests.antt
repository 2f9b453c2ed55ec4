-- ===== src/Role/Tests.antt =====
-- The theorems about roles at concrete roles.
use schulcloud.Base.{
  ℕ, String, ◌≡◌, ◌≢◌, refl, ◌↔◌, ◌⊎◌, inl, inr, none, some, List, [], ◌∷◌, true, false, arith,
  Bool-cases, Has, Exists, if◌then◌else◌, ◌==◌,
}
use schulcloud.Role.{Role}
use schulcloud.Role.Resolve.{
  Walk, returned, Store, empty_walk, resolve_sub_roles, resolve_each, visit_all, enter,
}
use schulcloud.Role.Resolve.Laws.{Grants, Ranked, resolve_each-Grants}
use schulcloud.Role.Resolve.Cycle.{resolve_sub_roles-cycle}
use schulcloud.Role.Resolve.Cache.{
  Cache, get, create_mongoose_index, resolve_permissions, resolve_permissions_cached, entry,
}
use schulcloud.Role.BySchool.{Overrides, SchoolPermissions, lookup, update_role, user_permissions}
use schulcloud.Role.BySchool.Laws.{
  DistinctKeys, Effective, update_role_iff, Enables, WellKeyed, user_permissions_iff,
}
use schulcloud.Role.Sort.{sort_roles, start_roles}
use schulcloud.Role.Sort.Laws as S
use schulcloud.Role.Sort.Laws.{In, Levels, sort_roles-Levels}
use mathlib.Core.Path.{subst}

abbrev user_role : Role
user_role = record { id = "u"; name = "user"; permissions = "NEWS_VIEW" ∷ []; roles = [] }

abbrev teacher : Role
teacher = record {
  id = "t";
  name = "teacher";
  permissions = "HOMEWORK_CREATE" ∷ [];
  roles = "u" ∷ [];
}

abbrev two_roles : Store
two_roles id = if id == "t" then some teacher else if id == "u" then some user_role else none

abbrev rank : String → ℕ
rank id = if id == "t" then 1 else 0

teacher_of :
    (id : String) (role : Role) → id == "t" ≡ true → two_roles id ≡ some role → teacher ≡ role
teacher_of id role e h = ground arith

user_of :
    (id : String) (role : Role) → id == "t" ≡ false → two_roles id ≡ some role → user_role ≡ role
user_of id role e h = ground arith

two_roles-Ranked : Ranked two_roles rank
two_roles-Ranked id role h = elim (Bool-cases (id == "t")) [
  | inl e ↦ rw (← teacher_of id role e h) ((ground arith, (user_role, refl)), tt)
  | inr e ↦ rw (← user_of id role e h) tt
]

resolve_each-Grants_example :
    (w : Walk) × (resolve_each 5 two_roles ("t" ∷ []) empty_walk ≡ returned w)
    × ((p : String) → Has w.permissions p ↔ Exists (λ id. Grants two_roles id p) ("t" ∷ []))
resolve_each-Grants_example =
    resolve_each-Grants two_roles rank 5 ("t" ∷ []) two_roles-Ranked
      ((omega arith, (teacher, refl)), tt)

abbrev loop : Role
loop = record { id = "a"; name = "loop"; permissions = []; roles = "a" ∷ [] }

abbrev looping : Store
looping _ = some loop

resolve_sub_roles-cycle_example : resolve_sub_roles 9 looping "a" empty_walk ≢ returned empty_walk
resolve_sub_roles-cycle_example =
    resolve_sub_roles-cycle looping (λ _. Unit) (λ id c. (loop, refl, inl tt)) 9 "a" empty_walk
      empty_walk tt tt

abbrev no_entries : Cache
no_entries = record { cache = []; clear_interval = 3600000 }

abbrev teacher_walk : Walk
teacher_walk = record {
  next = 1;
  processed = record { address = 0; id = "u" } ∷ [];
  permissions = "HOMEWORK_CREATE" ∷ "NEWS_VIEW" ∷ [];
}

walked : (resolve_permissions 5 100 two_roles ("t" ∷ []) no_entries).0 ≡ returned teacher_walk
unfolding resolve_permissions resolve_each resolve_sub_roles enter visit_all get entry
    create_mongoose_index
walked = refl

missed : get 100 (create_mongoose_index ("t" ∷ [])) no_entries ≡ none
unfolding get entry
missed = refl

resolve_permissions_cached_run :
    (resolve_permissions 1 200 looping
      ("t" ∷ [])
      (resolve_permissions 5 100 two_roles ("t" ∷ []) no_entries).1).0
    ≡ returned (record empty_walk { permissions = "HOMEWORK_CREATE" ∷ "NEWS_VIEW" ∷ [] })
resolve_permissions_cached_run =
    resolve_permissions_cached 5 1 100 200 two_roles looping ("t" ∷ []) no_entries walked missed
      (omega arith)

abbrev school : SchoolPermissions
school = ("teacher", ("STUDENT_LIST", true) ∷ ("HOMEWORK_CREATE", false) ∷ []) ∷ []

abbrev teacher_overrides : Overrides
teacher_overrides = ("STUDENT_LIST", true) ∷ ("HOMEWORK_CREATE", false) ∷ []

teacher_overrides-DistinctKeys : DistinctKeys teacher_overrides
unfolding lookup
teacher_overrides-DistinctKeys = (refl, (refl, tt))

named : lookup "teacher" school ≡ some teacher_overrides
unfolding lookup
named = refl

update_role_iff_run :
    Has (update_role school teacher).permissions "HOMEWORK_CREATE"
    ↔ Effective teacher_overrides ("HOMEWORK_CREATE" ∷ []) "HOMEWORK_CREATE"
update_role_iff_run =
    update_role_iff school teacher teacher_overrides "HOMEWORK_CREATE" named
      teacher_overrides-DistinctKeys

school-WellKeyed : WellKeyed school
unfolding lookup
school-WellKeyed name overrides h = elim (Bool-cases ("teacher" == name)) [
  | inl e ↦
      let same : teacher_overrides ≡ overrides = ground arith in
      subst DistinctKeys same teacher_overrides-DistinctKeys
  | inr e ↦ ground arith
]

user_permissions_iff_run :
    Has (user_permissions ("NEWS_VIEW" ∷ []) ("teacher" ∷ []) school) "STUDENT_LIST" ↔ (
      Has ("NEWS_VIEW" ∷ []) "STUDENT_LIST"
      ⊎ Exists (Enables school "STUDENT_LIST") ("teacher" ∷ []))
user_permissions_iff_run =
    user_permissions_iff ("NEWS_VIEW" ∷ []) ("teacher" ∷ []) school "STUDENT_LIST" school-WellKeyed

roles-Ranked : S.Ranked rank 1 (teacher ∷ user_role ∷ [])
roles-Ranked r (inl e) =
    rw (← e) (omega arith, λ c h. elim h [ inl q ↦ rw (← q) (ground arith) | inr bad ↦ absurd bad ])
roles-Ranked r (inr (inl e)) = rw (← e) (ground arith, λ c h. absurd h)
roles-Ranked r (inr (inr bad)) = absurd bad

sort_roles-Levels_example :
    (levels : List (List Role)) × (sort_roles 2 (teacher ∷ user_role ∷ [])
      ≡ some (start_roles (teacher ∷ user_role ∷ []) ∷ levels))
    × ((r : Role)
        → In r (start_roles (teacher ∷ user_role ∷ []))
          ↔ (In r (teacher ∷ user_role ∷ []) × (r.roles ≡ [])))
    × Levels (teacher ∷ user_role ∷ []) (start_roles (teacher ∷ user_role ∷ [])) levels
sort_roles-Levels_example = sort_roles-Levels rank 1 (teacher ∷ user_role ∷ []) roles-Ranked
