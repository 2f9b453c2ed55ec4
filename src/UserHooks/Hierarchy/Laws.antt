-- ===== src/UserHooks/Hierarchy/Laws.antt =====
-- Who may create and change which users.
use schulcloud.Base.{
  String, ◌≡◌, ◌↔◌, ◌⊎◌, inl, inr, refl, Option, none, some, List, [], ◌∷◌, map, any, find, is_some,
  true, false, Exists, All, Has, arith, Bool-cases, ◌==◌, eq_iff, Result, ok, >>=-eq-ok, All-map,
  Option-cases, Result-cases,
}
use schulcloud.ObjectId.{equal}
use schulcloud.Hook.{Role, User}
use schulcloud.Hook.Roles.{is_named}
use schulcloud.Hook.Roles.Laws.{filter-any}
use schulcloud.UserHooks.Hierarchy.{
  secure_patching, all_of, role_name, may_create, check_role, check_roles,
  enforce_role_hierarchy_on_create,
}

-- The user has a role of that name.
abbrev pub Plays : User → String → Type 0
Plays user name = Exists (λ role. role.name ≡ some name) user.roles

is_named_iff : (name : String) (role : Role) → (is_named name role ≡ true) ↔ (role.name ≡ some name)
is_named_iff name role = elim (Option-cases (role.name)) [
  | inl e ↦ rw e (λ h. cc, λ h. cc)
  | inr (n, e) ↦ rw e (ground (arith, eq_iff n name))
]

named_roles :
    (name : String) (roles : List Role)
    → (any (is_named name) roles ≡ true) ↔ Exists (λ role. role.name ≡ some name) roles
named_roles name [] = (λ h. cc, λ h. absurd h)
named_roles name (role ∷ rest) = ground (arith, is_named_iff name role, named_roles name rest)

pub Plays-iff :
    (user : User) (name : String) → (any (is_named name) user.roles ≡ true) ↔ Plays user name
Plays-iff user name = named_roles name user.roles

-- A change of a user passes exactly if a superhero makes it, or: the one who makes it is no demo
-- user and of the same school, and changes the own record, or is an administrator, or is a teacher
-- and the target is a student.
pub secure_patching_iff :
    (target acting : User) (id user_id : String)
    → (secure_patching target acting id user_id ≡ ok tt) ↔ (
        Plays acting "superhero"
        ⊎ (¬ Plays acting "demoStudent")
          × (¬ Plays acting "demoTeacher")
          × (equal target.school_id acting.school_id ≡ true)
          × ((equal id user_id ≡ true)
              ⊎ Plays acting "administrator"
              ⊎ Plays acting "teacher" × Plays target "student"))
unfolding secure_patching
secure_patching_iff target acting id user_id = ground (
  arith,
  Plays-iff acting "superhero",
  Plays-iff acting "demoStudent",
  Plays-iff acting "demoTeacher",
  Plays-iff acting "administrator",
  Plays-iff acting "teacher",
  Plays-iff target "student",
)

abbrev pub MayCreate : User → String → Type 0
MayCreate user name =
    (name ≡ "parent")
    ⊎ (name ≡ "teacher") × Has user.permissions "TEACHER_CREATE"
    ⊎ (name ≡ "student") × Has user.permissions "STUDENT_CREATE"

find_same_iff :
    (xs : List String) (s : String) → (is_some (find (λ p. p == s) xs) ≡ true) ↔ Has xs s
find_same_iff [] s = (λ h. cc, λ h. absurd h)
find_same_iff (x ∷ xs) s = ground (arith, eq_iff x s, find_same_iff xs s)

may_create-to : (user : User) (name : String) → may_create user name ≡ true → MayCreate user name
may_create-to user name h = elim (Bool-cases (name == "teacher")) [
  | inl t ↦
      inr (inl ((eq_iff name "teacher").0 t, (find_same_iff user.permissions _).0 (rw t at h)))
  | inr t ↦ elim (Bool-cases (name == "student")) [
    | inl s ↦
        inr
          (inr ((eq_iff name "student").0 s, (find_same_iff user.permissions _).0 (rw (t, s) at h)))
    | inr s ↦ inl ((eq_iff name "parent").0 (rw (t, s) at h))
  ]
]

may_create-from : (user : User) (name : String) → MayCreate user name → may_create user name ≡ true
may_create-from user name (inl e) = rw e refl
may_create-from user name (inr (inl (e, h))) =
    rw e ((find_same_iff user.permissions "TEACHER_CREATE").1 h)
may_create-from user name (inr (inr (e, h))) =
    rw e ((find_same_iff user.permissions "STUDENT_CREATE").1 h)

may_create_iff : (user : User) (name : String) → (may_create user name ≡ true) ↔ MayCreate user name
may_create_iff user name = (may_create-to user name, may_create-from user name)

-- The role that is given by its id or its name exists, and the user may create users with it.
abbrev pub Allowed : (String → Result String) → User → String → Type 0
Allowed roles user role = (name : String) × (role_name roles role ≡ ok name) × MayCreate user name

check_role_iff :
    (roles : String → Result String) (user : User) (role : String)
    → (check_role roles user role ≡ ok tt) ↔ Allowed roles user role
check_role_iff roles user role = elim (Result-cases (role_name roles role)) [
  | inl (name, e) ↦ rw e (
    λ h. (name, refl, may_create-to user name (ground arith)),
    λ a.
        let (x, e2, m) = a in
        let same : name ≡ x = ground arith in rw (may_create-from user name (rw same m)) refl,
  )
  | inr (e', e) ↦ rw e (λ h. cc, λ a. cc)
]

-- Promises that are all fulfilled.
pub all_of_iff :
    (f : String → Result (Unit {0})) (xs : List String)
    → ((done : List (Unit {0})) × (all_of (map f xs) ≡ ok done)) ↔ All (λ x. f x ≡ ok tt) xs
all_of_iff f [] = (λ h. tt, λ h. ([], refl))
all_of_iff f (x ∷ xs) =
    let (to, from) = all_of_iff f xs in
    (
      λ h.
          let (done, e) = h in
          let (a, first, e2) = >>=-eq-ok (f x) _ e in
          let (rest, others, e3) = >>=-eq-ok (all_of (map f xs)) _ e2 in (first, to (rest, others)),
      λ h. let (rest, others) = from h.1 in (tt ∷ rest, rw (h.0, others) refl),
    )

check_roles_iff :
    (roles : String → Result String) (user : User) (l : List String)
    → (check_roles roles user l ≡ ok tt) ↔ All (Allowed roles user) l
check_roles_iff roles user l =
    let (to, from) = all_of_iff (check_role roles user) l in
    (
      λ h.
          let (done, e, rest) = >>=-eq-ok (all_of (map (check_role roles user) l)) _ h in
          All-map _ _ (λ r. (check_role_iff roles user r).0) l (to (done, e)),
      λ a.
          let (done, e) = from (All-map _ _ (λ r. (check_role_iff roles user r).1) l a) in
          rw e refl,
    )

given_roles :
    (roles : String → Result String) (user : User) (l : List String)
    → Plays user "superhero"
      ⊎ ◌≡◌ {A = Option (List String)} (some l) none
      ⊎ ((m : List String) × (some l ≡ some m) × All (Allowed roles user) m)
    → any (is_named "superhero") user.roles ≡ false
    → All (Allowed roles user) l
given_roles roles user l (inl p) s = absurd (ground (arith, Plays-iff user "superhero"))
given_roles roles user l (inr (inl e)) s = absurd (ground arith)
given_roles roles user l (inr (inr (m, e, a))) s = let same : l ≡ m = ground arith in rw same a

-- The roles that a request gives to a new user pass exactly if a superhero creates the user, or no
-- roles are given, or each of them exists and is a parent's, a teacher's or a student's, where the
-- one who creates the user has the permission to create teachers or students.
pub enforce_role_hierarchy_on_create_iff :
    (roles : String → Result String) (user : User) (given : Option (List String))
    → (enforce_role_hierarchy_on_create roles user given ≡ ok tt) ↔ (
        Plays user "superhero"
        ⊎ (given ≡ none)
        ⊎ ((l : List String) × (given ≡ some l) × All (Allowed roles user) l))
unfolding enforce_role_hierarchy_on_create
enforce_role_hierarchy_on_create_iff roles user none = (λ h. inr (inl refl), λ h. ground arith)
enforce_role_hierarchy_on_create_iff roles user (some l) =
    let (plays, named) = Plays-iff user "superhero" in
    elim (Bool-cases (any (is_named "superhero") user.roles)) [
      | inl s ↦ (λ h. inl (plays s), λ h. rw (filter-any (is_named "superhero") user.roles, s) refl)
      | inr s ↦
          rw (filter-any (is_named "superhero") user.roles, s)
            (
              λ h. inr (inr (l, refl, (check_roles_iff roles user l).0 h)),
              λ h. (check_roles_iff roles user l).1 (given_roles roles user l h s),
            )
    ]
