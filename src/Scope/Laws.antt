-- ===== src/Scope/Laws.antt =====
-- Who has which permissions in a course, and who passes the check of a scope.
use schulcloud.Base.{
  String, ◌≡◌, ◌⊎◌, inl, inr, Option, none, some, List, [], ◌∷◌, any, all, includes, true, ◌==◌,
  ◌&&◌, arith, truthy, Result, ok, err, bad_request, ap, Bool-cases, Exists, All, Has, any_iff,
  includes_iff, >>=-eq-ok, eq_iff, sym, ◌∙◌,
}
use schulcloud.ObjectId.{equal}
use schulcloud.Scope.{
  get_user_permissions, or_empty, PermissionService, get_scope_permissions, check_scope_permissions,
  Course, User, course_role, determine_course_permissions, course_permissions, user_is_superhero,
  user_is_admin, belongs_to_same_school, is_in,
}

abbrev Among : List String → String → Type 0
Among ids user = Exists (λ id. equal user id ≡ true) ids

-- The user has the role in the course: as a superhero or an administrator of the course's school,
-- or as one of the course's teachers, substitution teachers or students.
abbrev pub Plays : String → User → Course → String → Type 0
Plays id user course role =
    (role ≡ "courseAdministrator")
      × (Has user.role_names "superhero"
          ⊎ Has user.role_names "administrator" × (equal user.school_id course.school_id ≡ true))
    ⊎ (role ≡ "courseTeacher") × Among course.teacher_ids id
    ⊎ (role ≡ "courseSubstitutionTeacher") × Among course.substitution_ids id
    ⊎ (role ≡ "courseStudent") × Among course.user_ids id

any-Has : (names : List String) (name : String) → any (λ r. r == name) names ≡ true → Has names name
any-Has [] name h = cc
any-Has (r ∷ rest) name h = ground (arith, any-Has rest name, eq_iff r name)

is_in-Among : (ids : List String) (user : String) → is_in ids user ≡ true → Among ids user
is_in-Among ids user h = let (to, from) = any_iff (λ id. equal user id) ids in to h

course_role-Plays :
    (id : String) (user : User) (course : Course) (role : String)
    → course_role id user course ≡ ok role
    → Plays id user course role
unfolding course_role
course_role-Plays id user course role h = elim (Bool-cases (user_is_superhero user)) [
  | inl a ↦ inl (ground arith, inl (any-Has user.role_names "superhero" a))
  | inr a ↦ elim (Bool-cases (user_is_admin user && belongs_to_same_school user course)) [
    | inl b ↦
        inl
          (ground arith, inr (any-Has user.role_names "administrator" (ground arith), ground arith))
    | inr b ↦ elim (Bool-cases (is_in course.teacher_ids id)) [
      | inl c ↦ inr (inl (ground arith, is_in-Among course.teacher_ids id c))
      | inr c ↦ elim (Bool-cases (is_in course.substitution_ids id)) [
        | inl d ↦ inr (inr (inl (ground arith, is_in-Among course.substitution_ids id d)))
        | inr d ↦ inr (inr (inr (ground arith, is_in-Among course.user_ids id (ground arith))))
      ]
    ]
  ]
]

module _ (get_user : String → Result User) (get_permissions : String → Result (List String)) where
  -- The user has the role in the course, and the permissions are the role's.
  abbrev Granted : String → Course → List String → Type 0
  Granted user course permissions =
      (u : User) × (role : String) × (get_user user ≡ ok u)
      × Plays user u course role
      × (get_permissions role ≡ ok permissions)

  determine_course_permissions-Granted :
      (user : String) (course : Course) (answer : Option (List String))
      → truthy (some user) ≡ true
      → determine_course_permissions get_user get_permissions (some user) (some course) ≡ ok answer
      → Granted user course (or_empty answer)
  unfolding determine_course_permissions
  determine_course_permissions-Granted user course answer t h =
      let (u, g, h2) = >>=-eq-ok (get_user user) _ (rw t at h) in
      let (role, r, h3) = >>=-eq-ok (course_role user u course) _ h2 in
      let (found, f, k) = >>=-eq-ok (get_permissions role) _ h3 in
      let same : some found ≡ answer = ground arith in
      rw (← same) (u, role, g, course_role-Plays user u course role r, f)

  course_permissions-Granted :
      (get_course : String → Result Course) (user id : String) (permissions : List String)
      → truthy (some user) ≡ true
      → course_permissions get_course get_user get_permissions (some user) id ≡ ok permissions
      → (course : Course) × (get_course id ≡ ok course) × Granted user course permissions
  unfolding course_permissions get_user_permissions
  course_permissions-Granted get_course user id permissions t h =
      let (course, c, h1) = >>=-eq-ok (get_course id) _ h in
      let (answer, d, e) =
        >>=-eq-ok (determine_course_permissions get_user get_permissions (some user) (some course))
          _ h1 in
      let same : or_empty answer ≡ permissions = ground arith in
      (course, c, rw (← same) (determine_course_permissions-Granted user course answer t d))

get_scope_permissions-some :
    (services : String → Option PermissionService) (service : PermissionService)
    (user : Option String) (name id : String)
    → services name ≡ some service
    → get_scope_permissions services user name id ≡ service user id
unfolding get_scope_permissions
get_scope_permissions-some services service user name id s =
    ap (λ o. elim o [ none ↦ err bad_request | some found ↦ found user id ]) s

all-Has :
    (permissions required : List String)
    → all (λ p. includes permissions p) required ≡ true
    → All (Has permissions) required
all-Has permissions [] h = tt
all-Has permissions (p ∷ rest) h =
    let (to, from) = includes_iff permissions p in
    (to (ground arith), all-Has permissions rest (ground arith))

-- Where a course is the scope, a user passes the check only with a role in the course (as a
-- superhero, an administrator of the course's school, or one of its teachers, substitution teachers
-- or students) whose permissions include all that are required.
pub check_scope_permissions-Plays :
    (services : String → Option PermissionService) (get_course : String → Result Course)
    (get_user : String → Result User) (get_permissions : String → Result (List String))
    (required : List String) (id user : String)
    → services "courses" ≡ some (course_permissions get_course get_user get_permissions)
    → truthy (some user) ≡ true
    → check_scope_permissions services required
        (record { scope_name = some "courses"; scope_id = some id })
        (some user)
      ≡ ok tt
    → (course : Course) × (u : User) × (role : String) × (permissions : List String) × (get_course
          id
        ≡ ok course)
      × (get_user user ≡ ok u)
      × Plays user u course role
      × (get_permissions role ≡ ok permissions)
      × All (Has permissions) required
unfolding check_scope_permissions
check_scope_permissions-Plays services get_course get_user get_permissions required id user s t h =
    let (permissions, p, rest) =
      >>=-eq-ok (get_scope_permissions services (some user) "courses" id) _ h in
    let service = course_permissions get_course get_user get_permissions in
    let looked_up = get_scope_permissions-some services service (some user) "courses" id s in
    let (course, c, granted) =
      course_permissions-Granted get_user get_permissions get_course user id permissions t
        (sym looked_up ∙ p) in
    let (u, role, g, plays, found) = granted in
    (course, u, role, permissions, c, g, plays, found, all-Has permissions required (ground arith))
