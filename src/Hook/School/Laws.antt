-- ===== src/Hook/School/Laws.antt =====
-- What a request may still reach after the hooks of Hook/School.antt.
use schulcloud.Base.{
  String, ◌≡◌, Option, none, some, true, false, Result, ok, arith, eq_iff, truthy, to_string,
  Option-cases, Bool-cases, ◌&&◌, Result-cases, inl, inr, >>=-eq-ok, eq_refl, if◌then◌else◌, ◌⊎◌,
}
use schulcloud.ObjectId.{is_valid}
use schulcloud.ObjectId.Laws.{equal_iff, equal-eq, equal-to_string}
use schulcloud.Hook.{User, Context, one, is_change, is_write}
use schulcloud.Hook.Permission.{get_user, test_if_role_name_exist}
use schulcloud.Hook.School.{
  TargetService, check_route, check_target, own_school, has_query, restrict_query, restrict_data,
  restrict_to_current_school,
}

-- A target of the request, where it has one, belongs to the school.
abbrev pub TargetIn : String → TargetService → Context → Type 0
TargetIn school targets c =
    (is_change c.method && truthy c.id ≡ false) ⊎ (targets (to_string c.id) ≡ ok (some school))

-- The request `after`, let through from `before`, touches only the school: the route names no
-- other one, the target is in it, and the query and the data have it where the method uses them.
pub record Confined (school : String) (targets : TargetService) (before after : Context)
    : Type 0 where
  pub route : (truthy before.route_school_id ≡ false) ⊎ (before.route_school_id ≡ some school)
  pub target : TargetIn school targets before
  pub query :
      after.query_school_id ≡ (if has_query before then some school else before.query_school_id)
  pub written :
      after.data_school_id ≡ (if is_write before.method then some school else before.data_school_id)

own_school-eq :
    (school : String) (s t : Option String) → own_school school s ≡ ok t → t ≡ some school
unfolding own_school
own_school-eq school none t h = cc
own_school-eq school (some s) t h = ground (arith, equal-eq s school)

check_route-eq :
    (school : String) (c : Context)
    → check_route school c ≡ ok tt
    → (truthy c.route_school_id ≡ false) ⊎ (c.route_school_id ≡ some school)
unfolding check_route
check_route-eq school c h = elim (Option-cases c.route_school_id) [
  | inl e ↦ inl (rw e)
  | inr (s, e) ↦ ground (arith, eq_iff s school)
]

check_target-eq :
    (school : String) (targets : TargetService) (c : Context)
    → check_target school targets c ≡ ok tt
    → TargetIn school targets c
unfolding check_target
check_target-eq school targets c h = elim (Bool-cases (is_change c.method && truthy c.id)) [
  | inl e ↦ inr (elim (Result-cases (targets (to_string c.id))) [
    | inl (o, e2) ↦ ground (arith, equal-to_string o school)
    | inr (x, e2) ↦ ground arith
  ])
  | inr e ↦ inl e
]

restrict_query-eq :
    (school : String) (c d : Context)
    → restrict_query school c ≡ ok d
    → (d ≡ record c { query_school_id = d.query_school_id })
      × (d.query_school_id ≡ (if has_query c then some school else c.query_school_id))
unfolding restrict_query
restrict_query-eq school c d h =
    ground (arith, own_school-eq school c.query_school_id d.query_school_id)

restrict_data-eq :
    (school : String) (c d : Context)
    → restrict_data school c ≡ ok d
    → (d ≡ record c { data_school_id = d.data_school_id })
      × (d.data_school_id ≡ (if is_write c.method then some school else c.data_school_id))
unfolding restrict_data
restrict_data-eq school c d h =
    ground (arith, own_school-eq school c.data_school_id d.data_school_id)

-- A successful run of `restrictToCurrentSchool` for a user who is no superhero changes nothing
-- but the school of the query and of the data, and the request is confined to the user's school.
pub restrict_to_current_school-Confined :
    (users : Option String → Result (Option User)) (targets : TargetService) (c d : Context)
    (user : User)
    → get_user users c ≡ ok user
    → test_if_role_name_exist user (one "superhero") ≡ ok false
    → restrict_to_current_school users targets c ≡ ok d
    → (d ≡ record c { query_school_id = d.query_school_id; data_school_id = d.data_school_id })
      × Confined user.school_id targets c d
unfolding restrict_to_current_school
restrict_to_current_school-Confined users targets c d user u s h =
    let s1 = rw (u, s) at h in
    let (x1, r1, h1) = >>=-eq-ok (check_route user.school_id c) _ s1 in
    let (x2, r2, h2) = >>=-eq-ok (check_target user.school_id targets c) _ h1 in
    let (e, r3, r4) = >>=-eq-ok (restrict_query user.school_id c) _ h2 in
    let (same_e, queried) = restrict_query-eq user.school_id c e r3 in
    let (same_d, written) = restrict_data-eq user.school_id e d r4 in
    (
      ground arith,
      record {
        route = check_route-eq user.school_id c r1;
        target = check_target-eq user.school_id targets c r2;
        query = ground (arith, queried);
        written = ground (arith, written);
      },
    )

-- A superhero's request passes unchanged.
pub restrict_to_current_school-superhero :
    (users : Option String → Result (Option User)) (targets : TargetService) (c : Context)
    (user : User)
    → get_user users c ≡ ok user
    → test_if_role_name_exist user (one "superhero") ≡ ok true
    → restrict_to_current_school users targets c ≡ ok c
unfolding restrict_to_current_school
restrict_to_current_school-superhero users targets c user u s = ground arith

-- The field is missing or names the school.
abbrev pub Open : String → Option String → Type 0
Open school field = (field ≡ none) ⊎ (field ≡ some school)

own_school-ok :
    (school : String) (field : Option String)
    → is_valid school ≡ true
    → Open school field
    → own_school school field ≡ ok (some school)
unfolding own_school
own_school-ok school field v h = ground (arith, equal_iff school school)

check_route-ok :
    (school : String) (c : Context) → Open school c.route_school_id → check_route school c ≡ ok tt
unfolding check_route
check_route-ok school c h = ground (arith, eq_refl school)

check_target-ok :
    (school : String) (targets : TargetService) (c : Context)
    → is_valid school ≡ true
    → TargetIn school targets c
    → check_target school targets c ≡ ok tt
unfolding check_target
check_target-ok school targets c v h = ground (arith, equal_iff school school, eq_refl school)

-- A request that stays within the user's school is let through, and gets the school where it
-- named none.
pub restrict_to_current_school_admits :
    (users : Option String → Result (Option User)) (targets : TargetService) (c : Context)
    (user : User)
    → get_user users c ≡ ok user
    → test_if_role_name_exist user (one "superhero") ≡ ok false
    → is_valid user.school_id ≡ true
    → Open user.school_id c.route_school_id
    → TargetIn user.school_id targets c
    → Open user.school_id c.query_school_id
    → Open user.school_id c.data_school_id
    → restrict_to_current_school users targets c
      ≡ ok (record c {
        query_school_id = if has_query c then some user.school_id else c.query_school_id;
        data_school_id = if is_write c.method then some user.school_id else c.data_school_id;
      })
unfolding restrict_to_current_school restrict_query restrict_data
restrict_to_current_school_admits users targets c user u s v r t q w = ground (
  arith,
  check_route-ok user.school_id c r,
  check_target-ok user.school_id targets c v t,
  own_school-ok user.school_id c.query_school_id v q,
  own_school-ok user.school_id c.data_school_id v w,
)
