-- ===== src/UserHooks/Hierarchy/Deletion.antt =====
-- Who may delete which users.
use schulcloud.Base.{
  String, ◌≡◌, ◌↔◌, ◌⊎◌, inl, inr, refl, Option, List, [], ◌∷◌, ◌++◌, any, all, includes, Bool,
  true, false, not, All, Has, arith, ap, ◌∙◌, includes_iff, Result, ok, forbidden, if◌then◌else◌,
  >>=-eq-ok, ◌>>=◌, throw_if, all_iff, All-map,
}
use schulcloud.Hook.{User}
use schulcloud.Hook.Roles.{is_named, or_blank, Services, has_role_no_hook, has_permission_no_hook}
use schulcloud.Hook.Roles.Laws.{filter-any}
use schulcloud.UserHooks.Hierarchy.{
  all_of, or_forbidden, when, enforce_role_hierarchy_on_delete_single, role_promise, role_id,
  BulkQuery, bulk_matches, enforce_role_hierarchy_on_delete_bulk,
}
use schulcloud.UserHooks.Hierarchy.Laws.{Plays, Plays-iff}

-- The hook for a target that is or is not a student, a teacher and an administrator, and for one
-- who may or may not delete students and teachers.
abbrev verdict : Bool → Bool → Bool → Bool → Bool → Bool → Result (Unit {0})
verdict superhero student teacher admin students teachers = or_forbidden (
    if superhero
    then ok tt
    else (all_of
          (when student (ok students) ++ (when teacher (ok teachers) ++ when admin (ok superhero)))
        >>= λ checks. throw_if (not (all (λ b. b) checks)) forbidden))

verdict_iff :
    (superhero student teacher admin students teachers : Bool)
    → (verdict superhero student teacher admin students teachers ≡ ok tt) ↔ (
        (superhero ≡ true)
        ⊎ (student ≡ true → students ≡ true) × (teacher ≡ true → teachers ≡ true) × (admin ≡ false))
verdict_iff true s t a ss ts = (λ h. inl refl, λ h. refl)
verdict_iff false s t a ss ts = ground arith

module _ (services : Services) (user_id id : Option String) (acting target : User)
    (acting_found : services.find_users (or_blank user_id) ≡ ok (acting ∷ []))
    (acting_got : services.get_user (or_blank user_id) ≡ ok acting)
    (target_found : services.find_users (or_blank id) ≡ ok (target ∷ [])) where
  enforce_delete-eq-verdict :
      enforce_role_hierarchy_on_delete_single services user_id id
      ≡ verdict
          (any (is_named "superhero") acting.roles)
          (any (is_named "student") target.roles)
          (any (is_named "teacher") target.roles)
          (any (is_named "administrator") target.roles)
          (includes acting.permissions "STUDENT_DELETE")
          (includes acting.permissions "TEACHER_DELETE")
  unfolding enforce_role_hierarchy_on_delete_single has_role_no_hook has_permission_no_hook
  enforce_delete-eq-verdict =
      rw
        (
          acting_found,
          acting_got,
          target_found,
          filter-any (is_named "superhero") acting.roles,
          filter-any (is_named "student") target.roles,
          filter-any (is_named "teacher") target.roles,
          filter-any (is_named "administrator") target.roles,
        )
        refl

  -- Where the services answer with the same two users, a deletion passes exactly if a superhero
  -- asks for it, or: the one who asks may delete students if the target is one, may delete teachers
  -- if it is one, and the target is no administrator.
  pub enforce_role_hierarchy_on_delete_single_iff :
      (enforce_role_hierarchy_on_delete_single services user_id id ≡ ok tt) ↔ (
        Plays acting "superhero"
        ⊎ (Plays target "student" → Has acting.permissions "STUDENT_DELETE")
          × (Plays target "teacher" → Has acting.permissions "TEACHER_DELETE")
          × (¬ Plays target "administrator"))
  enforce_role_hierarchy_on_delete_single_iff = rw enforce_delete-eq-verdict (
      ground (
        arith,
        verdict_iff (any (is_named "superhero") acting.roles)
            (any (is_named "student") target.roles) (any (is_named "teacher") target.roles)
            (any (is_named "administrator") target.roles)
            (includes acting.permissions "STUDENT_DELETE")
            (includes acting.permissions "TEACHER_DELETE"),
        Plays-iff acting "superhero",
        Plays-iff target "student",
        Plays-iff target "teacher",
        Plays-iff target "administrator",
        includes_iff acting.permissions "STUDENT_DELETE",
        includes_iff acting.permissions "TEACHER_DELETE",
      ))

-- The id belongs to the role of that name.
abbrev pub IdOf : (String → Result (List String)) → String → String → Type 0
IdOf roles name id = (rest : List String) × (roles name ≡ ok (id ∷ rest))

-- A role whose users the user may delete.
abbrev pub MayDelete : (String → Result (List String)) → User → String → Type 0
MayDelete roles user role =
    Has user.permissions "STUDENT_DELETE" × IdOf roles "student" role
    ⊎ Has user.permissions "TEACHER_DELETE" × IdOf roles "teacher" role

role_id-ids :
    (roles : String → Result (List String)) (name : String) (ids : List String) (id : String)
    (more : List String) (role : String)
    → roles name ≡ ok ids
    → role_id ids ≡ ok id
    → Has (id ∷ more) role ↔ ((true ≡ true) × IdOf roles name role ⊎ Has more role)
role_id-ids roles name [] id more role e h = absurd (ground arith)
role_id-ids roles name (x ∷ rest) id more role e h =
    let same : x ≡ id = ground arith in
    (
      elim [ inl k ↦ inl (refl, (rest, ground arith)) | inr k ↦ inr k ],
      elim [
        | inl k ↦ inl (let (t, found) = k in let (rest', e') = found in ground arith)
        | inr k ↦ inr k
      ],
    )

-- The ids that one promise adds.
role_promise-ids :
    (b : Bool) (roles : String → Result (List String)) (name : String) (rest : List (Result String))
    (allowed : List String)
    → all_of (role_promise b roles name ++ rest) ≡ ok allowed
    → (more : List String) × (all_of rest ≡ ok more)
      × ((role : String) → Has allowed role ↔ ((b ≡ true) × IdOf roles name role ⊎ Has more role))
role_promise-ids false roles name rest allowed h =
    (allowed, h, λ role. (λ k. inr k, elim [ inl k ↦ cc | inr k ↦ k ]))
role_promise-ids true roles name rest allowed h =
    let (id, first, h2) = >>=-eq-ok (roles name >>= role_id) _ h in
    let (more, others, h3) = >>=-eq-ok (all_of rest) _ h2 in
    let (ids, found, h4) = >>=-eq-ok (roles name) _ first in
    let same : (id ∷ more) ≡ allowed = ground arith in
    (more, others, λ role. rw (← same) (role_id-ids roles name ids id more role found h4))

promise_nil :
    (b : Bool) (roles : String → Result (List String)) (name : String)
    → role_promise b roles name ++ [] ≡ role_promise b roles name
promise_nil false roles name = refl
promise_nil true roles name = refl

-- The ids of the two promises.
allowed_ids :
    (roles : String → Result (List String)) (user : User) (allowed : List String)
    → all_of (
        role_promise (includes user.permissions "STUDENT_DELETE") roles "student"
        ++ role_promise (includes user.permissions "TEACHER_DELETE") roles "teacher")
      ≡ ok allowed
    → (role : String) → (includes allowed role ≡ true) ↔ MayDelete roles user role
allowed_ids roles user allowed h role =
    let teachers = includes user.permissions "TEACHER_DELETE" in
    let (more, e, first) =
      role_promise-ids (includes user.permissions "STUDENT_DELETE") roles "student" _ allowed h in
    let (last, e2, second) =
      role_promise-ids teachers roles "teacher" [] more
        (ap all_of (promise_nil teachers roles "teacher") ∙ e) in
    let empty : last ≡ [] = ground arith in
    ground (
      arith,
      first role,
      second role,
      includes_iff allowed role,
      includes_iff user.permissions "STUDENT_DELETE",
      includes_iff user.permissions "TEACHER_DELETE",
    )

module _ {ℓ κ} {Query : Type ℓ} {Person : Type κ} (matches : Query → Person → Bool)
    (roles_of : Person → List String) where
  -- What a removal of several users finds is what the query of the request finds, less the users
  -- with a role that the one who asks may not delete: that of students with the permission to
  -- delete students, and that of teachers with the one to delete teachers.
  pub enforce_role_hierarchy_on_delete_bulk-MayDelete :
      (roles : String → Result (List String)) (user : User) (query : Query) {q : BulkQuery Query}
      (person : Person)
      → enforce_role_hierarchy_on_delete_bulk roles user query ≡ ok q
      → (bulk_matches matches roles_of q person ≡ true)
        ↔ ((matches query person ≡ true) × All (MayDelete roles user) (roles_of person))
  unfolding enforce_role_hierarchy_on_delete_bulk
  enforce_role_hierarchy_on_delete_bulk-MayDelete roles user query {q} person h =
      let (allowed, e, k) =
        >>=-eq-ok
          (all_of (
            role_promise (includes user.permissions "STUDENT_DELETE") roles "student"
            ++ role_promise (includes user.permissions "TEACHER_DELETE") roles "teacher"))
          _ h in
      let same : (record { query = query; allowed_roles = allowed }) ≡ q = ground arith in
      let ids = allowed_ids roles user allowed e in
      rw (← same) (
        λ m. (
          ground arith,
          All-map _ _ (λ role. (ids role).0) (roles_of person)
              ((all_iff (λ role. includes allowed role) (roles_of person)).0 (ground arith)),
        ),
        λ (m, a). ground (
          arith,
          (all_iff (λ role. includes allowed role) (roles_of person)).1
              (All-map _ _ (λ role. (ids role).1) (roles_of person) a),
        ),
      )
