-- ===== src/Team/Users/Laws.antt =====
-- The list that a team is given: one entry for each user, and the owner's as it was.
use schulcloud.Base.{
  String, ◌≡◌, ◌↔◌, refl, ◌⊎◌, inl, inr, some, List, [], ◌∷◌, ◌++◌, find, false, ◌==◌, arith,
  includes, All, Exists, Has, includes_iff, Has-append, eq_iff, ok, Bool-cases, Option-cases,
  Option, Bool, Result, Result-cases, >>=-eq-ok, ap, sym, ◌∙◌, get_or,
}
use schulcloud.Team.{Role, TeamUser}
use schulcloud.Team.Users.{
  remove_duplicated, remove_duplicated_team_users, Input, map_input, map_inputs, find_role_id,
  selected_role, remove_team_users, invalid_users, remove_not_valid_users_by_school_ids,
  mapped_input_user_ids_to_team_users, get_team_users,
}

-- The list has an entry for the user with this id.
abbrev pub HasUser : List TeamUser → String → Type 0
HasUser users id = Exists (λ u. u.user_id ≡ id) users

-- No two entries are for one user.
abbrev pub Distinct : List TeamUser → Type 0
Distinct [] = Unit
Distinct (u ∷ rest) = (¬ HasUser rest u.user_id) × Distinct rest

Has-same : (l : List String) (a b : String) → a ≡ b → Has l a → Has l b
Has-same l a b e h = rw (← e) h

remove_duplicated-Has :
    (found : List String) (users : List TeamUser) (id : String)
    → HasUser (remove_duplicated found users) id ↔ (HasUser users id × (¬ Has found id))
unfolding remove_duplicated
remove_duplicated-Has found [] id = (λ h. absurd h, λ (h, k). absurd h)
remove_duplicated-Has found (u ∷ rest) id = elim (Bool-cases (includes found u.user_id)) [
  | inl old ↦ rw old (
      ground (
        arith,
        remove_duplicated-Has found rest id,
        includes_iff found u.user_id,
        Has-same found u.user_id id,
      ))
  | inr new ↦ rw new (
      ground (
        arith,
        remove_duplicated-Has (found ++ u.user_id ∷ []) rest id,
        includes_iff found u.user_id,
        Has-append found (u.user_id ∷ []) id,
        Has-same found id u.user_id,
        eq_iff u.user_id id,
      ))
]

skipped :
    (found : List String) (u : TeamUser) (rest : List TeamUser)
    → ¬ HasUser (remove_duplicated (found ++ u.user_id ∷ []) rest) u.user_id
skipped found u rest h =
    let (to, _) = remove_duplicated-Has (found ++ u.user_id ∷ []) rest u.user_id in
    let (_, fresh) = to h in
    let (_, last) = Has-append found (u.user_id ∷ []) u.user_id in fresh (last (inr (inl refl)))

remove_duplicated-Distinct :
    (found : List String) (users : List TeamUser) → Distinct (remove_duplicated found users)
unfolding remove_duplicated
remove_duplicated-Distinct found [] = tt
remove_duplicated-Distinct found (u ∷ rest) = elim (Bool-cases (includes found u.user_id)) [
  | inl old ↦ rw old (remove_duplicated-Distinct found rest)
  | inr new ↦
      rw new (skipped found u rest, remove_duplicated-Distinct (found ++ u.user_id ∷ []) rest)
]

-- The list without duplicates has one entry for each user that the list had an entry for, and for no
-- one else.
pub remove_duplicated_team_users-Distinct :
    (users : List TeamUser) (id : String)
    → Distinct (remove_duplicated_team_users users)
      × (HasUser (remove_duplicated_team_users users) id ↔ HasUser users id)
unfolding remove_duplicated_team_users
remove_duplicated_team_users-Distinct users id =
    let (to, from) = remove_duplicated-Has [] users id in
    (
      remove_duplicated-Distinct [] users,
      (λ h. let (member, _) = to h in member, λ h. from (h, λ k. absurd k)),
    )

remove_duplicated-All :
    (P : TeamUser → Type 0) (found : List String) (users : List TeamUser)
    → All P users
    → All P (remove_duplicated found users)
unfolding remove_duplicated
remove_duplicated-All P found [] h = tt
remove_duplicated-All P found (u ∷ rest) (h, hs) = elim (Bool-cases (includes found u.user_id)) [
  | inl old ↦ rw old (remove_duplicated-All P found rest hs)
  | inr new ↦ rw new (h, remove_duplicated-All P (found ++ u.user_id ∷ []) rest hs)
]

-- The request has an entry for the user with this id.
abbrev pub Names : List Input → String → Type 0
Names inputs id = Exists (λ (i : Input). i.user_id ≡ id) inputs

-- An entry for the owner has the owner's role and school.
abbrev pub KeepsRole : String → TeamUser → TeamUser → Type 0
KeepsRole owner_role owner u =
    ((owner.user_id == u.user_id) ≡ false) ⊎ (u.role ≡ owner_role) × (u.school_id ≡ owner.school_id)

module _ (is_object_id : String → Bool) (roles : List Role) (owner_role session_school : String)
    (owner : TeamUser) where
  abbrev make : Input → Result TeamUser
  make = map_input is_object_id roles owner_role owner session_school

  map_input-KeepsRole :
      (i : Input) (u : TeamUser)
      → map_input is_object_id roles owner_role owner session_school i ≡ ok u
      → (u.user_id ≡ i.user_id) × KeepsRole owner_role owner u
  unfolding map_input
  map_input-KeepsRole i u h = elim (Result-cases (selected_role is_object_id roles i.role)) [
    | inr (e, f) ↦ absurd (ground arith)
    | inl (role, f) ↦ elim (Bool-cases (owner.user_id == i.user_id)) [
      | inl e ↦
          let same : record { user_id = i.user_id; role = owner_role; school_id = owner.school_id }
              ≡ u =
            ground arith in
          rw (← same) (refl, inr (refl, refl))
      | inr e ↦
          let same : record {
            user_id = i.user_id;
            role = role;
            school_id = get_or i.school_id session_school;
          }
              ≡ u =
            ground arith in
          rw (← same) (refl, inl e)
    ]
  ]

  map_inputs-KeepsRole :
      (inputs : List Input) (users : List TeamUser)
      → map_inputs (map_input is_object_id roles owner_role owner session_school) inputs ≡ ok users
      → All (KeepsRole owner_role owner) users
        × ((id : String) → HasUser users id ↔ Names inputs id)
  unfolding map_inputs
  map_inputs-KeepsRole [] users h =
      let same : [] ≡ users = ground arith in rw (← same) (tt, λ id. (λ k. k, λ k. k))
  map_inputs-KeepsRole (i ∷ rest) users h =
      let (u, e, h1) =
        >>=-eq-ok (map_input is_object_id roles owner_role owner session_school i) _ h in
      let (others, f, h2) =
        >>=-eq-ok (map_inputs (map_input is_object_id roles owner_role owner session_school) rest) _
          h1 in
      let same : u ∷ others ≡ users = ground arith in
      let (is, keeps) = map_input-KeepsRole i u e in
      let (all_keep, members) = map_inputs-KeepsRole rest others f in
      rw (← same) (
        (keeps, all_keep),
        λ id.
            let (to, from) = members id in
            (
              elim [ inl a ↦ inl (sym is ∙ a) | inr b ↦ inr (to b) ],
              elim [ inl a ↦ inl (is ∙ a) | inr b ↦ inr (from b) ],
            ),
      )

remove_team_users-nobody :
    (users : List TeamUser) (ids : List (Option String)) → remove_team_users users ids ≡ users
unfolding remove_team_users
remove_team_users-nobody [] ids = refl
remove_team_users-nobody (u ∷ users) ids = ap (λ l. u ∷ l) (remove_team_users-nobody users ids)

-- When a request with an entry at least for the users of a team that exists is answered with a list,
-- the list has exactly one entry for each user that the request has an entry for, and none for
-- anybody else, whatever the users' schools are; and there is a role teamowner and the team
-- has an owner, and if the list has an entry for the first owner, then with that role and the
-- owner's school, whatever the request says.
pub get_team_users-KeepsRole :
    (is_object_id : String → Bool) (roles : List Role) (session_school : String)
    (school_ids : List String) (school_of : String → Option String) (team : List TeamUser)
    (i : Input) (inputs : List Input) (users : List TeamUser)
    → get_team_users is_object_id roles session_school school_ids school_of team (i ∷ inputs)
      ≡ ok users
    → Distinct users
      × ((id : String) → HasUser users id ↔ Names (i ∷ inputs) id)
      × ((owner_role : String) × (owner : TeamUser) × (find_role_id roles "teamowner"
            ≡ ok owner_role)
          × (find (λ u. u.role == owner_role) team ≡ some owner)
          × All (KeepsRole owner_role owner) users)
unfolding get_team_users mapped_input_user_ids_to_team_users remove_duplicated_team_users
    remove_not_valid_users_by_school_ids
get_team_users-KeepsRole is_object_id roles session_school school_ids school_of team i inputs users
      h =
    let (mapped, h1, h2) =
      >>=-eq-ok
        (mapped_input_user_ids_to_team_users is_object_id roles session_school team (i ∷ inputs)) _
        h in
    let (owner_role, e, h3) = >>=-eq-ok (find_role_id roles "teamowner") _ h1 in
    elim (Option-cases (find (λ (u : TeamUser). u.role == owner_role) team)) [
      | inl f ↦ absurd (ground arith)
      | inr (owner, f) ↦
          let made = rw f at h3 in
          let (keeps, members) =
            map_inputs-KeepsRole is_object_id roles owner_role session_school owner (i ∷ inputs)
              mapped made in
          let same : remove_duplicated [] mapped ≡ users =
            sym (
              remove_team_users-nobody (remove_duplicated [] mapped)
                (invalid_users school_ids school_of (remove_duplicated [] mapped)))
            ∙ ground arith in
          rw (← same) (
            remove_duplicated-Distinct [] mapped,
            λ id.
                let (to, from) = members id in
                let (kept, back) = remove_duplicated-Has [] mapped id in
                (λ k. to (kept k).0, λ k. back (from k, λ x. absurd x)),
            (
              owner_role,
              owner,
              e,
              f,
              remove_duplicated-All (KeepsRole owner_role owner) [] mapped keeps,
            ),
          )
    ]
