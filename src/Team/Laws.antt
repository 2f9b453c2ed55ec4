-- ===== src/Team/Laws.antt =====
-- What a change of the users of a team needs.
use schulcloud.Base.{
  ℕ, ◌≤◌, String, ◌≡◌, refl, sym, ap, ◌∙◌, ◌⊎◌, inl, inr, Option, none, some, List, [], ◌∷◌, any,
  Bool, true, false, not, ◌==◌, arith, if◌then◌else◌, leb, is_some, All, Result, ok, err, ◌>>=◌,
  ◌>>◌, >>=-eq-ok, Bool-cases, Option-cases, Result-cases,
}
use schulcloud.Team.{
  Role, TeamUser, Entry, entry_id, team_user_id, Change, array_diff, Request, has_team_permission,
  rank, rank_of_highest, is_higher_or_equal_teamrole, raise, changed_from, highest_changed_role,
  of_own_school, check_added, required, session_role, check_hierarchy, check_changes,
  test_changes_for_permission_routing,
}

abbrev pub Permits : Request → String → Type 0
Permits request permission = has_team_permission request permission ≡ ok tt

any-All : {A : Type 0} (p : A → Bool) (l : List A) → any p l ≡ false → All (λ u. p u ≡ false) l
any-All p [] h = tt
any-All p (u ∷ l) h = ground (arith, any-All p l)

-- The role has a rank, and it is this one at most.
abbrev pub Below : List Role → ℕ → Option String → Type 0
Below roles n role = (m : ℕ) × (rank_of_highest roles role ≡ ok m) × (m ≤ n)

raise-Below :
    (roles : List Role) (n : ℕ) (h : Option String) (id : String) (top : Option String)
    → raise roles h id ≡ ok top
    → Below roles n top
    → Below roles n h × Below roles n (some id)
unfolding raise is_higher_or_equal_teamrole
raise-Below roles n h id top e (m, r, l) = elim (Result-cases (rank roles id)) [
  | inr (error, f) ↦ absurd (ground arith)
  | inl (a, f) ↦ elim (Result-cases (rank_of_highest roles h)) [
    | inr (error, g) ↦ absurd (ground arith)
    | inl (b, g) ↦ elim (Bool-cases (leb b a)) [
      | inl higher ↦
          let same : some id ≡ top = ground arith in
          let equal_ranks : ok a ≡ ok m = sym f ∙ ap (rank_of_highest roles) same ∙ r in
          let eq : a ≡ m = ground arith in ((b, g, ground arith), (a, f, omega arith))
      | inr lower ↦
          let same : h ≡ top = ground arith in
          let equal_ranks : ok b ≡ ok m = sym g ∙ ap (rank_of_highest roles) same ∙ r in
          let eq : b ≡ m = ground arith in ((b, g, omega arith), (a, f, ground arith))
    ]
  ]
]

-- A user whose role changes has an old and a new role that rank no higher than this.
abbrev pub ChangesBelow : List Role → List TeamUser → ℕ → Entry → Type 0
ChangesBelow roles team n u =
    (changed_from team u ≡ none)
    ⊎ ((c : Change) × (changed_from team u ≡ some c)
        × Below roles n (some c.old_role)
        × Below roles n (some c.new_role))

highest_changed_role-step :
    (roles : List Role) (team : List TeamUser) (h : Option String) (u : Entry) (rest : List Entry)
    (c : Change)
    → changed_from team u ≡ some c
    → (raise roles h c.new_role >>= (λ k. raise roles k c.old_role) >>= λ k.
        highest_changed_role roles team k rest)
      ≡ highest_changed_role roles team h (u ∷ rest)
unfolding highest_changed_role
highest_changed_role-step roles team h u rest c is = ground arith

highest_changed_role-Below :
    (roles : List Role) (team : List TeamUser) (n : ℕ) (h : Option String) (users : List Entry)
    (top : Option String)
    → highest_changed_role roles team h users ≡ ok top
    → Below roles n top
    → Below roles n h × All (ChangesBelow roles team n) users
unfolding highest_changed_role
highest_changed_role-Below roles team n h [] top e (m, r, l) =
    let same : h ≡ top = ground arith in ((m, ap (rank_of_highest roles) same ∙ r, l), tt)
highest_changed_role-Below roles team n h (u ∷ rest) top e b =
    elim (Option-cases (changed_from team u)) [
      | inl is ↦
          let (below, others) =
            highest_changed_role-Below roles team n h rest top (ground arith) b in
          (below, (inl is, others))
      | inr (c, is) ↦
          let step = highest_changed_role-step roles team h u rest c is ∙ e in
          let (h2, e2, e3) =
            >>=-eq-ok (raise roles h c.new_role >>= λ k. raise roles k c.old_role)
              (λ k. highest_changed_role roles team k rest) step in
          let (h1, e4, e5) =
            >>=-eq-ok (raise roles h c.new_role) (λ k. raise roles k c.old_role) e2 in
          let (below, others) = highest_changed_role-Below roles team n h2 rest top e3 b in
          let (below1, of_old) = raise-Below roles n h1 c.old_role h2 e5 below in
          let (below0, of_new) = raise-Below roles n h c.new_role h1 e4 below1 in
          (below0, (inr (c, is, of_old, of_new), others))
    ]

added-true :
    (request : Request) (b more : Bool) (l : List Entry)
    → b ≡ true
    → All (λ u. (of_own_school request u ≡ ok true) × (more ≡ true)) l
    → All (λ u. (of_own_school request u ≡ ok true) × (b ≡ true)) l
added-true request b more [] e h = tt
added-true request b more (u ∷ l) e ((own, _), h) = ((own, e), added-true request b more l e h)

check_added-All :
    (request : Request) (l : List Entry) (b : Bool)
    → check_added request l ≡ ok b
    → All (λ u. (of_own_school request u ≡ ok true) × (b ≡ true)) l
unfolding check_added
check_added-All request [] b h = tt
check_added-All request (u ∷ l) b h = elim (Result-cases (of_own_school request u)) [
  | inr (error, e) ↦ absurd (ground arith)
  | inl (own, e) ↦ elim (Result-cases (check_added request l)) [
    | inr (error, f) ↦ absurd (ground arith)
    | inl (more, f) ↦ elim (Bool-cases own) [
      | inr other_school ↦ absurd (ground arith)
      | inl own_school ↦ (
        (ground arith, ground arith),
        added-true request b more l (ground arith) (check_added-All request l more f),
      )
    ]
  ]
]

required-Permits :
    (request : Request) (needed : Bool) (permission : String)
    → required request needed permission ≡ ok tt
    → (needed ≡ false) ⊎ Permits request permission
required-Permits request true permission h = inr h
required-Permits request false permission h = inl refl

check_hierarchy-Below :
    (request : Request) (highest : Option String)
    → check_hierarchy request highest ≡ ok tt
    → (role : String) × (n : ℕ) × (session_role request ≡ ok role)
      × (rank request.roles role ≡ ok n)
      × Below request.roles n highest
unfolding is_higher_or_equal_teamrole
check_hierarchy-Below request highest h = elim (Result-cases (session_role request)) [
  | inr (error, e) ↦ absurd (ground arith)
  | inl (role, e) ↦ elim (Result-cases (rank request.roles role)) [
    | inr (error, f) ↦ absurd (ground arith)
    | inl (n, f) ↦ elim (Result-cases (rank_of_highest request.roles highest)) [
      | inr (error, g) ↦ absurd (ground arith)
      | inl (m, g) ↦ elim (Bool-cases (leb m n)) [
        | inl enough ↦ (role, n, e, f, (m, g, ground arith))
        | inr lower ↦ absurd (ground arith)
      ]
    ]
  ]
]

-- The users who leave are the session user, who may leave, or others, whom the session user may
-- remove; those who are added are of the session user's school and may be added; and where the
-- request names another role for a user of the team than the user has, the session user may change
-- roles, and neither the old nor the new one ranks above the session user's own.
pub record Permitted (request : Request) (users : List Entry) : Type 0 where
  leaving :
      All
        (λ u. (u.user_id == request.session_id) ≡ false)
        (array_diff team_user_id entry_id request.team users)
      ⊎ Permits request "LEAVE_TEAM"
  removing :
      All
        (λ u. not (u.user_id == request.session_id) ≡ false)
        (array_diff team_user_id entry_id request.team users)
      ⊎ Permits request "REMOVE_MEMBERS"
  adding :
      All
        (λ u. (of_own_school request u ≡ ok true) × Permits request "ADD_SCHOOL_MEMBERS")
        (array_diff entry_id team_user_id users request.team)
  changing :
      All (λ u. is_some (changed_from request.team u) ≡ false) users
      ⊎ Permits request "CHANGE_TEAM_ROLES"
        × ((role : String) × (n : ℕ) × (session_role request ≡ ok role)
            × (rank request.roles role ≡ ok n)
            × All (ChangesBelow request.roles request.team n) users)

adding-Permits :
    (request : Request) (added : Bool) (l : List Entry)
    → All (λ u. (of_own_school request u ≡ ok true) × (added ≡ true)) l
    → (added ≡ false) ⊎ Permits request "ADD_SCHOOL_MEMBERS"
    → All (λ u. (of_own_school request u ≡ ok true) × Permits request "ADD_SCHOOL_MEMBERS") l
adding-Permits request added [] h p = tt
adding-Permits request added (u ∷ l) ((own, e), h) (inl f) = absurd (ground arith)
adding-Permits request added (u ∷ l) ((own, e), h) (inr p) =
    ((own, p), adding-Permits request added l h (inr p))

both : (a k : Result (Unit {0})) → (a >> k) ≡ ok tt → (a ≡ ok tt) × (k ≡ ok tt)
both (ok u) k h = (refl, h)
both (err e) k h = absurd (ground arith)

module _ (request : Request) (users : List Entry) where
  abbrev Changing : Type 0
  Changing =
      All (λ u. is_some (changed_from request.team u) ≡ false) users
      ⊎ Permits request "CHANGE_TEAM_ROLES"
        × ((role : String) × (n : ℕ) × (session_role request ≡ ok role)
            × (rank request.roles role ≡ ok n)
            × All (ChangesBelow request.roles request.team n) users)

  changing-Permits :
      (highest : Option String) (is_change : Bool)
      → any (λ u. is_some (changed_from request.team u)) users ≡ is_change
      → highest_changed_role request.roles request.team none users ≡ ok highest
      → required request is_change "CHANGE_TEAM_ROLES" ≡ ok tt
      → (if is_change then check_hierarchy request highest else ok tt) ≡ ok tt
      → Changing
  changing-Permits highest false none_changes e permitted ranks =
      inl (any-All (λ u. is_some (changed_from request.team u)) users none_changes)
  changing-Permits highest true changes e permitted ranks =
      let (role, n, r, is, below) = check_hierarchy-Below request highest ranks in
      let (_, each) =
        highest_changed_role-Below request.roles request.team n none users highest e below in
      inr (permitted, (role, n, r, is, each))

  leaving-Permits :
      (p : TeamUser → Bool) (permission : String)
      → required request (any p (array_diff team_user_id entry_id request.team users)) permission
        ≡ ok tt
      → All (λ u. p u ≡ false) (array_diff team_user_id entry_id request.team users)
        ⊎ Permits request permission
  leaving-Permits p permission h =
      elim (required-Permits request (any p (array_diff team_user_id entry_id request.team users))
        permission h) [
          | inl e ↦ inl (any-All p (array_diff team_user_id entry_id request.team users) e)
          | inr e ↦ inr e
        ]

  check_changes-Permitted : check_changes request users ≡ ok tt → Permitted request users
  unfolding check_changes
  check_changes-Permitted h =
      let (added, e1, h1) =
        >>=-eq-ok (check_added request (array_diff entry_id team_user_id users request.team)) _ h in
      let (highest, e2, h2) =
        >>=-eq-ok (highest_changed_role request.roles request.team none users) _ h1 in
      let (e3, h3) = both _ _ h2 in
      let (e4, h4) = both _ _ h3 in
      let (e5, h5) = both _ _ h4 in
      let (e6, e7) = both _ _ h5 in
      record {
        leaving = leaving-Permits (λ u. u.user_id == request.session_id) "LEAVE_TEAM" e3;
        removing = leaving-Permits (λ u. not (u.user_id == request.session_id)) "REMOVE_MEMBERS" e4;
        adding =
            adding-Permits request added (array_diff entry_id team_user_id users request.team)
              (check_added-All request (array_diff entry_id team_user_id users request.team) added
                e1)
              (required-Permits request added "ADD_SCHOOL_MEMBERS" e5);
        changing =
            changing-Permits highest (any (λ u. is_some (changed_from request.team u)) users) refl
              e2 e6 e7;
      }

  -- When a request of a user who is no superhero for the users of a team is let through, then the
  -- session user leaves only with the right to leave; others are removed only with the right to
  -- remove members; each entry that is added is for a user of the session user's school, and the
  -- right to add them is there; and if an entry names a role for a user of the team who has another
  -- one, the session user has the right to change roles, and neither of the two roles ranks above
  -- the session user's own, for any such entry. Entries without a role are not compared.
  pub test_changes_for_permission_routing-Permitted :
      (renames : Bool)
      → request.is_superhero ≡ false
      → test_changes_for_permission_routing request renames (some users) ≡ ok tt
      → Permitted request users
  unfolding test_changes_for_permission_routing
  test_changes_for_permission_routing-Permitted renames plain h =
      elim (Result-cases (check_changes request users)) [
        | inl (u, e) ↦ check_changes-Permitted e
        | inr (error, e) ↦ absurd (ground arith)
      ]
