-- ===== src/FileAccess/Grants.antt =====
-- src/services/fileStorage/utils/filePermissionHelper.js: when `checkTeamPermission` grants a right
-- to a member of a team.
use schulcloud.Base.{
  ℕ, String, ◌≡◌, refl, ◌↔◌, ◌≢◌, ◌⊎◌, inl, inr, Option, some, [], ◌∷◌, true, arith, to_string,
  find, Option-cases, Bool-cases, get_or,
}
use schulcloud.ObjectId.{equal}
use schulcloud.FileAccess.Team.{
  Right, Permission, grants, Member, File, allowed, TeamStore, Search, ended, failed, search_roles,
  position, above, role_of, member_id, creator_of, creator_entry, decide_team,
  check_team_permission,
}
use schulcloud.FileAccess.Team.Steps.{Searches, search_roles-Searches, Searches-search_roles}
use schulcloud.FileAccess.Membership.{
  StandsAbove, above_iff, IsCreator, creator_of-IsCreator, IsCreator-creator_of,
}
use schulcloud.FileAccess.{Found}

-- The entry among the users of the owner for the creator of the file.
abbrev pub CreatorEntry : File → Member → Type 0
CreatorEntry file m =
    (id : Option String) × IsCreator file id
    × (find (λ o. equal (member_id o) (to_string id)) (get_or file.owner.user_ids []) ≡ some m)

creator_entry_iff : (file : File) (m : Member) → (creator_entry file ≡ some m) ↔ CreatorEntry file m
unfolding creator_entry
creator_entry_iff file m = (
  λ h. (creator_of file, creator_of-IsCreator file, h),
  λ (id, is, h). rw (IsCreator-creator_of file id is) h,
)

-- The search through the role and those that it inherits from ends, and the role stands above that of
-- the creator of the file, or the search found a permission with the right.
abbrev pub TeamGrants : Right → Found → String → Type 0
TeamGrants right found role =
    (permission : Option Permission) × (creator : Member) × Searches found.team_roles.role_index
      found.file.permissions (role ∷ []) permission
    × CreatorEntry found.file creator
    × (StandsAbove found.team_roles role (to_string (role_of creator))
        ⊎ ((p : Permission) × (permission ≡ some p) × (grants right p ≡ true)))

Search-cases :
    (s : Search)
    → ((p : Option Permission) × (s ≡ ended p)) ⊎ ((p : Option Permission) → s ≢ ended p)
Search-cases (ended p) = inl (p, refl)
Search-cases (failed e) = inr (λ p h. cc)
Search-cases Search.running = inr (λ p h. cc)

decide_team-allowed :
    (right : Right) (store : TeamStore) (file : File) (role : String)
    (permission : Option Permission)
    → decide_team right store file role permission ≡ allowed
    → (creator : Member) × CreatorEntry file creator
      × (StandsAbove store role (to_string (role_of creator))
          ⊎ ((p : Permission) × (permission ≡ some p) × (grants right p ≡ true)))
unfolding decide_team
decide_team-allowed right store file role permission h = elim (Option-cases (creator_entry file)) [
  | inl e ↦ absurd (ground arith)
  | inr (creator, e) ↦
      let entry = (creator_entry_iff file creator).0 e in
      let other = to_string (role_of creator) in
      elim (Bool-cases (above (position store role) (position store other))) [
        | inl higher ↦ (creator, entry, inl ((above_iff store role other).0 higher))
        | inr lower ↦ elim (Option-cases permission) [
          | inl e2 ↦ absurd (ground arith)
          | inr (p, e2) ↦ (creator, entry, inr (p, e2, ground arith))
        ]
      ]
]

module _ (right : Right) (found : Found) (id role : String) where
  pub check_team_permission-to :
      (fuel : ℕ)
      → check_team_permission fuel right found.team_roles found.file
          (some (Member.team_user id role))
        ≡ allowed
      → TeamGrants right found role
  unfolding check_team_permission
  check_team_permission-to fuel h =
      elim (Search-cases
        (search_roles fuel found.team_roles.role_index found.file.permissions (role ∷ []))) [
          | inl (permission, e) ↦
              let (creator, e2, d) =
                decide_team-allowed right found.team_roles found.file role permission
                  (ground arith) in
              (
                permission,
                creator,
                search_roles-Searches found.team_roles.role_index found.file.permissions fuel
                    (role ∷ []) permission e,
                e2,
                d,
              )
          | inr other ↦ absurd (grind arith)
        ]

  decided :
      (permission : Option Permission) (creator : Member)
      → CreatorEntry found.file creator
      → StandsAbove found.team_roles role (to_string (role_of creator))
        ⊎ ((p : Permission) × (permission ≡ some p) × (grants right p ≡ true))
      → decide_team right found.team_roles found.file role permission ≡ allowed
  unfolding decide_team
  decided permission creator entry (inl higher) =
      let e = (creator_entry_iff found.file creator).1 entry in
      let up = (above_iff found.team_roles role (to_string (role_of creator))).1 higher in
      ground arith
  decided permission creator entry (inr (p, e2, g)) =
      let e = (creator_entry_iff found.file creator).1 entry in ground arith

  settled :
      (fuel : ℕ) (permission : Option Permission)
      → search_roles fuel found.team_roles.role_index found.file.permissions (role ∷ [])
        ≡ ended permission
      → decide_team right found.team_roles found.file role permission ≡ allowed
      → check_team_permission fuel right found.team_roles found.file
          (some (Member.team_user id role))
        ≡ allowed
  unfolding check_team_permission
  settled fuel permission e d = ground arith

  pub check_team_permission-from :
      TeamGrants right found role
      → (fuel : ℕ) × (check_team_permission fuel right found.team_roles found.file
            (some (Member.team_user id role))
          ≡ allowed)
  check_team_permission-from (permission, creator, s, entry, why) =
      let (fuel, e) =
        Searches-search_roles found.team_roles.role_index found.file.permissions (role ∷ [])
          permission s in
      (fuel, settled fuel permission e (decided permission creator entry why))
