-- ===== src/FileAccess/Membership.antt =====
-- src/services/fileStorage/utils/filePermissionHelper.js: the entry that `checkMemberStatus` finds,
-- and where a role of a team stands, in terms of the lists themselves.
use schulcloud.Base.{
  ℕ, ◌<◌, String, ◌≡◌, ◌≢◌, ◌↔◌, refl, sym, ap, ◌∙◌, ◌⊎◌, inl, inr, Option, none, some, List, [],
  ◌∷◌, ◌++◌, true, false, arith, truthy, find, find_index, any, All, get_or, eq_iff, Bool-cases,
  Option-cases, List-cases,
}
use schulcloud.ObjectId.{equal}
use schulcloud.FileAccess.Team.{
  Member, Owner, File, Permission, TeamStore, position, above, creator_of,
}
use schulcloud.FileAccess.{is_user, check_member_status, Homework, course_of}

-- The user that an entry is for.
abbrev pub user_of : Member → String
user_of (Member.plain id) = id
user_of (Member.team_user id role) = id

-- The members of an owner: the users, then the teachers, then the substitution teachers.
abbrev pub all_members : Owner → List Member
all_members owner =
    get_or owner.user_ids [] ++ (get_or owner.teacher_ids [] ++ get_or owner.substitution_ids [])

-- The first entry of the list that is for the user.
abbrev pub First : String → List Member → Member → Type 0
First user members m =
    (before : List Member) × (after : List Member) × (members ≡ before ++ m ∷ after)
    × All (λ o. user_of o ≢ user) before
    × (user_of m ≡ user)

is_user_iff : (user : String) (m : Member) → (is_user user m ≡ true) ↔ (user_of m ≡ user)
is_user_iff user (Member.plain id) =
    let (to, from) = eq_iff user id in (λ h. sym (to h), λ e. from (sym e))
is_user_iff user (Member.team_user id role) =
    let (to, from) = eq_iff user id in (λ h. sym (to h), λ e. from (sym e))

find-First :
    (user : String) (members : List Member) (m : Member)
    → find (is_user user) members ≡ some m
    → First user members m
find-First user [] m h = absurd (ground arith)
find-First user (o ∷ rest) m h = elim (Bool-cases (is_user user o)) [
  | inl e ↦
      let same : o ≡ m = ground arith in rw (← same) ([], rest, refl, tt, (is_user_iff user o).0 e)
  | inr e ↦
      let (before, after, split, others, own) = find-First user rest m (ground arith) in
      (
        o ∷ before,
        after,
        ap (λ l. o ∷ l) split,
        (λ k. let yes = (is_user_iff user o).1 k in absurd (ground arith), others),
        own,
      )
]

First-find :
    (user : String) (m : Member) (before after : List Member)
    → All (λ o. user_of o ≢ user) before
    → user_of m ≡ user
    → find (is_user user) (before ++ m ∷ after) ≡ some m
First-find user m [] after others own = rw ((is_user_iff user m).1 own) refl
First-find user m (o ∷ before) after (other, others) own = elim (Bool-cases (is_user user o)) [
  | inl e ↦ absurd (other ((is_user_iff user o).0 e))
  | inr e ↦ rw e (First-find user m before after others own)
]

find-append :
    (user : String) (l k : List Member)
    → find (is_user user) (l ++ k)
      ≡ (elim (find (is_user user) l) [ none ↦ find (is_user user) k | some m ↦ some m ])
find-append user [] k = refl
find-append user (o ∷ l) k = elim (Bool-cases (is_user user o)) [
  | inl e ↦ rw e refl
  | inr e ↦ rw e (find-append user l k)
]

check_member_status-find :
    (owner : Owner) (user : String)
    → check_member_status owner user ≡ find (is_user user) (all_members owner)
unfolding check_member_status
check_member_status-find owner user =
    let users = get_or owner.user_ids [] in
    let teachers = get_or owner.teacher_ids [] in
    let substitutes = get_or owner.substitution_ids [] in
    sym (
      find-append user users (teachers ++ substitutes)
      ∙ ap (λ x. elim (find (is_user user) users) [ none ↦ x | some m ↦ some m ])
          (find-append user teachers substitutes))

-- The status of a user is the first entry for the user among all members.
pub check_member_status_iff :
    (owner : Owner) (user : String) (m : Member)
    → (check_member_status owner user ≡ some m) ↔ First user (all_members owner) m
check_member_status_iff owner user m = (
  λ h. find-First user (all_members owner) m (sym (check_member_status-find owner user) ∙ h),
  λ (before, after, split, others, own).
      check_member_status-find owner user ∙ rw split (First-find user m before after others own),
)

-- The user is a member of the homework's course.
abbrev pub OfCourse : Homework → String → Type 0
OfCourse h user = (c : Owner) × (m : Member) × (h.course ≡ some c) × First user (all_members c) m

pub OfCourse-to :
    (h : Homework) (user : String) (m : Member)
    → check_member_status (course_of h) user ≡ some m
    → OfCourse h user
unfolding check_member_status
OfCourse-to h user m e = elim (Option-cases h.course) [
  | inl n ↦ absurd (let f = rw n at e in ground arith)
  | inr (c, n) ↦ (c, m, n, (check_member_status_iff c user m).0 (rw n at e))
]

pub OfCourse-from :
    (h : Homework) (user : String)
    → OfCourse h user
    → (m : Member) × (check_member_status (course_of h) user ≡ some m)
OfCourse-from h user (c, m, n, first) = (m, rw n ((check_member_status_iff c user m).1 first))

-- The level of the team roles in which a role is found.
abbrev pub level : TeamStore → String → Option ℕ
level store id = find_index (λ roles. any (λ r. equal r.id id) roles) store.sorted

-- The first role is in a level, and the second one in a lower one or in none.
abbrev pub StandsAbove : TeamStore → String → String → Type 0
StandsAbove store role other =
    (i : ℕ) × (level store role ≡ some i)
    × ((level store other ≡ none) ⊎ ((j : ℕ) × (level store other ≡ some j) × (j < i)))

pub above_iff :
    (store : TeamStore) (role other : String)
    → (above (position store role) (position store other) ≡ true) ↔ StandsAbove store role other
above_iff store role other = elim (Option-cases (position store role)) [
  | inl e ↦ rw e (λ h. absurd (ground arith), λ (i, f, x). absurd (ground arith))
  | inr (i, e) ↦ elim (Option-cases (position store other)) [
    | inl f ↦ rw e (rw f (λ h. (i, refl, inl refl), λ x. refl))
    | inr (j, f) ↦ rw e (
        rw f (
          λ h. (i, refl, inr (j, refl, ground arith)),
          λ (k, g, x). elim x [ inl n ↦ absurd (ground arith) | inr (l, o, lt) ↦ ground arith ],
        ))
  ]
]

-- The creator of a file, or else whom its first permission is for.
abbrev pub IsCreator : File → Option String → Type 0
IsCreator file id =
    (truthy file.creator ≡ true) × (id ≡ file.creator)
    ⊎ (truthy file.creator ≡ false)
      × ((file.permissions ≡ []) × (id ≡ none)
          ⊎ ((p : Permission) × (rest : List Permission) × (file.permissions ≡ p ∷ rest)
              × (id ≡ p.ref_id)))

pub creator_of-IsCreator : (file : File) → IsCreator file (creator_of file)
creator_of-IsCreator file = elim (Bool-cases (truthy file.creator)) [
  | inl t ↦ rw t (inl (refl, refl))
  | inr f ↦ elim (List-cases file.permissions) [
    | inl e ↦ rw f (rw e (inr (refl, inl (refl, refl))))
    | inr (p, rest, e) ↦ rw f (rw e (inr (refl, inr (p, rest, refl, refl))))
  ]
]

pub IsCreator-creator_of :
    (file : File) (id : Option String) → IsCreator file id → creator_of file ≡ id
IsCreator-creator_of file id (inl (t, e)) = rw t (sym e)
IsCreator-creator_of file id (inr (f, inl (e, n))) = rw f (rw e (sym n))
IsCreator-creator_of file id (inr (f, inr (p, rest, e, n))) = rw f (rw e (sym n))
