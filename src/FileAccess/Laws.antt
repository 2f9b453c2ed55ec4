-- ===== src/FileAccess/Laws.antt =====
-- Exactly who gets access to a file.
use schulcloud.Base.{
  ℕ, String, ◌≡◌, refl, ◌↔◌, ◌≢◌, ◌⊎◌, inl, inr, none, some, true, false, ◌&&◌, ◌||◌, arith, truthy,
  to_string, is_some, find, Option-cases, Bool-cases, ◌==◌,
}
use schulcloud.ObjectId.{equal}
use schulcloud.FileAccess.Team.{
  Right, Permission, grants, Member, allowed, refers_to, check_team_permission,
}
use schulcloud.FileAccess.Membership.{
  all_members, First, check_member_status_iff, OfCourse, OfCourse-to, OfCourse-from,
}
use schulcloud.FileAccess.Grants.{TeamGrants, check_team_permission-to, check_team_permission-from}
use schulcloud.FileAccess.{
  check_member_status, Homework, course_of, Found, check_student, course_owner,
  has_public_submissions, check_course, check_member, check_homework, user_granted,
  check_permissions,
}

-- The user is no student, or the file's first permission for the student role has the right.
abbrev pub StudentMay : Right → Found → Type 0
StudentMay right found =
    (found.student_role ≡ none)
    ⊎ ((student : String) × (p : Permission) × (found.student_role ≡ some student)
        × (find (λ q. truthy q.ref_id && refers_to q student) found.file.permissions ≡ some p)
        × (grants right p ≡ true))

-- Why a user gets the right to a file.
pub data Reason (right : Right) (user : String) (found : Found) : Type 0 where
  owner : equal user (to_string found.file.owner.id) ≡ true → Reason right user found
  named :
      (p : Permission)
      → find (λ q. truthy q.ref_id && to_string q.ref_id == user) found.file.permissions ≡ some p
      → grants right p ≡ true
      → Reason right user found
  course_member :
      (m : Member)
      → found.of_course ≡ true
      → found.submission ≡ none
      → First user (all_members found.file.owner) m
      → StudentMay right found
      → Reason right user found
  submission_member :
      (homework : Homework)
      → found.submission ≡ some homework
      → OfCourse homework user
      → (homework.public_submissions ≡ true) ⊎ StudentMay right found
      → Reason right user found
  homework_member :
      (homework : Homework)
      → found.of_course ≡ false
      → found.submission ≡ none
      → found.homework ≡ some homework
      → homework.private ≡ false
      → OfCourse homework user
      → Reason right user found
  team_member :
      (id role : String)
      → found.of_course ≡ false
      → found.submission ≡ none
      → (found.homework ≡ none)
        ⊎ ((homework : Homework) × (found.homework ≡ some homework) × (homework.private ≡ false))
      → First user (all_members found.file.owner) (Member.team_user id role)
      → TeamGrants right found role
      → Reason right user found

module _ (right : Right) (user : String) (found : Found) where
  check_student-may :
      has_public_submissions found ≡ false
      → is_some (check_member_status (course_owner found) user) ≡ true
      → check_course right user found ≡ allowed
      → StudentMay right found
  unfolding check_course check_student
  check_student-may hidden member h = elim (Option-cases found.student_role) [
    | inl s ↦ inl s
    | inr (student, s) ↦
        elim (Option-cases
          (find (λ q. truthy q.ref_id && refers_to q student) found.file.permissions)) [
            | inl e ↦ absurd (ground arith)
            | inr (p, e) ↦ inr (student, p, s, e, ground arith)
          ]
  ]

  check_course-Reason :
      found.of_course || is_some found.submission ≡ true
      → check_course right user found ≡ allowed
      → Reason right user found
  unfolding check_course
  check_course-Reason c h = elim (Option-cases (check_member_status (course_owner found) user)) [
    | inl e ↦ absurd (ground arith)
    | inr (m, e) ↦
        let member : is_some (check_member_status (course_owner found) user) ≡ true = rw e refl in
        elim (Option-cases found.submission) [
          | inl s ↦
              let hidden : has_public_submissions found ≡ false = rw s refl in
              let of_course : found.of_course ≡ true = ground arith in
              course_member m of_course s
                ((check_member_status_iff found.file.owner user m).0 (rw s at e))
                (check_student-may hidden member h)
          | inr (homework, s) ↦
              submission_member homework s (OfCourse-to homework user m (rw s at e))
                (elim (Bool-cases homework.public_submissions) [
                  | inl public ↦ inl public
                  | inr closed ↦
                      let hidden : has_public_submissions found ≡ false = rw s closed in
                      inr (check_student-may hidden member h)
                ])
        ]
  ]

  no_member :
      (fuel : ℕ) → check_team_permission fuel right found.team_roles found.file none ≢ allowed
  unfolding check_team_permission
  no_member fuel h = cc

  plain_member :
      (fuel : ℕ) (id : String)
      → check_team_permission fuel right found.team_roles found.file (some (Member.plain id))
        ≢ allowed
  unfolding check_team_permission
  plain_member fuel id h = cc

  check_member-Reason :
      (fuel : ℕ)
      → found.of_course ≡ false
      → found.submission ≡ none
      → (found.homework ≡ none)
        ⊎ ((homework : Homework) × (found.homework ≡ some homework) × (homework.private ≡ false))
      → check_member fuel right user found ≡ allowed
      → Reason right user found
  unfolding check_member
  check_member-Reason fuel c s hw h =
      elim (Option-cases (check_member_status found.file.owner user)) [
        | inl e ↦ absurd (ground (arith, no_member fuel))
        | inr (Member.plain id, e) ↦ absurd (ground (arith, plain_member fuel id))
        | inr (Member.team_user id role, e) ↦
            team_member id role c s hw
              ((check_member_status_iff found.file.owner user (Member.team_user id role)).0 e)
              (check_team_permission-to right found id role fuel (ground arith))
      ]

  check_homework-Reason :
      (fuel : ℕ)
      → found.of_course ≡ false
      → found.submission ≡ none
      → check_homework fuel right user found ≡ allowed
      → Reason right user found
  unfolding check_homework
  check_homework-Reason fuel c s h = elim (Option-cases found.homework) [
    | inl e ↦ check_member-Reason fuel c s (inl e) (ground arith)
    | inr (homework, e) ↦ elim (Bool-cases homework.private) [
      | inl private ↦ absurd (ground arith)
      | inr open_ ↦ elim (Option-cases (check_member_status (course_of homework) user)) [
        | inl e2 ↦ check_member-Reason fuel c s (inr (homework, e, open_)) (ground arith)
        | inr (m, e2) ↦ homework_member homework c s e open_ (OfCourse-to homework user m e2)
      ]
    ]
  ]

  check_permissions-to :
      (fuel : ℕ)
      → check_permissions fuel right user (some found) ≡ allowed
      → Reason right user found
  unfolding check_permissions
  check_permissions-to fuel h = elim (Bool-cases (equal user (to_string found.file.owner.id))) [
    | inl e ↦ owner e
    | inr not_owner ↦ elim (Bool-cases (user_granted right user found.file)) [
      | inl e ↦
          elim (Option-cases
            (find (λ q. truthy q.ref_id && to_string q.ref_id == user) found.file.permissions)) [
              | inl f ↦ absurd (let g = rw (f, user_granted) at e in ground arith)
              | inr (p, f) ↦ named p f (rw (f, user_granted) at e)
            ]
      | inr not_named ↦ elim (Bool-cases (found.of_course || is_some found.submission)) [
        | inl c ↦ check_course-Reason c (ground arith)
        | inr c ↦ elim (Option-cases found.submission) [
          | inr (homework, s) ↦ absurd (ground arith)
          | inl s ↦ check_homework-Reason fuel (ground arith) s (ground arith)
        ]
      ]
    ]
  ]

  check_member-allowed :
      (id role : String)
      → check_member_status found.file.owner user ≡ some (Member.team_user id role)
      → TeamGrants right found role
      → (fuel : ℕ) × (check_member fuel right user found ≡ allowed)
  unfolding check_member
  check_member-allowed id role e g =
      let (fuel, run) = check_team_permission-from right found id role g in (fuel, ground arith)

  -- The verdict once the user is known as a member of the course of the file or of its submission.
  check_course-allowed :
      found.of_course || is_some found.submission ≡ true
      → is_some (check_member_status (course_owner found) user) ≡ true
      → (has_public_submissions found ≡ true) ⊎ StudentMay right found
      → check_permissions 0 right user (some found) ≡ allowed
  unfolding check_permissions check_course check_student
  check_course-allowed c member (inl public) = ground arith
  check_course-allowed c member (inr (inl s)) = ground arith
  check_course-allowed c member (inr (inr (student, p, s, f, g))) = ground arith

  check_homework-allowed :
      (fuel : ℕ)
      → found.of_course ≡ false
      → found.submission ≡ none
      → check_homework fuel right user found ≡ allowed
      → check_permissions fuel right user (some found) ≡ allowed
  unfolding check_permissions
  check_homework-allowed fuel c s h = ground arith

  check_permissions-from :
      Reason right user found
      → (fuel : ℕ) × (check_permissions fuel right user (some found) ≡ allowed)
  unfolding check_permissions check_homework
  check_permissions-from (owner e) = (0, ground arith)
  check_permissions-from (named p f g) =
      let granted : user_granted right user found.file ≡ true = rw (f, user_granted) g in
      (0, ground arith)
  check_permissions-from (course_member m c s first may) =
      let e = (check_member_status_iff found.file.owner user m).1 first in
      let member : is_some (check_member_status (course_owner found) user) ≡ true =
        rw s (rw e refl) in
      (0, check_course-allowed (ground arith) member (inr may))
  check_permissions-from (submission_member homework s of_course why) =
      let (m, e) = OfCourse-from homework user of_course in
      let member : is_some (check_member_status (course_owner found) user) ≡ true =
        rw s (rw e refl) in
      (
        0,
        check_course-allowed (ground arith) member
            (elim why [ inl public ↦ inl (rw s public) | inr may ↦ inr may ]),
      )
  check_permissions-from (homework_member homework c s e o of_course) =
      let (m, is) = OfCourse-from homework user of_course in
      (0, check_homework-allowed 0 c s (ground arith))
  check_permissions-from (team_member id role c s hw first g) =
      let e = (check_member_status_iff found.file.owner user (Member.team_user id role)).1 first in
      let (fuel, h) = check_member-allowed id role e g in
      (
        fuel,
        check_homework-allowed fuel c s (elim hw [
          | inl n ↦ ground arith
          | inr (homework, n, o) ↦
              elim (Bool-cases (is_some (check_member_status (course_of homework) user))) [
                | inl t ↦ ground arith
                | inr f ↦ ground arith
              ]
        ]),
      )

  -- For a file that was found, access is allowed, within some number of rounds of the search
  -- through the roles of the team, exactly for a reason: the user owns the file; or the first
  -- permission of the file for the user has the right; or the file is of a course and of no
  -- submission, the user is a user, teacher or substitution teacher of the course, and is no
  -- student or the student role has the right; or the file is of a submission, the user is in the
  -- course of its homework, and the submissions are public, or the user is no student, or the
  -- student role has the right; or the file is of no course and no submission, belongs to a
  -- homework that is not private, and the user is in its course; or the file is of no course and no
  -- submission, belongs to no private homework, the user has a role in the owning team, and the
  -- role stands above the one of the file's creator, or the search finds a permission with the
  -- right.
  pub check_permissions_iff :
      ((fuel : ℕ) × (check_permissions fuel right user (some found) ≡ allowed))
      ↔ Reason right user found
  check_permissions_iff = (λ (fuel, h). check_permissions-to fuel h, check_permissions-from)
