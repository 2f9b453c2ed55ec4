-- ===== src/Homework/Submission/View.antt =====
-- Who may see a submission.
use schulcloud.Base.{
  String, ◌≡◌, ◌↔◌, refl, ◌⊎◌, inl, inr, Option, none, some, List, true, false, ◌||◌, arith,
  includes, truthy, get_or, Result, ok, Bool-cases, Option-cases, Result-cases,
}
use schulcloud.ObjectId.{equal}
use schulcloud.Homework.{Homework, Course}
use schulcloud.Homework.Submission.{
  Submission, course_shows, group_shows, has_view_permission, check_get_submission_view_permission,
}

abbrev pub HandedIn : Submission → String → Type 0
HandedIn s user =
    (equal (get_or s.student_id "undefined") user ≡ true) ⊎ (includes s.team_members user ≡ true)

-- The homework is the user's own, or of a course that the user teaches, or attends where the
-- submissions are public.
abbrev pub InCourse : Homework → String → Type 0
InCourse h user =
    (c : Course) × (h.course ≡ some c)
    × ((includes c.teacher_ids user ≡ true)
        ⊎ (includes c.substitution_ids user ≡ true)
        ⊎ (includes c.user_ids user ≡ true) × (h.public_submissions ≡ true))

abbrev pub OfCourse : Homework → String → Type 0
OfCourse h user = (equal h.teacher_id user ≡ true) ⊎ InCourse h user

course_shows-InCourse :
    (h : Homework) (user : String) → course_shows h user ≡ true → InCourse h user
course_shows-InCourse h user e = elim (Option-cases h.course) [
  | inl n ↦ absurd (ground arith)
  | inr (c, n) ↦ (c, n, ground arith)
]

abbrev pub InGroup : (String → Result (List String)) → Option String → String → Type 0
InGroup group_users named user =
    (group : String) × (users : List String) × (named ≡ some group)
    × (truthy (some group) ≡ true)
    × (group_users group ≡ ok users)
    × (includes users user ≡ true)

group_shows-InGroup :
    (group_users : String → Result (List String)) (named : Option String) (user : String)
    → group_shows group_users named user ≡ ok true
    → InGroup group_users named user
group_shows-InGroup group_users none user h = absurd (ground arith)
group_shows-InGroup group_users (some group) user h = elim (Bool-cases (truthy (some group))) [
  | inr t ↦ absurd (ground arith)
  | inl t ↦ elim (Result-cases (group_users group)) [
    | inr (error, g) ↦ absurd (ground arith)
    | inl (users, g) ↦ (group, users, refl, t, g, ground arith)
  ]
]

module _ (homework : Result Homework) (group_users : String → Result (List String)) (s : Submission)
    (user : String) where
  -- Why a user may see a submission.
  pub data ViewReason : Type 0 where
    handed_in : HandedIn s user → ViewReason
    of_course : (h : Homework) → homework ≡ ok h → OfCourse h user → ViewReason
    in_group :
        (h : Homework) → homework ≡ ok h → InGroup group_users s.course_group_id user → ViewReason

  check_get_submission_view_permission-to :
      check_get_submission_view_permission homework group_users s user ≡ ok tt → ViewReason
  unfolding check_get_submission_view_permission has_view_permission
  check_get_submission_view_permission-to h =
      elim (Bool-cases
        (equal (get_or s.student_id "undefined") user || includes s.team_members user)) [
          | inl e ↦ handed_in (ground arith)
          | inr e ↦ elim (Result-cases homework) [
            | inr (error, w) ↦ absurd (ground arith)
            | inl (found, w) ↦ elim (Bool-cases (equal found.teacher_id user)) [
              | inl t ↦ of_course found w (inl t)
              | inr t ↦ elim (Bool-cases (course_shows found user)) [
                | inl c ↦ of_course found w (inr (course_shows-InCourse found user c))
                | inr c ↦ elim (Result-cases (group_shows group_users s.course_group_id user)) [
                  | inr (error, g) ↦ absurd (ground arith)
                  | inl (false, g) ↦ absurd (ground arith)
                  | inl (true, g) ↦
                      in_group found w (group_shows-InGroup group_users s.course_group_id user g)
                ]
              ]
            ]
          ]
        ]

  check_get_submission_view_permission-from :
      ViewReason → check_get_submission_view_permission homework group_users s user ≡ ok tt
  unfolding check_get_submission_view_permission has_view_permission
  check_get_submission_view_permission-from (handed_in h) = ground arith
  check_get_submission_view_permission-from (of_course h w c) = ground arith
  check_get_submission_view_permission-from (in_group h w (group, users, named, t, found, member)) =
      elim (Bool-cases
        (equal (get_or s.student_id "undefined") user || includes s.team_members user)) [
          | inl e ↦ ground arith
          | inr e ↦ elim (Bool-cases (equal h.teacher_id user)) [
            | inl e2 ↦ ground arith
            | inr e2 ↦ elim (Bool-cases (course_shows h user)) [
              | inl e3 ↦ ground arith
              | inr e3 ↦ ground arith
            ]
          ]
        ]

  -- A submission is shown exactly to those who handed it in, to the teachers of its homework or of
  -- the homework's course, to that course's students where submissions are public, and to the users
  -- of its course group; the homework has to be found for all but the first.
  pub check_get_submission_view_permission_iff :
      (check_get_submission_view_permission homework group_users s user ≡ ok tt) ↔ ViewReason
  check_get_submission_view_permission_iff =
      (check_get_submission_view_permission-to, check_get_submission_view_permission-from)
