-- ===== src/Homework/Submission/Laws.antt =====
-- What holds of a submission that the hooks let through, and who may see one.
use schulcloud.Base.{
  ℕ, ◌≤◌, String, ◌≡◌, ◌⊎◌, none, some, List, [], any, length, true, false, includes, truthy,
  get_or, All, ok, Result, Option,
}
use schulcloud.Homework.{Homework}
use schulcloud.Homework.Submission.{
  Submission, Data, is_text, members, new_members, max_team_members,
}

-- No submission was handed in by a member that is new.
abbrev pub NoDuplicate : Data → Type 0
NoDuplicate d =
    (d.is_teacher ≡ true)
    ⊎ (d.team_members ≡ none)
    ⊎ All (λ s. any (λ m. is_text s.student_id m) (new_members d) ≡ false) d.submissions

-- The sizes are as allowed: where the homework has teams and no teacher does it, the team and the
-- course group are within the limit, if there is one; else the team has one member at most.
abbrev pub TeamFits : Data → Type 0
TeamFits d =
    ((d.is_teacher ≡ true) ⊎ (d.homework.team_submissions ≡ false)) × (length (members d) ≤ 1)
    ⊎ (d.is_teacher ≡ false)
      × (d.homework.team_submissions ≡ true)
      × ((d.homework.max_team_members ≡ none)
          ⊎ (d.homework.max_team_members ≡ some 0)
          ⊎ ((most : ℕ) × (d.homework.max_team_members ≡ some most)
              × (length (members d) ≤ most)
              × (length (get_or d.group_users []) ≤ most)))

abbrev pub GradedByTeacher : Data → Type 0
GradedByTeacher d = (d.is_teacher ≡ true) ⊎ (d.has_grade ≡ false) × (d.has_grade_comment ≡ false)

-- The submissions in the data are the answer of the service for the homework id of the data.
abbrev pub Asked : (Option String → Result (List Submission)) → Data → Type 0
Asked submissions_of d = submissions_of d.homework_id ≡ ok d.submissions

-- The users of the course group are the answer of the service, if a group is named.
abbrev pub GroupAsked : (String → Result (List String)) → Data → Type 0
GroupAsked group_of d =
    (truthy d.course_group_id ≡ false)
    ⊎ ((id : String) × (users : List String) × (d.course_group_id ≡ some id)
        × (group_of id ≡ ok users)
        × (d.group_users ≡ some users))

-- A member of the submission's team, or its teacher, changes it: the team that is sent keeps the
-- one who handed it in, unless a course group is named with the request.
abbrev pub KeepsOwner : Data → Type 0
KeepsOwner d =
    (d.team_members ≡ none)
    ⊎ (truthy d.course_group_id ≡ true)
    ⊎ ((team : List String) × (s : Submission) × (id : String) × (d.team_members ≡ some team)
        × (d.submission ≡ some s)
        × (s.student_id ≡ some id)
        × (includes team id ≡ true))
