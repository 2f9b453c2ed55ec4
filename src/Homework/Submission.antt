-- ===== src/Homework/Submission.antt =====
-- src/services/homework/hooks/submissions.js: what a submission of homework has to meet.
pub mod Laws
pub mod View
use schulcloud.Base.{
  ℕ, String, Option, none, some, List, [], ◌∷◌, ◌++◌, filter, any, length, Bool, true, false, not,
  ◌&&◌, ◌||◌, ◌==◌, if◌then◌else◌, ltb, nat_eq, includes, is_some, truthy, get_or, Result, ok, err,
  forbidden, conflict, bad_request, general_error, type_error, ◌>>=◌, ◌>>◌, throw_if,
}
use schulcloud.ObjectId.{equal}
use schulcloud.Homework.{Homework, Course, holds}

-- A submission that the database holds.
pub record Submission : Type 0 where
  pub student_id : Option String
  pub team_members : List String
  pub homework_id : Option String
  pub course_group_id : Option String

-- `context.data` with what the hooks before have put there. A grade and its comment are given by
-- whether they are a whole number and a text.
pub record Data : Type 0 where
  pub homework_id : Option String
  pub team_members : Option (List String)
  pub submission : Option Submission
  pub submissions : List Submission
  pub homework : Homework
  pub course_group_id : Option String
  pub group_users : Option (List String)
  pub is_teacher : Bool
  pub is_owner : Bool
  pub is_team_member : Bool
  pub has_grade : Bool
  pub has_grade_comment : Bool

abbrev pub is_text : Option String → String → Bool
is_text none s = false
is_text (some t) s = t == s

abbrev pub members : Data → List String
members d = get_or d.team_members []

-- The flags that `insertSubmissionData` sets for a submission that was found.
unfoldable pub insert_submission_data : String → Submission → Data → Data
insert_submission_data user s d =
    let owner = is_text s.student_id user in
    let grouped = truthy s.course_group_id || truthy d.course_group_id in
    record d {
      submission =
          some (if grouped then record s { team_members = s.team_members ++ user ∷ [] } else s);
      is_owner = owner;
      is_team_member = owner || includes s.team_members user || grouped;
    }

-- `data.homeworkId || (data.submission || {}).homeworkId`, if it is not empty.
abbrev pub asked_homework : Data → Option String
asked_homework d = if truthy d.homework_id then d.homework_id else elim (d.submission) [
  | none ↦ none
  | some s ↦ if truthy s.homework_id then s.homework_id else none
]

-- The flag for a homework that was found; a homework without a course throws.
unfoldable pub insert_homework : String → Homework → Data → Result Data
insert_homework user homework d =
    if equal homework.teacher_id user
    then ok (record d { homework = homework; is_teacher = true })
    else elim (homework.course) [
      | none ↦ err general_error
      | some course ↦ ok (record d {
        homework = homework;
        is_teacher = holds course.teacher_ids user || holds course.substitution_ids user;
      })
    ]

-- `insertHomeworkData` with the answers of the homework service.
unfoldable pub insert_homework_data : (String → Result Homework) → String → Data → Result Data
insert_homework_data homework_of user d = elim (asked_homework d) [
  | none ↦ err bad_request
  | some id ↦ elim (homework_of id) [
    | err e ↦ err general_error
    | ok homework ↦ insert_homework user homework d
  ]
]

-- `insertSubmissionsData`: the submissions service is asked with the homework id of the data alone,
-- which may be undefined.
unfoldable pub insert_submissions_data :
    (Option String → Result (List Submission)) → Data → Result Data
insert_submissions_data submissions_of d = elim (submissions_of d.homework_id) [
  | err e ↦ err general_error
  | ok found ↦ ok (record d { submissions = found })
]

unfoldable pub set_team_members : String → Data → Result Data
set_team_members user d =
    let team = get_or d.team_members (user ∷ []) in
    if not (includes team user) then err conflict else ok (record d { team_members = some team })

-- The data with the user as the team where there is no submission.
abbrev pub with_members : String → Data → Data
with_members user d =
    if not (is_some d.submission) then record d { team_members = some (user ∷ []) } else d

-- `preventNoTeamMember`, by whether the method is update.
unfoldable pub prevent_no_team_member : Bool → String → Data → Result Data
prevent_no_team_member is_update user d =
    if is_update && nat_eq (length (members (with_members user d))) 0
    then err conflict
    else ok (with_members user d)

-- `submission.teamMembers.includes(id)` for a submission that the service found: the ids that it
-- holds are objects, and the one that is asked for is a text, so they are never the same.
abbrev pub includes_object : List String → String → Bool
includes_object members id = false

-- The test of a submission that was found. The id of the one who handed it in is compared as a text.
abbrev pub is_of : String → Submission → Bool
is_of user s = includes_object s.team_members user || is_text s.student_id user

unfoldable pub no_submission_before : String → Data → Result Data
no_submission_before user d =
    if ltb 0 (length (filter (is_of user) d.submissions)) then err conflict else ok d

-- The members that the submission did not have. Its members are texts since the data was copied.
abbrev pub new_members : Data → List String
new_members d = elim (d.submission) [
  | none ↦ members d
  | some s ↦ filter (λ m. not (includes s.team_members m)) (members d)
]

unfoldable pub no_duplicate_submission_for_team_members : Data → Result Data
no_duplicate_submission_for_team_members d =
    if not d.is_teacher && is_some d.team_members
    then if ltb 0 (length (filter (λ s. any (λ m. is_of m s) (new_members d)) d.submissions))
      then err conflict
      else ok d
    else ok d

-- `populateCourseGroup`: the users of the course group that is named with the request.
unfoldable pub populate_course_group : (String → Result (List String)) → Data → Result Data
populate_course_group group_of d = elim (d.course_group_id) [
  | none ↦ ok d
  | some id ↦
      if not (truthy (some id))
      then ok d
      else (group_of id >>= λ users. ok (record d { group_users = some users }))
]

abbrev pub is_larger : List String → ℕ → Bool
is_larger l most = ltb most (length l)

unfoldable pub max_team_members : Data → Result Data
max_team_members d =
    if not d.is_teacher && d.homework.team_submissions
    then elim (d.homework.max_team_members) [
      | none ↦ ok d
      | some most ↦
          if nat_eq most 0
          then ok d
          else if is_larger (members d) most || is_larger (get_or d.group_users []) most
          then err conflict
          else ok d
    ]
    else if is_larger (members d) 1
    then err conflict
    else ok d

-- The submission is read where team members are given.
unfoldable pub can_remove_owner : Data → Result Data
can_remove_owner d = elim (d.team_members) [
  | none ↦ ok d
  | some team ↦ elim (d.submission) [
    | none ↦ err type_error
    | some s ↦
        if not (elim (s.student_id) [ none ↦ false | some id ↦ includes team id ])
          && not (truthy d.course_group_id)
        then err conflict
        else ok d
  ]
]

unfoldable pub can_grade : Data → Result Data
can_grade d =
    if not d.is_teacher && (d.has_grade || d.has_grade_comment) then err forbidden else ok d

unfoldable pub has_edit_permission : Data → Result Data
has_edit_permission d = if d.is_team_member || d.is_teacher then ok d else err forbidden

unfoldable pub has_delete_permission : Data → Result Data
has_delete_permission d = if d.is_team_member then ok d else err forbidden

-- The hooks of create after the permission.
unfoldable pub before_create :
    (String → Result Homework)
    → (Option String → Result (List Submission))
    → (String → Result (List String))
    → String
    → Data
    → Result Data
before_create homework_of submissions_of group_of user d =
    insert_homework_data homework_of user d
    >>= insert_submissions_data submissions_of
    >>= set_team_members user
    >>= no_submission_before user
    >>= no_duplicate_submission_for_team_members
    >>= populate_course_group group_of
    >>= max_team_members
    >>= can_grade

-- The hooks of update and patch after the permission, for a submission that was found.
unfoldable pub before_change :
    (String → Result Homework)
    → (Option String → Result (List Submission))
    → (String → Result (List String))
    → Bool
    → String
    → Submission
    → Data
    → Result Data
before_change homework_of submissions_of group_of is_update user s d =
    insert_homework_data homework_of user (insert_submission_data user s d)
    >>= insert_submissions_data submissions_of
    >>= has_edit_permission
    >>= prevent_no_team_member is_update user
    >>= can_remove_owner
    >>= no_duplicate_submission_for_team_members
    >>= populate_course_group group_of
    >>= max_team_members
    >>= can_grade

-- The branches of `hasViewPermission` for the course of the homework, and for a course group.
abbrev pub course_shows : Homework → String → Bool
course_shows h user = elim (h.course) [
  | none ↦ false
  | some c ↦
      includes c.teacher_ids user
      || includes c.substitution_ids user
      || includes c.user_ids user && h.public_submissions
]

abbrev pub group_shows : (String → Result (List String)) → Option String → String → Result Bool
group_shows group_users none user = ok false
group_shows group_users (some group) user =
    if not (truthy (some group)) then ok false else elim (group_users group) [
      | err e ↦ err general_error
      | ok users ↦ ok (includes users user)
    ]

-- The services that `hasViewPermission` asks: the homework of the submission, with its course, and
-- the users of its course group.
unfoldable pub has_view_permission :
    Result Homework → (String → Result (List String)) → Submission → String → Result Bool
has_view_permission homework group_users s user =
    if equal (get_or s.student_id "undefined") user || includes s.team_members user
    then ok true
    else elim homework [
      | err e ↦ err general_error
      | ok h ↦
          if equal h.teacher_id user
          then ok true
          else if course_shows h user
          then ok true
          else group_shows group_users s.course_group_id user
    ]

unfoldable pub check_get_submission_view_permission :
    Result Homework → (String → Result (List String)) → Submission → String → Result (Unit {0})
check_get_submission_view_permission homework group_users s user =
    has_view_permission homework group_users s user >>= λ b. if b then ok tt else err forbidden
