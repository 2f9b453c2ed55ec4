-- ===== src/Homework/Laws.antt =====
-- Who may see, change, create and delete a homework.
use schulcloud.Base.{
  ℕ, ◌<◌, String, ◌≡◌, ◌↔◌, refl, ◌⊎◌, inl, inr, Option, none, some, List, [], ◌∷◌, filter, Bool,
  true, false, ◌||◌, ◌==◌, arith, Exists, Has, includes_iff, ok, Bool-cases, Option-cases,
  Result-cases, eq_iff,
}
use schulcloud.ObjectId.{is_valid, equal}
use schulcloud.Homework.{
  Course, Homework, holds, is_homework_owner, is_course_homework_teacher, has_homework_permission,
  teaches, can_view, page, single, has_view_permission_after, restrict_homework_deletion,
}

-- The user owns the homework, or it is not private and the user teaches its course.
pub data MayChange (user : String) (homework : Homework) : Type 0 where
  owner : equal user homework.teacher_id ≡ true → MayChange user homework
  teacher :
      (course : Course)
      → homework.private ≡ false
      → is_valid user ≡ true
      → homework.course ≡ some course
      → holds course.teacher_ids user || holds course.substitution_ids user ≡ true
      → MayChange user homework

module _ (user : String) (homework : Homework) where
  has_homework_permission-MayChange :
      has_homework_permission user homework ≡ ok true → MayChange user homework
  unfolding has_homework_permission is_homework_owner is_course_homework_teacher
  has_homework_permission-MayChange h = elim (Bool-cases (equal user homework.teacher_id)) [
    | inl e ↦ owner e
    | inr e ↦ elim (Option-cases homework.course) [
      | inl n ↦ absurd (ground arith)
      | inr (course, c) ↦ teacher course (ground arith) (ground arith) c (ground arith)
    ]
  ]

  MayChange-has_homework_permission :
      MayChange user homework → has_homework_permission user homework ≡ ok true
  unfolding has_homework_permission is_homework_owner is_course_homework_teacher
  MayChange-has_homework_permission (owner e) = ground arith
  MayChange-has_homework_permission (teacher course p v c t) = ground arith

-- A deletion is let through exactly if the id and the user's id are valid, the homework exists and
-- the user may change it: as its owner, or as a teacher of its course where it is not private.
pub restrict_homework_deletion_iff :
    (homeworks : String → Option Homework) (user id : String)
    → (restrict_homework_deletion homeworks user id ≡ ok tt) ↔ (
        (is_valid user ≡ true)
        × (is_valid id ≡ true)
        × (homework : Homework) × (homeworks id ≡ some homework)
        × MayChange user homework)
unfolding restrict_homework_deletion
restrict_homework_deletion_iff homeworks user id = (
  λ h. elim (Option-cases (homeworks id)) [
    | inl n ↦ absurd (ground arith)
    | inr (homework, e) ↦ elim (Result-cases (has_homework_permission user homework)) [
      | inl (true, p) ↦ (
        ground arith,
        ground arith,
        homework,
        e,
        has_homework_permission-MayChange user homework p,
      )
      | inl (false, p) ↦ absurd (ground arith)
      | inr (error, p) ↦ absurd (ground arith)
    ]
  ],
  λ (v, w, homework, e, m). ground (arith, MayChange-has_homework_permission user homework m),
)

-- The user teaches the homework, which is their own or belongs to their course and is not private; or
-- attends its course, and it is available and not private.
pub data MayView (now : ℕ) (user : String) (homework : Homework) : Type 0 where
  owner : homework.teacher_id ≡ user → MayView now user homework
  teacher :
      (course : Course)
      → homework.private ≡ false
      → homework.course ≡ some course
      → Has course.teacher_ids user ⊎ Has course.substitution_ids user
      → MayView now user homework
  student :
      (course : Course) (date : ℕ)
      → homework.private ≡ false
      → homework.course ≡ some course
      → Has course.user_ids user
      → homework.available_date ≡ some date
      → date < now
      → MayView now user homework

module _ (now : ℕ) (user : String) (homework : Homework) where
  can_view-MayView : can_view now user homework ≡ true → MayView now user homework
  unfolding can_view
  can_view-MayView h = elim (Bool-cases (homework.teacher_id == user)) [
    | inl e ↦ owner (ground (arith, eq_iff homework.teacher_id user))
    | inr e ↦ elim (Option-cases homework.course) [
      | inl n ↦ absurd (ground arith)
      | inr (course, c) ↦ elim (Bool-cases (teaches (some course) user)) [
        | inl t ↦ teacher course (ground arith) c (
            ground (
              arith,
              includes_iff course.teacher_ids user,
              includes_iff course.substitution_ids user,
            ))
        | inr t ↦ elim (Option-cases homework.available_date) [
          | inl n ↦ absurd (ground arith)
          | inr (date, d) ↦
              student course date (ground arith) c
                (ground (arith, includes_iff course.user_ids user)) d (ground arith)
        ]
      ]
    ]
  ]

  MayView-can_view : MayView now user homework → can_view now user homework ≡ true
  unfolding can_view
  MayView-can_view (owner e) = ground (arith, eq_iff homework.teacher_id user)
  MayView-can_view (teacher course p c t) =
      ground
        (arith, includes_iff course.teacher_ids user, includes_iff course.substitution_ids user)
  MayView-can_view (student course date p c a d b) =
      ground (arith, includes_iff course.user_ids user)

can_view_iff :
    (now : ℕ) (user : String) (homework : Homework)
    → (can_view now user homework ≡ true) ↔ MayView now user homework
can_view_iff now user homework =
    (can_view-MayView now user homework, MayView-can_view now user homework)

filter-Exists :
    (p : Homework → Bool) (x : Homework) (l : List Homework)
    → Exists (λ h. h ≡ x) (filter p l) ↔ (Exists (λ h. h ≡ x) l × (p x ≡ true))
filter-Exists p x [] = (λ h. absurd h, λ (h, k). absurd h)
filter-Exists p x (y ∷ l) = elim (Bool-cases (p y)) [
  | inl e ↦ rw e (ground (arith, filter-Exists p x l))
  | inr e ↦ rw e (ground (arith, filter-Exists p x l))
]

-- Of a page of homework a user is given exactly those that the user may view; a single homework is
-- given if the user may view it, or if it has no school, and is refused else.
pub has_view_permission_after_iff :
    (now : ℕ) (user : String) (l : List Homework) (x : Homework)
    → ((shown : List Homework) × (has_view_permission_after now user (page l) ≡ ok (page shown))
        × (Exists (λ h. h ≡ x) shown ↔ (Exists (λ h. h ≡ x) l × MayView now user x)))
      × ((has_view_permission_after now user (single x) ≡ ok (single x))
          ↔ ((x.school_id ≡ none) ⊎ MayView now user x))
unfolding has_view_permission_after
has_view_permission_after_iff now user l x =
    let (seen, shows) = filter-Exists (can_view now user) x l in
    let (reason, visible) = can_view_iff now user x in
    (
      (
        filter (can_view now user) l,
        refl,
        (
          λ m. let (listed, v) = seen m in (listed, reason v),
          λ (listed, v). shows (listed, visible v),
        ),
      ),
      elim (Option-cases x.school_id) [
        | inl e ↦ (λ h. inl e, λ h. ground arith)
        | inr (school, e) ↦ elim (Bool-cases (can_view now user x)) [
          | inl v ↦ (λ h. inr (reason v), λ h. ground arith)
          | inr v ↦ (
            λ h. absurd (ground arith),
            elim [
              | inl n ↦ absurd (ground arith)
              | inr m ↦ let shown = visible m in absurd (ground arith)
            ],
          )
        ]
      ],
    )
