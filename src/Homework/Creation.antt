-- ===== src/Homework/Creation.antt =====
-- What creating a homework, and changing its archive, are held to.
use schulcloud.Base.{
  String, ◌≡◌, refl, ◌⊎◌, inl, inr, none, some, List, [], ◌∷◌, any, true, false, ◌||◌, ◌==◌, arith,
  if◌then◌else◌, truthy, All, Result, ok, err, ◌>>◌, Bool-cases, Option-cases, Result-cases,
}
use schulcloud.ObjectId.{equal}
use schulcloud.Homework.{
  Course, Homework, is_student, has_patch_permission, Created, in_course, check_created_course,
  check_created_lesson, has_create_permission,
}

any-equal_distinct :
    (user : String) (others : List String)
    → All (λ id. equal user id ≡ false) others
    → any (λ other. equal user other) others ≡ false
any-equal_distinct user [] h = refl
any-equal_distinct user (id ∷ others) h = ground (arith, any-equal_distinct user others)

-- A student of the course, who alone has archived the homework, can replace the list by any other
-- students: the check of those who are removed does not look at those who are added.
pub has_patch_permission-others :
    (user : String) (homework : Homework) (others : List String)
    → is_student homework user ≡ true
    → equal user user ≡ true
    → homework.archived ≡ user ∷ []
    → All (λ id. equal user id ≡ false) others
    → has_patch_permission user homework (some others) ≡ ok tt
unfolding has_patch_permission
has_patch_permission-others user homework others attending self archived distinct =
    rw archived (ground (arith, any-equal_distinct user others distinct))

-- The course of a homework that is created: there is none, or the user is in it; and its lesson.
abbrev pub CourseHas : (String → Result Course) → String → Created → Type 0
CourseHas courses user next =
    (truthy next.course_id ≡ false)
    ⊎ ((id : String) × (course : Course) × (next.course_id ≡ some id)
        × (courses id ≡ ok course)
        × (in_course course user ≡ true))

abbrev pub CourseHasLesson : (String → Result String) → Created → Type 0
CourseHasLesson lesson_course next =
    (truthy next.lesson_id ≡ false)
    ⊎ ((id : String) × (course : String) × (lesson_course_id : String) × (next.lesson_id ≡ some id)
        × (next.course_id ≡ some course)
        × (lesson_course id ≡ ok lesson_course_id)
        × (equal lesson_course_id course ≡ true))

check_created_course-CourseHas :
    (courses : String → Result Course) (user : String) (next : Created)
    → check_created_course courses user next.course_id ≡ ok tt
    → CourseHas courses user next
check_created_course-CourseHas courses user next h = elim (Option-cases next.course_id) [
  | inl e ↦ inl (ground arith)
  | inr (id, e) ↦ elim (Bool-cases (truthy (some id))) [
    | inr f ↦ inl (ground arith)
    | inl t ↦ elim (Result-cases (courses id)) [
      | inl (course, c) ↦ inr (
        id,
        course,
        e,
        c,
        elim (Bool-cases (in_course course user)) [ inl i ↦ i | inr i ↦ absurd (ground arith) ],
      )
      | inr (error, c) ↦ absurd (ground arith)
    ]
  ]
]

check_created_lesson-CourseHasLesson :
    (lesson_course : String → Result String) (next : Created)
    → check_created_lesson lesson_course next.course_id next.lesson_id ≡ ok tt
    → CourseHasLesson lesson_course next
check_created_lesson-CourseHasLesson lesson_course next h = elim (Option-cases next.lesson_id) [
  | inl e ↦ inl (ground arith)
  | inr (id, e) ↦ elim (Bool-cases (truthy (some id))) [
    | inr f ↦ inl (ground arith)
    | inl t ↦ elim (Result-cases (lesson_course id)) [
      | inr (error, c) ↦ absurd (ground arith)
      | inl (found, c) ↦ elim (Option-cases next.course_id) [
        | inl n ↦ absurd (ground arith)
        | inr (course, n) ↦ elim (Bool-cases (equal found course)) [
          | inl q ↦ inr (id, course, found, e, n, c, q)
          | inr q ↦ absurd (ground arith)
        ]
      ]
    ]
  ]
]

guarded :
    (c l : Result (Unit {0})) (n next : Created)
    → (c >> l >> ok n) ≡ ok next
    → (c ≡ ok tt) × (l ≡ ok tt) × (n ≡ next)
guarded (ok u) (ok v) n next h = (refl, refl, ground arith)
guarded (ok u) (err e) n next h = absurd (ground arith)
guarded (err e) l n next h = absurd (ground arith)

-- Creating a homework sets the school and the teacher to those of the current user. For a student it
-- is private and outside of courses and lessons; for another user its course is one that the user
-- is in, and its lesson one of that course.
pub has_create_permission-sets :
    (courses : String → Result Course) (lesson_course : String → Result String)
    (user school : String) (roles : List String) (created next : Created)
    → has_create_permission courses lesson_course user school roles created ≡ ok next
    → (next.school_id ≡ some school)
      × (next.teacher_id ≡ some user)
      × CourseHas courses user next
      × CourseHasLesson lesson_course next
      × ((next.private ≡ true) × (next.course_id ≡ none) × (next.lesson_id ≡ none)
          ⊎ (any (λ r. r == "student") roles ≡ false))
unfolding has_create_permission
has_create_permission-sets courses lesson_course user school roles created next h =
    let student = any (λ r. r == "student") roles in
    let n : Created = record {
      school_id = some school;
      teacher_id = some user;
      private = student || created.private;
      course_id = if student then none else created.course_id;
      lesson_id = if student then none else created.lesson_id;
    } in
    let (c, l, same) =
      guarded (check_created_course courses user n.course_id)
        (check_created_lesson lesson_course n.course_id n.lesson_id) n next h in
    rw (← same) (
      refl,
      refl,
      check_created_course-CourseHas courses user n c,
      check_created_lesson-CourseHasLesson lesson_course n l,
      elim (Bool-cases student) [ inl s ↦ inl (ground arith) | inr s ↦ inr s ],
    )
