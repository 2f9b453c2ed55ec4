-- ===== src/Homework/Rating.antt =====
-- `getAverageRating` of src/services/homework/hooks/index.js.
pub mod Laws
use schulcloud.Base.{
  ℕ, suc, ◌+◌, ◌*◌, String, Option, none, some, List, [], ◌∷◌, Bool, true, false, not, ◌&&◌,
  if◌then◌else◌, ltb, length,
}

-- A grade that is not a whole number is none here. The group is that of the course.
pub record Graded : Type 0 where
  pub grade : Option ℕ
  pub group_users : Option (List String)
  pub team_members : List String

-- The number of submissions and the sum of their grades.
pub record Sums : Type 0 where
  pub count : ℕ
  pub total : ℕ

-- An array is compared to 0 and multiplied as the number that its text spells: for the empty one 0,
-- for one id the number that `number_of` reads, if any, and for more of them none.
abbrev pub as_number : (String → Option ℕ) → List String → Option ℕ
as_number number_of [] = some 0
as_number number_of (id ∷ []) = number_of id
as_number number_of (id ∷ other ∷ rest) = none

-- `none` where the group does not count.
abbrev pub group_number : (String → Option ℕ) → Option (List String) → Option ℕ
group_number number_of none = none
group_number number_of (some users) = elim (as_number number_of users) [
  | none ↦ none
  | some n ↦ if ltb 0 n then some n else none
]

module _ (number_of : String → Option ℕ) where
  unfoldable pub add_grade : Sums → Graded → ℕ → Sums
  add_grade sums s grade = elim (group_number number_of s.group_users) [
    | some n ↦ record {
      count = sums.count + elim (s.group_users) [ none ↦ 0 | some users ↦ length users ];
      total = sums.total + n * grade;
    }
    | none ↦
        if ltb 0 (length s.team_members)
        then record {
          count = sums.count + length s.team_members;
          total = sums.total + length s.team_members * grade;
        }
        else record { count = sums.count + 1; total = sums.total + grade }
  ]

  unfoldable pub sum_grades : Sums → List Graded → Sums
  sum_grades sums [] = sums
  sum_grades sums (s ∷ rest) =
      sum_grades (elim (s.grade) [ none ↦ sums | some grade ↦ add_grade sums s grade ]) rest

  -- The average as the two numbers of which the code prints the quotient.
  unfoldable pub get_average_rating : List Graded → Option Sums
  get_average_rating submissions =
      let sums = sum_grades (record { count = 0; total = 0 }) submissions in
      if ltb 0 sums.count then some sums else none
