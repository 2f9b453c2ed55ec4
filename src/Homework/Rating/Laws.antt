-- ===== src/Homework/Rating/Laws.antt =====
-- The range of the average rating.
use native.Mathlib.Nat.{mul-add, mul_comm, mul-le-mul_left}
use schulcloud.Base.{
  ℕ, ◌+◌, ◌*◌, ◌≤◌, ◌<◌, String, ◌≡◌, ◌⊎◌, inl, inr, Option, none, some, List, [], ◌∷◌, length,
  arith, if◌then◌else◌, ltb, All, Bool-cases,
}
use schulcloud.Homework.Rating.{
  Graded, Sums, group_number, add_grade, sum_grades, get_average_rating,
}

-- A submission that counts for the average has a grade between the two, and the group of its course
-- is not read as a number.
abbrev pub Bounded : (String → Option ℕ) → ℕ → ℕ → Graded → Type 0
Bounded number_of low high s =
    (group_number number_of s.group_users ≡ none)
    × ((s.grade ≡ none) ⊎ ((g : ℕ) × (s.grade ≡ some g) × (low ≤ g) × (g ≤ high)))

weighed_low :
    (low k g count total : ℕ) → low ≤ g → low * count ≤ total → low * (count + k) ≤ total + k * g
weighed_low low k g count total b h =
    let share : k * low ≤ k * g = mul-le-mul_left k b in
    omega (arith, mul-add low count k, mul_comm low k, share)

weighed_high :
    (high k g count total : ℕ)
    → g ≤ high
    → total ≤ high * count
    → total + k * g ≤ high * (count + k)
weighed_high high k g count total b h =
    let share : k * g ≤ k * high = mul-le-mul_left k b in
    omega (arith, mul-add high count k, mul_comm high k, share)

abbrev weight : Graded → ℕ
weight s = if ltb 0 (length s.team_members) then length s.team_members else 1

module _ (number_of : String → Option ℕ) (low high : ℕ) where
  add_grade-weight :
      (sums : Sums) (s : Graded) (g : ℕ)
      → group_number number_of s.group_users ≡ none
      → add_grade number_of sums s g
        ≡ record { count = sums.count + weight s; total = sums.total + weight s * g }
  unfolding add_grade
  add_grade-weight sums s g no_group = elim (Bool-cases (ltb 0 (length s.team_members))) [
    | inl team ↦ ground arith
    | inr alone ↦ ground arith
  ]

  add_grade-bounds :
      (sums : Sums) (s : Graded) (g : ℕ)
      → group_number number_of s.group_users ≡ none
      → low ≤ g
      → g ≤ high
      → low * sums.count ≤ sums.total
      → sums.total ≤ high * sums.count
      → (low * (add_grade number_of sums s g).count ≤ (add_grade number_of sums s g).total)
        × ((add_grade number_of sums s g).total ≤ high * (add_grade number_of sums s g).count)
  add_grade-bounds sums s g no_group at_least at_most l u =
      rw (add_grade-weight sums s g no_group) (
        weighed_low low (weight s) g sums.count sums.total at_least l,
        weighed_high high (weight s) g sums.count sums.total at_most u,
      )

  sum_grades-bounds :
      (sums : Sums) (submissions : List Graded)
      → All (Bounded number_of low high) submissions
      → low * sums.count ≤ sums.total
      → sums.total ≤ high * sums.count
      → (low * (sum_grades number_of sums submissions).count
          ≤ (sum_grades number_of sums submissions).total)
        × ((sum_grades number_of sums submissions).total
            ≤ high * (sum_grades number_of sums submissions).count)
  unfolding sum_grades add_grade
  sum_grades-bounds sums [] b l u = (l, u)
  sum_grades-bounds sums (s ∷ rest) ((no_group, inl e), b) l u =
      rw e (sum_grades-bounds sums rest b l u)
  sum_grades-bounds sums (s ∷ rest) ((no_group, inr (g, e, at_least, at_most)), b) l u =
      let (l2, u2) = add_grade-bounds sums s g no_group at_least at_most l u in
      rw e (sum_grades-bounds (add_grade number_of sums s g) rest b l2 u2)

  -- The average rating lies between the lowest and the highest grade: it is a quotient of a sum
  -- and a positive count, where each graded submission has a grade between the two.
  pub get_average_rating-bounds :
      (submissions : List Graded) (average : Sums)
      → All (Bounded number_of low high) submissions
      → get_average_rating number_of submissions ≡ some average
      → (0 < average.count)
        × (low * average.count ≤ average.total)
        × (average.total ≤ high * average.count)
  unfolding get_average_rating
  get_average_rating-bounds submissions average b h =
      let zero_sums : Sums = record { count = 0; total = 0 } in
      let (l, u) = sum_grades-bounds zero_sums submissions b (omega arith) (omega arith) in
      elim (Bool-cases (ltb 0 (sum_grades number_of zero_sums submissions).count)) [
        | inl e ↦
            let same : sum_grades number_of zero_sums submissions ≡ average = ground arith in
            rw (← same) (ground arith, l, u)
        | inr e ↦ absurd (ground arith)
      ]
