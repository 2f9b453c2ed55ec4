-- ===== src/ErrorHandler/Laws.antt =====
-- Up to which depth no secret is left.
use schulcloud.Base.{
  ℕ, suc, ◌+◌, ◌≤◌, String, ◌≡◌, refl, ◌⊎◌, inl, inr, List, [], ◌∷◌, true, false, arith,
  if◌then◌else◌, ltb, length, All, Bool-cases,
}
use schulcloud.ErrorHandler.{
  Value, text, other, object, Fields, empty, field, is_secret, filter_deep, filter_fields,
  filter_data, max_level_filter,
}

-- The number of objects inside one another.
unfoldable mutual
  pub depth : Value → ℕ
  depth (text s) = 0
  depth other = 0
  depth (object fields) = suc (depth_of fields)

  pub depth_of : Fields → ℕ
  depth_of empty = 0
  depth_of (field key value rest) =
      let a = depth value in let b = depth_of rest in if ltb a b then b else a

depth_of-field :
    (key : String) (value : Value) (rest : Fields)
    → (depth value ≤ depth_of (field key value rest))
      × (depth_of rest ≤ depth_of (field key value rest))
unfolding depth
depth_of-field key value rest = elim (Bool-cases (ltb (depth value) (depth_of rest))) [
  | inl e ↦ rw e (ground arith, ground arith)
  | inr e ↦ rw e (ground arith, ground arith)
]

-- A value below a path of keys.
abbrev pub nest : List String → Value → Value
nest [] v = v
nest (k ∷ keys) v = object (field k (nest keys v) empty)

module _ (lower : String → String) where
  -- A secret field has the text that stands for secrets, and every other field is clean itself.
  unfoldable mutual
    pub Clean : Value → Type 0
    Clean (text s) = Unit
    Clean other = Unit
    Clean (object fields) = CleanFields fields

    pub CleanFields : Fields → Type 0
    CleanFields empty = Unit
    CleanFields (field key value rest) =
        ((is_secret lower key ≡ true) × (value ≡ text "<secret>")
          ⊎ (is_secret lower key ≡ false) × Clean value)
        × CleanFields rest

  mutual
    unfolding filter_deep depth Clean

    filter_deep-Clean :
        (level : ℕ) (v : Value) → level + depth v ≤ 13 → Clean (filter_deep lower level v)
    filter_deep-Clean level (text s) h = tt
    filter_deep-Clean level other h = tt
    filter_deep-Clean level (object fields) h =
        let shallow : ltb max_level_filter level ≡ false = ground arith in
        rw shallow (filter_fields-CleanFields level fields (omega arith))

    filter_fields-CleanFields :
        (level : ℕ) (fields : Fields)
        → level + depth_of fields ≤ 12
        → CleanFields (filter_fields lower level fields)
    filter_fields-CleanFields level empty h = tt
    filter_fields-CleanFields level (field key value rest) h =
        let (of_value, of_rest) = depth_of-field key value rest in
        let others = filter_fields-CleanFields level rest (omega (arith, h, of_rest)) in
        let inside = filter_deep-Clean (suc level) value (omega (arith, h, of_value)) in
        elim (Bool-cases (is_secret lower key)) [
          | inl e ↦ rw e (inl (refl, refl), others)
          | inr e ↦ rw e (inr (refl, inside), others)
        ]

  -- In a request body of objects inside one another to a depth of at most twelve, below the top, no
  -- field with the name of a secret keeps its value, at any depth.
  pub filter_data-CleanFields :
      (fields : Fields) → depth_of fields ≤ 12 → CleanFields (filter_data lower fields)
  unfolding filter_data
  filter_data-CleanFields fields h = filter_fields-CleanFields 0 fields (omega arith)

  filter_deep-nest :
      (level : ℕ) (keys : List String) (v : Value)
      → All (λ k. is_secret lower k ≡ false) keys
      → 13 ≤ level + length keys
      → filter_deep lower level (nest keys v) ≡ nest keys v
  unfolding filter_deep
  filter_deep-nest level [] (text s) plain h = refl
  filter_deep-nest level [] other plain h = refl
  filter_deep-nest level [] (object fields) plain h =
      let far : ltb max_level_filter level ≡ true = ground arith in rw far refl
  filter_deep-nest level (k ∷ keys) v (p, plain) h =
      let inside = filter_deep-nest (suc level) keys v plain (omega arith) in
      elim (Bool-cases (ltb max_level_filter level)) [
        | inl far ↦ rw far refl
        | inr near ↦ rw (near, p, inside) refl
      ]

  -- A value that stands below thirteen keys, none of them that of a secret, is logged as it is,
  -- with every secret that it holds.
  pub filter_data-nest :
      (key : String) (keys : List String) (v : Value)
      → All (λ k. is_secret lower k ≡ false) (key ∷ keys)
      → 12 ≤ length keys
      → filter_data lower (field key (nest keys v) empty) ≡ field key (nest keys v) empty
  unfolding filter_data filter_deep
  filter_data-nest key keys v (p, plain) h =
      let inside = filter_deep-nest 1 keys v plain (omega arith) in rw (p, inside) refl
