-- ===== src/Sync/Records/Laws.antt =====
-- The records that are imported: those with the required values, one for each address.
use schulcloud.Base.{
  ℕ, suc, ◌+◌, String, ◌≡◌, refl, sym, ap, ◌∙◌, inl, inr, Option, List, [], ◌∷◌, ◌++◌, find, length,
  true, false, ◌||◌, ◌==◌, eq_iff, if◌then◌else◌, arith, Bool-cases,
}
use mathlib.Core.Path.{subst}
use mathlib.Core.List.{append-nil, append_assoc}
use schulcloud.Sync.Records.{Record, has_email, cluster_step, cluster_onto, cluster_by_email}

module _ {ℓ} {Date : Type ℓ} where
  abbrev by_email : String → List (Record Date) → Option (Record Date)
  by_email email records = find (λ r. r.email == email) records

  -- No two records have an address in common.
  abbrev pub Distinct : List (Record Date) → Type 0
  Distinct [] = Unit
  Distinct (r ∷ rest) = (has_email r.email rest ≡ false) × Distinct rest

  by_email_append :
      (email : String) (xs ys : List (Record Date))
      → by_email email (xs ++ ys)
        ≡ (if has_email email xs then by_email email xs else by_email email ys)
  by_email_append email [] ys = refl
  by_email_append email (x ∷ xs) ys = ground (arith, by_email_append email xs ys)

  by_email_seen :
      (r : Record Date) (email : String) (seen rest : List (Record Date))
      → has_email r.email seen ≡ true
      → by_email email (seen ++ r ∷ rest) ≡ by_email email (seen ++ rest)
  by_email_seen r email seen rest h = elim (Bool-cases (r.email == email)) [
    | inr other ↦
        ground (arith, by_email_append email seen (r ∷ rest), by_email_append email seen rest)
    | inl same ↦
        let known : has_email email seen ≡ true = rw (← (eq_iff r.email email).0 same) h in
        ground (arith, by_email_append email seen (r ∷ rest), by_email_append email seen rest)
  ]

  has_email-snoc :
      (email : String) (xs : List (Record Date)) (r : Record Date)
      → has_email email (xs ++ r ∷ []) ≡ (has_email email xs || r.email == email)
  has_email-snoc email [] r = ground arith
  has_email-snoc email (x ∷ xs) r = ground (arith, has_email-snoc email xs r)

  Distinct-snoc :
      (xs : List (Record Date)) (r : Record Date)
      → Distinct xs
      → has_email r.email xs ≡ false
      → Distinct (xs ++ r ∷ [])
  Distinct-snoc [] r d h = (refl, tt)
  Distinct-snoc (x ∷ xs) r (d, ds) h = (
    ground (arith, has_email-snoc x.email xs r, eq_iff r.email x.email, eq_iff x.email r.email),
    Distinct-snoc xs r ds (ground arith),
  )

  length-snoc :
      (xs : List (Record Date)) (r : Record Date) → length (xs ++ r ∷ []) ≡ suc (length xs)
  length-snoc [] r = refl
  length-snoc (x ∷ xs) r = ap suc (length-snoc xs r)

  cluster_step-seen :
      (seen : List (Record Date)) (failed : ℕ) (r : Record Date)
      → has_email r.email seen ≡ true
      → cluster_step seen failed r ≡ (seen, suc failed)
  cluster_step-seen seen failed r e = rw e refl

  cluster_step-new :
      (seen : List (Record Date)) (failed : ℕ) (r : Record Date)
      → has_email r.email seen ≡ false
      → cluster_step seen failed r ≡ (seen ++ r ∷ [], failed)
  cluster_step-new seen failed r e = rw e refl

  -- The records `found` and the number `failed`, of which `before` were found and `bad` had failed.
  abbrev Clustered :
      String → List (Record Date) → ℕ → List (Record Date) → List (Record Date) × ℕ → Type ℓ
  Clustered email before bad records (found, failed) =
      (by_email email found ≡ by_email email (before ++ records))
      × Distinct found
      × (length found + failed ≡ length before + bad + length records)

  cluster_onto_lem :
      (seen : List (Record Date)) (failed : ℕ) (records : List (Record Date)) (email : String)
      → Distinct seen
      → Clustered email seen failed records (cluster_onto seen failed records)
  unfolding cluster_onto
  cluster_onto_lem seen failed [] email d = (rw (append-nil seen) refl, d, omega arith)
  cluster_onto_lem seen failed (r ∷ rest) email d = elim (Bool-cases (has_email r.email seen)) [
    | inl e ↦
        let (a, b, c) = cluster_onto_lem seen (suc failed) rest email d in
        subst (λ p. Clustered email seen failed (r ∷ rest) (cluster_onto p.0 p.1 rest))
          (sym (cluster_step-seen seen failed r e))
          (a ∙ sym (by_email_seen r email seen rest e), b, omega (arith, c))
    | inr e ↦
        let (a, b, c) =
          cluster_onto_lem (seen ++ r ∷ []) failed rest email (Distinct-snoc seen r d e) in
        subst (λ p. Clustered email seen failed (r ∷ rest) (cluster_onto p.0 p.1 rest))
          (sym (cluster_step-new seen failed r e))
          (
            a ∙ ap (by_email email) (append_assoc seen (r ∷ []) rest),
            b,
            omega (arith, c, length-snoc seen r),
          )
  ]

  -- One record is imported for each address, the first one with it; and the others are counted as
  -- failed, so that each record is imported or counted.
  pub cluster_by_email_first :
      (records : List (Record Date)) (email : String)
      → (find (λ r. r.email == email) (cluster_by_email records).0
          ≡ find (λ r. r.email == email) records)
        × Distinct ((cluster_by_email records).0)
        × (length ((cluster_by_email records).0) + (cluster_by_email records).1 ≡ length records)
  unfolding cluster_by_email
  cluster_by_email_first records email =
      let (a, b, c) = cluster_onto_lem [] 0 records email tt in (a, b, omega (arith, c))
