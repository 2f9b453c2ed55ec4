-- ===== src/Hook/Mail/Laws.antt =====
-- Which attachments and receivers a mail may have.
use schulcloud.Base.{
  ℕ, ◌+◌, ◌<◌, String, ◌≡◌, refl, ◌↔◌, inl, inr, List, [], ◌∷◌, ◌++◌, Bool, true, ok, arith, eq_iff,
  truthy, filter, includes, includes_iff, Has, All, Bool-cases, leb, ◌||◌,
}
use schulcloud.Hook.Mail.{
  Attachment, allowed_type, validated_from, validated_attachments, Found, emails_of, uniq_from,
  uniq, MailData, send_email,
}

abbrev pub total_size : List Attachment → ℕ
total_size [] = 0
total_size (a ∷ rest) = a.size + total_size rest

validated_from_iff :
    (limit total : ℕ) (attachments : List Attachment)
    → total < limit
    → (validated_from limit total attachments ≡ ok tt)
      ↔ All (λ a. allowed_type a ≡ true) attachments × (total + total_size attachments < limit)
unfolding validated_from
validated_from_iff limit total [] h = (λ _. (tt, omega arith), λ _. refl)
validated_from_iff limit total (a ∷ rest) h = elim (Bool-cases (allowed_type a)) [
  | inl good ↦ elim (Bool-cases (leb limit (total + a.size))) [
    | inl big ↦ ground arith
    | inr small ↦ ground (arith, validated_from_iff limit (total + a.size) rest (ground arith))
  ]
  | inr bad ↦ ground arith
]

-- Attachments are accepted exactly when each has an allowed type and they are together smaller
-- than the limit.
pub validated_attachments_iff :
    (limit : ℕ) (attachments : List Attachment)
    → 0 < limit
    → (validated_attachments limit attachments ≡ ok tt)
      ↔ All (λ a. allowed_type a ≡ true) attachments × (total_size attachments < limit)
unfolding validated_attachments
validated_attachments_iff limit attachments h =
    let (to, from) = validated_from_iff limit 0 attachments h in
    (λ e. ((to e).0, omega (arith, (to e).1)), λ p. from (p.0, omega (arith, p.1)))

-- No text stands twice in the list.
abbrev pub Distinct : List String → Type 0
Distinct [] = Unit
Distinct (x ∷ xs) = ¬ Has xs x × Distinct xs

uniq_from_iff :
    (seen xs : List String) (s : String) → Has (uniq_from seen xs) s ↔ (Has xs s × ¬ Has seen s)
unfolding uniq_from
uniq_from_iff seen [] s = (λ h. absurd h, λ h. absurd h.0)
uniq_from_iff seen (x ∷ xs) s = elim (Bool-cases (includes seen x)) [
  | inl old ↦
      rw old (ground (arith, uniq_from_iff seen xs s, includes_iff seen x, includes_iff seen s))
  | inr new ↦ rw new (
      ground (
        arith,
        uniq_from_iff (x ∷ seen) xs s,
        includes_iff seen x,
        includes_iff seen s,
        eq_iff x s,
      ))
]

uniq_from-Distinct : (seen xs : List String) → Distinct (uniq_from seen xs)
unfolding uniq_from
uniq_from-Distinct seen [] = tt
uniq_from-Distinct seen (x ∷ xs) = elim (Bool-cases (includes seen x)) [
  | inl old ↦ rw old (uniq_from-Distinct seen xs)
  | inr new ↦
      rw new
        (λ h. ((uniq_from_iff (x ∷ seen) xs x).0 h).1 (inl refl), uniq_from-Distinct (x ∷ seen) xs)
]

-- Every receiver gets one mail; the receivers are the given addresses that are well formed, and
-- those of the users that were found.
pub send_email-receivers :
    (limit : ℕ) (is_email : String → Bool) (found : List Found) (maildata : MailData)
    {receivers : List String}
    → truthy maildata.text || truthy maildata.html ≡ true
    → send_email limit is_email found maildata ≡ ok receivers
    → Distinct receivers
      × ((s : String)
          → Has receivers s ↔ Has (filter is_email maildata.emails ++ emails_of found) s)
unfolding send_email uniq
send_email-receivers limit is_email found maildata {receivers} content sent =
    let given = filter is_email maildata.emails ++ emails_of found in
    let e : receivers ≡ uniq_from [] given = ground arith in
    rw e (
      uniq_from-Distinct [] given,
      λ s. (λ h. ((uniq_from_iff [] given s).0 h).0, λ h. (uniq_from_iff [] given s).1 (h, λ k. k)),
    )
