-- ===== src/FileStorage/Removal.antt =====
-- What is left when a directory is removed.
use schulcloud.Base.{
  String, ◌≡◌, ◌≢◌, refl, ap, ◌∙◌, inl, inr, none, some, [], ◌∷◌, Bool, true, false, if◌then◌else◌,
  Bool-cases, All, eq_iff,
}
use schulcloud.FileAccess.Team.{Right, delete, Verdict}
use schulcloud.FileStorage.{
  File, Files, answered, has_id, with_id, is_in, is_allowed, remove_all, remove_one,
  remove_directory,
}
use schulcloud.FileStorage.Moves.{other_id, some-injective}

-- No two documents have an id in common.
abbrev pub IsDistinct : Files → Type 0
IsDistinct [] = Unit
IsDistinct (f ∷ rest) = All (λ g. has_id f.id g ≡ false) rest × IsDistinct rest

with_id-absent :
    (id : String) (files : Files) → All (λ g. has_id id g ≡ false) files → with_id id files ≡ none
with_id-absent id [] h = refl
with_id-absent id (f ∷ rest) (h, hs) = rw h (with_id-absent id rest hs)

module _ (check : Right → String → String → Files → Verdict) where
  with_id-remove_one :
      (id other : String) (files : Files)
      → other ≢ id
      → with_id other (remove_one check id files) ≡ with_id other files
  with_id-remove_one id other [] ne = refl
  with_id-remove_one id other (f ∷ rest) ne = elim (Bool-cases (has_id id f)) [
    | inl e ↦ rw e (rw (other_id id other f ne e) refl)
    | inr e ↦
        rw e (ap (λ o. if has_id other f then some f else o) (with_id-remove_one id other rest ne))
  ]

  with_id-remove_all :
      (test : File → Bool) (other : String) (files : Files) (f : File)
      → with_id other files ≡ some f
      → test f ≡ false
      → with_id other (remove_all check test files) ≡ some f
  with_id-remove_all test other [] f h keep = cc
  with_id-remove_all test other (g ∷ rest) f h keep = elim (Bool-cases (has_id other g)) [
    | inl e ↦
        let same : some g ≡ some f = rw e at h in
        let kept : test g ≡ false = rw (some-injective same) keep in rw kept (rw e same)
    | inr e ↦
        let later = with_id-remove_all test other rest f (rw e at h) keep in
        elim (Bool-cases (test g)) [ inl gone ↦ rw gone later | inr kept ↦ rw kept (rw e later) ]
  ]

  remove_all-All :
      (test : File → Bool) (files : Files) → All (λ f. test f ≡ false) (remove_all check test files)
  remove_all-All test [] = tt
  remove_all-All test (f ∷ rest) = elim (Bool-cases (test f)) [
    | inl gone ↦ rw gone (remove_all-All test rest)
    | inr kept ↦ rw kept (kept, remove_all-All test rest)
  ]

  remove_one-All :
      (P : File → Type 0) (id : String) (files : Files)
      → All P files
      → All P (remove_one check id files)
  remove_one-All P id [] h = tt
  remove_one-All P id (f ∷ rest) (h, hs) = elim (Bool-cases (has_id id f)) [
    | inl e ↦ rw e hs
    | inr e ↦ rw e (h, remove_one-All P id rest hs)
  ]

  remove_all-keeps :
      (P : File → Type 0) (test : File → Bool) (files : Files)
      → All P files
      → All P (remove_all check test files)
  remove_all-keeps P test [] h = tt
  remove_all-keeps P test (f ∷ rest) (h, hs) = elim (Bool-cases (test f)) [
    | inl gone ↦ rw gone (remove_all-keeps P test rest hs)
    | inr kept ↦ rw kept (h, remove_all-keeps P test rest hs)
  ]

  remove_all-IsDistinct :
      (test : File → Bool) (files : Files)
      → IsDistinct files
      → IsDistinct (remove_all check test files)
  remove_all-IsDistinct test [] d = tt
  remove_all-IsDistinct test (f ∷ rest) (d, ds) = elim (Bool-cases (test f)) [
    | inl gone ↦ rw gone (remove_all-IsDistinct test rest ds)
    | inr kept ↦ rw kept (
      remove_all-keeps (λ g. has_id f.id g ≡ false) test rest d,
      remove_all-IsDistinct test rest ds,
    )
  ]

  remove_one-absent :
      (id : String) (files : Files)
      → IsDistinct files
      → with_id id (remove_one check id files) ≡ none
  remove_one-absent id [] d = refl
  remove_one-absent id (f ∷ rest) (d, ds) = elim (Bool-cases (has_id id f)) [
    | inl e ↦
        let others : All (λ g. has_id id g ≡ false) rest = rw (← (eq_iff f.id id).0 e) d in
        rw e (with_id-absent id rest others)
    | inr e ↦ rw e (rw e (remove_one-absent id rest ds))
  ]

  -- When a directory that is there is removed by somebody who may delete it, and no two documents
  -- have an id in common, then the directory is gone, nothing is left that lies in it, and every
  -- other file that does not lie in it directly is left as it is.
  pub remove_directory-All :
      (user id : String) (files : Files) (directory : File)
      → with_id id files ≡ some directory
      → IsDistinct files
      → is_allowed check delete user id files ≡ true
      → let (reply, left) = remove_directory check user id files in
        (reply ≡ answered tt)
        × (with_id id left ≡ none)
        × All (λ f. is_in (some id) f ≡ false) left
        × ((other : String) (f : File)
            → with_id other files ≡ some f
            → other ≢ id
            → is_in (some id) f ≡ false
            → with_id other left ≡ some f)
  unfolding remove_directory
  remove_directory-All user id files directory there distinct granted = rw granted (
      rw there (
        refl,
        remove_one-absent id (remove_all check (is_in (some id)) files)
            (remove_all-IsDistinct (is_in (some id)) files distinct),
        remove_one-All (λ f. is_in (some id) f ≡ false) id
            (remove_all check (is_in (some id)) files) (remove_all-All (is_in (some id)) files),
        λ other f found ne outside.
            with_id-remove_one id other (remove_all check (is_in (some id)) files) ne
            ∙ with_id-remove_all (is_in (some id)) other files f found outside,
      ))
