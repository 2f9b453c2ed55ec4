-- ===== src/FileStorage/Moves.antt =====
-- What a file that is moved keeps.
use schulcloud.Base.{
  String, ◌≡◌, ◌≢◌, refl, sym, ap, ◌∙◌, inl, inr, Option, none, some, [], ◌∷◌, true, false, ◌==◌,
  if◌then◌else◌, eq_iff, Bool-cases, Option-cases,
}
use schulcloud.FileAccess.Team.{Right, Verdict}
use schulcloud.FileStorage.{
  File, Files, has_id, with_id, update_file, is_in, Teams, destination, may_move, move_file,
}

-- A file in a directory belongs to whom the directory belongs to.
abbrev pub IsOwned : Files → Type 0
IsOwned files =
    (id p : String) (f d : File)
    → with_id id files ≡ some f
    → f.parent ≡ some p
    → with_id p files ≡ some d
    → (d.owner ≡ f.owner) × (d.ref_owner_model ≡ f.ref_owner_model)

-- Nothing is in it.
abbrev pub IsLeaf : String → Files → Type 0
IsLeaf id files =
    (other : String) (f : File) → with_id other files ≡ some f → is_in (some id) f ≡ false

-- Another id is not the one of the file.
pub other_id :
    (id other : String) (f : File) → other ≢ id → has_id id f ≡ true → has_id other f ≡ false
other_id id other f ne e = elim (Bool-cases (has_id other f)) [
  | inr e' ↦ e'
  | inl e' ↦ absurd (ne (sym ((eq_iff f.id other).0 e') ∙ (eq_iff f.id id).0 e))
]

update_file-other :
    (id : String) (change : File → File) (other : String) (files : Files)
    → ((f : File) → (change f).id ≡ f.id)
    → other ≢ id
    → with_id other (update_file id change files) ≡ with_id other files
unfolding update_file
update_file-other id change other [] keeps ne = refl
update_file-other id change other (f ∷ rest) keeps ne = elim (Bool-cases (has_id id f)) [
  | inl e ↦
      let skipped = other_id id other f ne e in
      let moved : has_id other (change f) ≡ false = rw (keeps f) skipped in
      rw e (rw skipped (rw moved refl))
  | inr e ↦ rw e (
      ap (λ o. if has_id other f then some f else o)
        (update_file-other id change other rest keeps ne))
]

update_file-same :
    (id : String) (change : File → File) (files : Files) (f : File)
    → ((f : File) → (change f).id ≡ f.id)
    → with_id id files ≡ some f
    → with_id id (update_file id change files) ≡ some (change f)
unfolding update_file
update_file-same id change [] f keeps h = cc
update_file-same id change (g ∷ rest) f keeps h = elim (Bool-cases (has_id id g)) [
  | inl e ↦
      let found : has_id id (change g) ≡ true = rw (keeps g) e in
      let same : some g ≡ some f = rw e at h in
      rw e (rw found (ap (λ o. elim o [ none ↦ none | some x ↦ some (change x) ]) same))
  | inr e ↦
      let later : with_id id rest ≡ some f = rw e at h in
      rw e (rw e (update_file-same id change rest f keeps later))
]

update_file-none :
    (id : String) (change : File → File) (files : Files)
    → with_id id files ≡ none
    → with_id id (update_file id change files) ≡ none
unfolding update_file
update_file-none id change [] h = refl
update_file-none id change (g ∷ rest) h = elim (Bool-cases (has_id id g)) [
  | inl e ↦ let found : some g ≡ none = rw e at h in cc
  | inr e ↦
      let later : with_id id rest ≡ none = rw e at h in
      rw e (rw e (update_file-none id change rest later))
]

some-none {ℓ} : {A : Type ℓ} {o : Option A} {x : A} → o ≡ some x → o ≡ none → ⊥
some-none e e' = cc

pub some-injective {ℓ} : {A : Type ℓ} {x y : A} → some x ≡ some y → x ≡ y
some-injective e = cc

-- In a store where nothing is in the file, the parent of another file is not that file.
parent_of_other :
    (id p : String) (f : File) → is_in (some id) f ≡ false → f.parent ≡ some p → p ≢ id
parent_of_other id p f h e same =
    let outside : (p == id) ≡ false = rw e at h in
    let inside : (p == id) ≡ true = (eq_iff p id).1 same in cc

module _ (id : String) (change : File → File) (keeps : (f : File) → (change f).id ≡ f.id) where
  update_file-IsOwned :
      (files : Files)
      → IsLeaf id files
      → ((f : File) → (change f).parent ≢ some id)
      → ((f d : File) (p : String)
          → with_id id files ≡ some f
          → (change f).parent ≡ some p
          → with_id p files ≡ some d
          → (d.owner ≡ (change f).owner) × (d.ref_owner_model ≡ (change f).ref_owner_model))
      → IsOwned files
      → IsOwned (update_file id change files)
  update_file-IsOwned files leaf outside fits owned x p f d found in_p is_d =
      elim (Bool-cases (x == id)) [
        | inl e ↦
            let same = (eq_iff x id).0 e in
            elim (Option-cases (with_id id files)) [
              | inl missing ↦
                  let nothing = update_file-none id change files missing in
                  absurd (some-none (rw same at found) nothing)
              | inr (g, there) ↦
                  let is_f : change g ≡ f =
                    some-injective
                      (sym (update_file-same id change files g keeps there) ∙ (rw same at found)) in
                  let to_p : (change g).parent ≡ some p = rw is_f in_p in
                  let other : p ≢ id = λ at_id. outside g (to_p ∙ ap some at_id) in
                  rw (← is_f) (
                    fits g d p there to_p
                      (sym (update_file-other id change p files keeps other) ∙ is_d))
            ]
        | inr e ↦
            let ne : x ≢ id = λ same. (let yes = (eq_iff x id).1 same in cc) in
            let old : with_id x files ≡ some f =
              sym (update_file-other id change x files keeps ne) ∙ found in
            let other = parent_of_other id p f (leaf x f old) in_p in
            owned x p f d old in_p (sym (update_file-other id change p files keeps other) ∙ is_d)
      ]

module _ (check : Right → String → String → Files → Verdict) where
  destination-keeps :
      (at : Option File) (user parent : String) (teams : Teams) (f : File)
      → (destination check at user parent teams f).id ≡ f.id
  destination-keeps (some d) user parent teams f = refl
  destination-keeps none user parent teams f = elim (Bool-cases (parent == user)) [
    | inl e ↦ rw e refl
    | inr e ↦ rw e refl
  ]

  destination-top :
      (user parent : String) (teams : Teams) (f : File)
      → (destination check none user parent teams f).parent ≡ none
  destination-top user parent teams f = elim (Bool-cases (parent == user)) [
    | inl e ↦ rw e refl
    | inr e ↦ rw e refl
  ]

  moved_elsewhere :
      (at : Option File) (id user parent : String) (teams : Teams) (f : File)
      → parent ≢ id
      → (destination check at user parent teams f).parent ≢ some id
  moved_elsewhere (some d) id user parent teams f ne e = ne (some-injective e)
  moved_elsewhere none id user parent teams f ne e =
      some-none e (destination-top user parent teams f)

  destination-fits :
      (at : Option File) (user parent : String) (teams : Teams) (files : Files) (f d : File)
      (p : String)
      → with_id parent files ≡ at
      → (destination check at user parent teams f).parent ≡ some p
      → with_id p files ≡ some d
      → (d.owner ≡ (destination check at user parent teams f).owner)
        × (d.ref_owner_model ≡ (destination check at user parent teams f).ref_owner_model)
  destination-fits (some directory) user parent teams files f d p there to is_d =
      let same : directory ≡ d =
        some-injective (sym there ∙ ap (λ x. with_id x files) (some-injective to) ∙ is_d) in
      rw same (refl, refl)
  destination-fits none user parent teams files f d p there to is_d =
      absurd (some-none to (destination-top user parent teams f))

  -- Where nothing lies in the file that is moved, and it is not moved into itself, every file in a
  -- directory still belongs to whom the directory belongs to.
  pub move_file-IsOwned :
      (user id parent : String) (teams : Teams) (files : Files)
      → IsLeaf id files
      → parent ≢ id
      → IsOwned files
      → IsOwned ((move_file check user id parent teams files).1)
  unfolding move_file
  move_file-IsOwned user id parent teams files leaf ne owned =
      elim (Bool-cases (may_move check user parent teams files)) [
        | inr e ↦ rw e owned
        | inl e ↦
            let at = with_id parent files in
            rw e (
              update_file-IsOwned id (destination check at user parent teams)
                (destination-keeps at user parent teams) files leaf
                (λ f. moved_elsewhere at id user parent teams f ne)
                (λ f d p found to is_d.
                  destination-fits at user parent teams files f d p refl to is_d)
                owned)
      ]
