-- ===== src/FileStorage/Laws.antt =====
-- What the operations on files keep.
use schulcloud.Base.{
  Result, ok, err, String, ◌≡◌, refl, ap, ◌∙◌, inl, inr, Option, none, some, List, [], ◌∷◌, ◌++◌,
  map, any, filter, find, Bool, true, false, not, ◌==◌, find-some, find-some_of_any, get_or, eq_iff,
  eq_refl, Bool-cases, Option-cases, ok,
}
use schulcloud.FileAccess.Team.{Right, create, Verdict}
use schulcloud.FileStorage.{
  Permission, File, Files, Directory, is_in, override_by, is_for, permission_for, overridden,
  merge_permissions, in_parent, Owners, folder_regex_check, directory_permissions, with_permissions,
  is_same_directory, directory_file, existing_or_new, or_create, create_directory,
}

permission_for-append :
    (id : String) (xs ys : List Permission)
    → permission_for id (xs ++ ys)
      ≡ (elim (permission_for id xs) [ none ↦ permission_for id ys | some p ↦ some p ])
permission_for-append id [] ys = refl
permission_for-append id (x ∷ xs) ys = elim (Bool-cases (is_for id x)) [
  | inl e ↦ rw e refl
  | inr e ↦ rw e (permission_for-append id xs ys)
]

ref_id-override_by :
    (new : Option Permission) (p : Permission) → (override_by new p).ref_id ≡ p.ref_id
ref_id-override_by none p = refl
ref_id-override_by (some new) p = refl

permission_for-overridden :
    (id : String) (commited xs : List Permission)
    → permission_for id (map (overridden commited) xs)
      ≡ (elim (permission_for id xs) [ none ↦ none | some p ↦ some (overridden commited p) ])
permission_for-overridden id commited [] = refl
permission_for-overridden id commited (x ∷ xs) =
    let kept = ap (λ r. r == id) (ref_id-override_by (permission_for x.ref_id commited) x) in
    elim (Bool-cases (is_for id x)) [
      | inl e ↦ rw e (rw (kept ∙ e) refl)
      | inr e ↦ rw e (rw (kept ∙ e) (permission_for-overridden id commited xs))
    ]

nobody :
    (id : String) (permissions : List Permission)
    → permission_for id permissions ≡ none
    → any (is_for id) permissions ≡ false
nobody id permissions h = elim (Bool-cases (any (is_for id) permissions)) [
  | inr e ↦ e
  | inl e ↦ let (p, found) = find-some_of_any (is_for id) permissions e in cc
]

permission_for-new :
    (id : String) (permissions commited : List Permission)
    → permission_for id permissions ≡ none
    → permission_for id (filter (λ c. not (any (is_for c.ref_id) permissions)) commited)
      ≡ permission_for id commited
permission_for-new id permissions [] h = refl
permission_for-new id permissions (c ∷ commited) h =
    let later = permission_for-new id permissions commited h in
    elim (Bool-cases (is_for id c)) [
      | inl e ↦
          let new : any (is_for c.ref_id) permissions ≡ false =
            rw ((eq_iff c.ref_id id).0 e) (nobody id permissions h) in
          rw new (rw e refl)
      | inr e ↦ elim (Bool-cases (any (is_for c.ref_id) permissions)) [
        | inl old ↦ rw old (rw e later)
        | inr new ↦ rw new (rw e later)
      ]
    ]

-- The rights that are sent for somebody replace those that are stored, who is not named keeps the
-- own ones, and who has none yet gets those that are sent.
pub merge_permissions-permission_for :
    (id : String) (commited permissions : List Permission)
    → permission_for id (merge_permissions commited permissions)
      ≡ (elim (permission_for id permissions) [
        | none ↦ permission_for id commited
        | some p ↦ some (override_by (permission_for id commited) p)
      ])
unfolding merge_permissions
merge_permissions-permission_for id commited permissions =
    permission_for-append id (map (overridden commited) permissions)
      (filter (λ c. not (any (is_for c.ref_id) permissions)) commited)
    ∙ elim (Option-cases (permission_for id permissions)) [
      | inl e ↦
          rw (permission_for-overridden id commited permissions)
            (rw e (permission_for-new id permissions commited e))
      | inr (p, e) ↦
          let same = (eq_iff p.ref_id id).0 (find-some (is_for id) permissions e) in
          rw (permission_for-overridden id commited permissions)
            (rw e (ap (λ r. some (override_by (permission_for r commited) p)) same))
    ]

find-append {ℓ} :
    {A : Type ℓ} (p : A → Bool) (xs ys : List A) → find p xs ≡ none → find p (xs ++ ys) ≡ find p ys
find-append p [] ys h = refl
find-append p (x ∷ xs) ys h = elim (Bool-cases (p x)) [
  | inl e ↦ let found : some x ≡ none = rw e at h in cc
  | inr e ↦ let later : find p xs ≡ none = rw e at h in rw e (find-append p xs ys later)
]

module _ (check : Right → String → String → Files → Verdict) where
  is_in-parent : (p : Option String) (f : File) → f.parent ≡ p → is_in p f ≡ true
  is_in-parent none f e = rw e refl
  is_in-parent (some p) f e = rw e (eq_refl p)

  is_same_directory-new :
      (owners : Owners) (id user : String) (d : Directory) (permissions : List Permission)
      → is_same_directory check user d (directory_file check owners id user d permissions) ≡ true
  is_same_directory-new owners id user d permissions = rw (eq_refl (get_or d.owner user)) (
      rw (is_in-parent d.parent (directory_file check owners id user d permissions) refl)
        (rw (eq_refl d.name) refl))

  or_create_again :
      (new new' : File) (user : String) (d : Directory) (files : Files) (found : Option File)
      → is_same_directory check user d new ≡ true
      → find (is_same_directory check user d) files ≡ found
      → or_create check new' user d (existing_or_new check new files found).1
        ≡ existing_or_new check new files found
  or_create_again new new' user d files (some f) is_new e = ap (existing_or_new check new' files) e
  or_create_again new new' user d files none is_new e =
      let alone : find (is_same_directory check user d) (new ∷ []) ≡ some new = rw is_new refl in
      ap (existing_or_new check new' (files ++ new ∷ []))
        (find-append (is_same_directory check user d) files (new ∷ []) e ∙ alone)

  with_permissions_again :
      (owners : Owners) (id id' user : String) (d : Directory) (files : Files)
      (made : Result (List Permission))
      → let first = with_permissions check owners id user d files made in
        in_parent check create user d.parent first.1 ≡ in_parent check create user d.parent files
        → with_permissions check owners id' user d first.1 made ≡ first
  with_permissions_again owners id id' user d files (err e) = λ same. refl
  with_permissions_again owners id id' user d files (ok permissions) =
      let new = directory_file check owners id user d permissions in
      let new' = directory_file check owners id' user d permissions in
      elim (Bool-cases (in_parent check create user d.parent files)) [
        | inr refused ↦ rw refused (λ same. rw refused refl)
        | inl granted ↦ rw granted (λ same. rw same (
            ap (λ p. (ok p.0, p.1))
              (or_create_again new new' user d files (find (is_same_directory check user d) files)
                (is_same_directory-new owners id user d permissions) refl)))
      ]

  -- A directory that is created again, with whatever new id, is the one that is there: the answer
  -- is the same and nothing is stored, as long as the right to create in the parent is what it was.
  pub create_directory_again :
      (owners : Owners) (id id' user : String) (d : Directory) (files : Files)
      → let first = create_directory check owners id user d files in
        in_parent check create user d.parent first.1 ≡ in_parent check create user d.parent files
        → create_directory check owners id' user d first.1 ≡ first
  unfolding create_directory
  create_directory_again owners id id' user d files =
      elim (Bool-cases (folder_regex_check d.name)) [
        | inl e ↦ rw e (λ same. refl)
        | inr e ↦ rw e (
            with_permissions_again owners id id' user d files (directory_permissions owners user d))
      ]
