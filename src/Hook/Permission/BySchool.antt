-- ===== src/Hook/Permission/BySchool.antt =====
-- Who passes `hasSchoolPermission`: the special permissions of a school, role by role.
use schulcloud.Base.{
  String, ◌≡◌, ◌↔◌, ◌⊎◌, inl, inr, Option, none, some, true, ok, err, forbidden, arith, truthy, any,
  is_ok, any_iff, Exists, Exists-map, Bool-cases, Option-cases, Result-cases, if◌then◌else◌,
}
use schulcloud.Hook.{Account, Role, User, Context, Names, one}
use schulcloud.Hook.Permission.{
  UserService, has_any_permission, account_user_id, has_permission, SchoolPermissions, school_entry,
  test_role, Fetched, populated, has_school_permission,
}

-- A role of the user grants the permission: the school sets it for the role, or says nothing of
-- it and `hasPermission` lets the request pass.
abbrev pub Grants : String → SchoolPermissions → UserService → Context → Role → Type 0
Grants permission permissions users c role =
    (school_entry permissions role.name permission ≡ some true)
    ⊎ ((school_entry permissions role.name permission ≡ none)
        × (has_permission (one permission) users c ≡ ok c))

has_permission_unchanged :
    (input : Names) (users : UserService) (c d : Context)
    → has_permission input users c ≡ ok d
    → d ≡ c
unfolding has_permission has_any_permission
has_permission_unchanged input users c d h = elim (Bool-cases (truthy c.provider)) [
  | inl e ↦ elim (Result-cases (account_user_id c.account)) [
    | inl (i, e2) ↦ elim (Result-cases (users i)) [
      | inl (u, e3) ↦ ground arith
      | inr (x, e3) ↦ ground arith
    ]
    | inr (x, e2) ↦ ground arith
  ]
  | inr e ↦ ground arith
]

test_role-ok_iff :
    (permission : String) (permissions : SchoolPermissions) (users : UserService) (c : Context)
    (role : Role)
    → (is_ok (test_role permission permissions users c role) ≡ true)
      ↔ Grants permission permissions users c role
unfolding test_role
test_role-ok_iff permission permissions users c role =
    elim (Option-cases (school_entry permissions role.name permission)) [
      | inl e ↦ elim (Result-cases (has_permission (one permission) users c)) [
        | inl (d, e2) ↦ ground (arith, has_permission_unchanged (one permission) users c d)
        | inr (x, e2) ↦ ground arith
      ]
      | inr (b, e) ↦ ground arith
    ]

module _ (permission : String) (users_model : Option String → Fetched) (users : UserService)
    (c : Context) (account : Account) (user : User) (permissions : SchoolPermissions)
    (logged_in : c.account ≡ some account) (identified : truthy account.user_id ≡ true)
    (found : users_model account.user_id ≡ populated user permissions) where
  has_school_permission-any : has_school_permission permission users_model users c ≡ (
      if any (λ role. is_ok (test_role permission permissions users c role)) user.roles
      then ok c
      else err forbidden)
  unfolding has_school_permission
  has_school_permission-any = ground arith

  any-Grants_iff :
      (any (λ role. is_ok (test_role permission permissions users c role)) user.roles ≡ true)
      ↔ Exists (Grants permission permissions users c) user.roles
  any-Grants_iff = (
    λ h.
        Exists-map _ _ (λ r. (test_role-ok_iff permission permissions users c r).0) user.roles
          ((any_iff _ user.roles).0 h),
    λ h.
        (any_iff _ user.roles).1 (
          Exists-map _ _ (λ r. (test_role-ok_iff permission permissions users c r).1) user.roles h),
  )

  -- With an account and a user that is found, the request passes exactly when one of the user's
  -- roles grants the permission; an entry of the school that takes it away from one role does not
  -- count against another role.
  pub has_school_permission_iff :
      (has_school_permission permission users_model users c ≡ ok c)
      ↔ Exists (Grants permission permissions users c) user.roles
  has_school_permission_iff = (
    λ h. any-Grants_iff.0 (ground (arith, has_school_permission-any)),
    λ h. ground (arith, has_school_permission-any, any-Grants_iff.1 h),
  )
