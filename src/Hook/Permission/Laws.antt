-- ===== src/Hook/Permission/Laws.antt =====
-- Who passes the permission hooks.
use schulcloud.Base.{
  String, ◌≡◌, ◌↔◌, some, List, true, false, ok, err, forbidden, arith, truthy, any, includes,
  any_iff, includes_iff, Exists, Has, Exists-map,
}
use schulcloud.Hook.{Account, User, Context, Names, names_list}
use schulcloud.Hook.Permission.{UserService, has_any_permission, account_user_id, has_permission}

-- The user has one of the permissions.
abbrev pub HasAny : User → List String → Type 0
HasAny user names = Exists (λ name. Has user.permissions name) names

any-includes_iff :
    (user : User) (names : List String)
    → (any (includes user.permissions) names ≡ true) ↔ HasAny user names
any-includes_iff user names = (
  λ h.
      Exists-map _ _ (λ x. (includes_iff user.permissions x).0) names
        ((any_iff (includes user.permissions) names).0 h),
  λ h.
      (any_iff (includes user.permissions) names).1
        (Exists-map _ _ (λ x. (includes_iff user.permissions x).1) names h),
)

-- A request from inside passes `hasPermission` with no test.
pub has_permission-internal :
    (input : Names) (users : UserService) (c : Context)
    → truthy c.provider ≡ false
    → has_permission input users c ≡ ok c
unfolding has_permission
has_permission-internal input users c h = rw h

module _ (input : Names) (users : UserService) (c : Context) (account : Account) (user : User)
    (external : truthy c.provider ≡ true) (logged_in : c.account ≡ some account)
    (found : users account.user_id ≡ ok user) where
  has_permission-any : has_permission input users c ≡ has_any_permission (names_list input) user c
  unfolding has_permission account_user_id
  has_permission-any = ground arith

  -- A request from outside, of an account whose user is found, passes exactly when the user has
  -- one of the permissions, and is refused as forbidden exactly when the user has none.
  pub has_permission_iff :
      ((has_permission input users c ≡ ok c) ↔ HasAny user (names_list input))
      × ((has_permission input users c ≡ err forbidden) ↔ ¬ HasAny user (names_list input))
  unfolding has_any_permission
  has_permission_iff =
      rw has_permission-any (ground (arith, any-includes_iff user (names_list input)))
