-- ===== src/Hook/Roles/Laws.antt =====
-- What the functions that ask for a user's roles answer.
use schulcloud.Base.{
  String, ◌≡◌, refl, Option, List, [], ◌∷◌, any, filter, length, Bool, false, ltb, arith, ok,
}
use schulcloud.Hook.{User}
use schulcloud.Hook.Roles.{is_named, or_blank, Services, has_role, has_role_no_hook}

-- `filter(…).length > 0` is `some(…)`.
pub filter-any {ℓ} :
    {A : Type ℓ} (p : A → Bool) (xs : List A) → ltb 0 (length (filter p xs)) ≡ any p xs
filter-any p [] = refl
filter-any p (x ∷ xs) = ground (arith, filter-any p xs)

-- Where the two services answer with the same user, so do the two ways to ask for a role.
pub has_role_no_hook-has_role :
    (services : Services) (user_id : Option String) (role : String) (user : User)
    → services.get_user (or_blank user_id) ≡ ok user
    → services.find_users (or_blank user_id) ≡ ok (user ∷ [])
    → has_role_no_hook services user_id role false ≡ has_role services user_id role
unfolding has_role has_role_no_hook
has_role_no_hook-has_role services user_id role user g f =
    rw (g, f, filter-any (is_named role) user.roles) refl
