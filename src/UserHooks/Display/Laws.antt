-- ===== src/UserHooks/Display/Laws.antt =====
-- What is shown of a user.
use schulcloud.Base.{
  ℕ, zero, suc, ◌+◌, ◌%◌, ◌<◌, String, ◌≡◌, refl, none, some, List, [], ◌∷◌, ◌++◌, find, false, not,
  ◌&&◌, get_elem?, arith, Has, length, ◌⊎◌, inl, inr,
}
use schulcloud.UserHooks.Display.{
  Name, User, is_empty, includes_object, get_display_name, first_unit, avatar_initials, colors,
  color_of, avatar_background_color,
}

none_included : (ids : List String) (role : String) → includes_object ids role ≡ false
none_included [] role = refl
none_included (id ∷ rest) role = none_included rest role

none_protected :
    (ids protected_roles : List String) → find (includes_object ids) protected_roles ≡ none
none_protected ids [] = refl
none_protected ids (r ∷ rest) = rw (none_included ids r) (none_protected ids rest)

-- Whatever roles are protected, the first name of a user with a last name is shown.
pub get_display_name_full :
    (user : User) (protected_roles : List String)
    → is_empty user.last_name ≡ false
    → get_display_name user protected_roles ≡ user.first_name ++ 32 ∷ user.last_name
unfolding get_display_name
get_display_name_full user protected_roles h =
    rw (none_protected user.roles protected_roles, h) refl

get_elem?-Has :
    (xs : List String) (i : ℕ) → i < length xs → (x : String) × (get_elem? xs i ≡ some x) × Has xs x
get_elem?-Has [] i h = absurd (omega arith)
get_elem?-Has (x ∷ xs) zero h = (x, refl, inl refl)
get_elem?-Has (x ∷ xs) (suc i) h = let (y, e, k) = get_elem?-Has xs i (omega arith) in (y, e, inr k)

two_units :
    (a b : ℕ) (xs ys : Name)
    → (x : String) × (color_of (first_unit (a ∷ xs) ++ first_unit (b ∷ ys)) ≡ some x) × Has colors x
two_units a b xs ys = get_elem?-Has colors ((a + b) % 5) (omega arith)

-- A user who chose no colour gets one of the five exactly if both names are there, and none else.
pub avatar_background_color_names :
    (user : User)
    → ((is_empty user.first_name ≡ false)
        × (is_empty user.last_name ≡ false)
        × ((x : String) × (avatar_background_color none user ≡ some x) × Has colors x))
      ⊎ ((not (is_empty user.first_name) && not (is_empty user.last_name)) ≡ false)
        × (avatar_background_color none user ≡ none)
unfolding avatar_background_color avatar_initials
avatar_background_color_names user = color_names user.first_name user.last_name refl refl
  where
    color_names :
        (f l : Name)
        → user.first_name ≡ f
        → user.last_name ≡ l
        → ((is_empty user.first_name ≡ false)
            × (is_empty user.last_name ≡ false)
            × ((x : String) × (avatar_background_color none user ≡ some x) × Has colors x))
          ⊎ ((not (is_empty user.first_name) && not (is_empty user.last_name)) ≡ false)
            × (avatar_background_color none user ≡ none)
    color_names [] l f g = inr (rw f refl, rw f refl)
    color_names (a ∷ xs) [] f g = inr (rw (f, g) refl, rw (f, g) refl)
    color_names (a ∷ xs) (b ∷ ys) f g = inl (rw f refl, rw g refl, rw (f, g) (two_units a b xs ys))
