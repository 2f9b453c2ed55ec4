-- ===== src/UserHooks/Display.antt =====
-- userService.js: the names and the colours with which users are shown. A name is the list of its
-- UTF-16 units.
pub mod Laws
use schulcloud.Base.{
  ℕ, ◌+◌, ◌%◌, String, Option, none, some, List, [], ◌∷◌, ◌++◌, map, find, any, is_some, Bool, true,
  false, not, ◌&&◌, if◌then◌else◌, get_elem?, nat_eq,
}

abbrev pub Name : Type 0
Name = List ℕ

pub record User : Type 0 where
  pub id : Name
  pub first_name : Name
  pub last_name : Name
  pub roles : List String

abbrev pub is_empty : Name → Bool
is_empty [] = true
is_empty (c ∷ rest) = false

-- `roles.includes(role)` of two ids that the database returned, which are objects of their own and so
-- never the same.
abbrev pub includes_object : List String → String → Bool
includes_object [] role = false
includes_object (id ∷ rest) role = includes_object rest role

-- `getDisplayName`, for the ids of the roles whose users are protected.
unfoldable pub get_display_name : User → List String → Name
get_display_name user protected_roles =
    if is_some (find (includes_object user.roles) protected_roles)
    then (if not (is_empty user.last_name) then user.last_name else user.id)
    else if not (is_empty user.last_name)
    then user.first_name ++ 32 ∷ user.last_name
    else user.id

-- `charAt(0)`
abbrev pub first_unit : Name → Name
first_unit [] = []
first_unit (c ∷ rest) = c ∷ []

unfoldable pub avatar_initials : User → Name
avatar_initials user =
    if not (is_empty user.first_name) && not (is_empty user.last_name)
    then first_unit user.first_name ++ first_unit user.last_name
    else 63 ∷ []

abbrev pub colors : List String
colors = "#4a4e4d" ∷ "#0e9aa7" ∷ "#3da4ab" ∷ "#f6cd61" ∷ "#fe8a71" ∷ []

-- `colors[(initials.charCodeAt(0) + initials.charCodeAt(1)) % colors.length]`: where there is no
-- such unit, the index is not a number, and the colour is undefined.
abbrev pub color_of : Name → Option String
color_of (c ∷ d ∷ rest) = get_elem? colors ((c + d) % 5)
color_of _ = none

-- The colour that `setAvatarData` gives, where the user may have chosen one.
unfoldable pub avatar_background_color : Option String → User → Option String
avatar_background_color (some color) user = some color
avatar_background_color none user = color_of (avatar_initials user)
