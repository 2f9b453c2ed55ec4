-- ===== src/ObjectId.antt =====
-- src/helper/compare.js: ids compared by their texts. An id is the text `String(id)`, which is
-- "undefined" for a missing one.
pub mod Laws
use Prim.Native.Char.{code}
use schulcloud.Base.{
  ℕ, suc, String, Bool, false, ◌&&◌, ◌||◌, List, [], ◌∷◌, leb, nat_eq, all, length, ◌==◌,
}

abbrev pub codes : String → List ℕ
codes String.[] = []
codes (String.◌∷◌ c s) = code c ∷ codes s

abbrev is_hex : ℕ → Bool
is_hex c = leb b'0' c && leb c b'9' || leb b'a' c && leb c b'f'

-- `/^[0-9a-f]{24}$/.test(id)`
unfoldable pub is_valid : String → Bool
is_valid id = let cs = codes id in nat_eq (length cs) 24 && all is_hex cs

-- `equal(first, other)`; the tests of the server compare two ids.
unfoldable pub equal : String → String → Bool
equal first other = is_valid first && first == other
