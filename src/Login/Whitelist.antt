-- ===== src/Login/Whitelist.antt =====
-- The whitelist of tokens in src/services/authentication/hooks/index.js and src/utils/redis.js. The
-- Redis store and the decoder of tokens are parameters.
use schulcloud.Base.{
  ℕ, ◌+◌, ltb, String, ◌≡◌, ◌≢◌, Option, none, some, Bool, true, false, ◌&&◌, if◌then◌else◌,
  is_some, get_or, Result, ok, err, bad_request, ◌>>=◌,
}
use Prim.Native.String.{◌++◌}

-- What `jsonwebtoken.decode` reads from a token.
pub record Claims : Type 0 where
  pub account_id : String
  pub jti : String
  pub private_device : Option Bool

pub record RedisData : Type 0 where
  pub ip : String
  pub browser : String
  pub device : String
  pub private_device : Bool
  pub expiration_in_seconds : ℕ

-- Redis: a command at a time in seconds. SET with EX keeps a value for so many seconds, and DEL
-- drops it.
pub record Redis : Type 1 where
  pub Store : Type 0
  pub get : ℕ → Store → String → Option RedisData
  pub set_ex : ℕ → String → RedisData → ℕ → Store → Store
  pub del : String → Store → Store
  pub get-set_ex :
      (now later : ℕ) (key : String) (data_ : RedisData) (seconds : ℕ) (s : Store)
      → (if ltb later (now + seconds) then some data_ else none)
        ≡ get later (set_ex now key data_ seconds s) key
  pub get-set_ex_other :
      (now later : ℕ) (key other : String) (data_ : RedisData) (seconds : ℕ) (s : Store)
      → key ≢ other
      → get later (set_ex now key data_ seconds s) other ≡ get later s other
  pub get-del : (later : ℕ) (key : String) (s : Store) → get later (del key s) key ≡ none
  pub get-del_other :
      (later : ℕ) (key other : String) (s : Store)
      → key ≢ other
      → get later (del key s) other ≡ get later s other

-- JWT_TIMEOUT_SECONDS, JWT_EXTENDED_TIMEOUT_SECONDS and the feature that turns the latter on.
pub record Settings : Type 0 where
  pub timeout : ℕ
  pub extended_timeout : Option ℕ
  pub is_extended : Bool

unfoldable pub get_redis_data : Settings → Bool → RedisData
get_redis_data settings private_device = record {
  ip = "NONE";
  browser = "NONE";
  device = "NONE";
  private_device = private_device;
  expiration_in_seconds =
      if settings.is_extended && is_some settings.extended_timeout && private_device
      then get_or settings.extended_timeout settings.timeout
      else settings.timeout;
}

abbrev pub redis_identifier : Claims → String
redis_identifier claims = "jwt:" ++ claims.account_id ++ ":" ++ claims.jti

-- `decode token` stands for `jwt.decode(token.replace('Bearer ', ''))`.
module _ (decode : String → Option Claims) where
  -- A token without a claim for the device is not of a private one.
  unfoldable pub extract_data_from_jwt : String → Result (String × Bool)
  extract_data_from_jwt token = elim (decode token) [
    | none ↦ err bad_request
    | some claims ↦ ok (redis_identifier claims, get_or claims.private_device false)
  ]

  module _ (redis : Redis) (settings : Settings) where
    -- `none` is a server without a Redis connection.
    unfoldable pub add_jwt_to_whitelist :
        ℕ → String → Option redis.Store → Result (Option redis.Store)
    add_jwt_to_whitelist now token none = ok none
    add_jwt_to_whitelist now token (some store) = do
      (key, private_device) ← extract_data_from_jwt token
      let entry = get_redis_data settings private_device
      ok (some (redis.set_ex now key entry entry.expiration_in_seconds store))

    unfoldable pub remove_jwt_from_whitelist :
        String → Option redis.Store → Result (Option redis.Store)
    remove_jwt_from_whitelist token none = ok none
    remove_jwt_from_whitelist token (some store) = do
      (key, private_device) ← extract_data_from_jwt token
      ok (some (redis.del key store))

-- `context.params.jwt.privateDevice` after the hook, from its value before, the feature, and the
-- field of the request.
unfoldable pub increase_jwt_timeout_for_private_devices :
    Bool → Option Bool → Option Bool → Option Bool
increase_jwt_timeout_for_private_devices is_extended requested set_before =
    if is_extended && get_or requested false then some true else set_before
