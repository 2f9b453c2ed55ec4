-- ===== src/Login/Tests.antt =====
-- The theorems about the login at two accounts, and at a Redis store made of a function.
use schulcloud.Base.{
  ℕ, ◌+◌, ◌*◌, ◌≤◌, ◌<◌, suc, String, ◌≡◌, ◌≢◌, refl, Option, none, some, List, [], ◌∷◌, true,
  false, ◌==◌, if◌then◌else◌, ltb, arith, Exists, ok, get_or, eq_refl, eq_iff,
}
use schulcloud.Login.{
  same_text, Account, Attempt, find_account, blocked, passed, brute_force_check, patch_time,
  brute_force_reset, queried_system, inject_user_id,
}
use schulcloud.Login.Whitelist.{
  Claims, RedisData, Redis, Settings, get_redis_data, redis_identifier, add_jwt_to_whitelist,
  remove_jwt_from_whitelist,
}
use schulcloud.Login.Laws.{
  brute_force_check-blocked, brute_force_reset-passed, Named, inject_user_id-Named,
  add_jwt_to_whitelist-remove,
}

abbrev ann : Account
ann = record {
  id = "1";
  username = "ann";
  user_id = some "u1";
  system_id = none;
  last_tried_failed_login = some 0;
}

abbrev bob : Account
bob = record {
  id = "2";
  username = "bob";
  user_id = none;
  system_id = some "s";
  last_tried_failed_login = none;
}

abbrev accounts : List Account
accounts = ann ∷ bob ∷ []

abbrev attempt : Attempt
attempt = record { username = some "bob"; strategy = "moodle"; system_id = some "s" }

found_bob : find_account same_text accounts attempt.username attempt.system_id ≡ some bob
unfolding find_account
found_bob = refl

checked :
    brute_force_check same_text false 15 100000 accounts attempt
    ≡ passed (patch_time accounts "2" 100000)
unfolding brute_force_check find_account
checked = refl

brute_force_check-blocked_example :
    (seconds : ℕ) × (brute_force_check same_text false 15 109500
        (patch_time accounts "2" 100000)
        attempt
      ≡ blocked seconds)
    × (109500 + seconds * 1000 ≤ 115000)
    × (115000 < 109500 + suc seconds * 1000)
brute_force_check-blocked_example =
    brute_force_check-blocked same_text 15 attempt refl 100000 109500 accounts
      (patch_time accounts "2" 100000) bob found_bob checked (omega arith) (omega arith)

brute_force_reset-passed_run :
    brute_force_check same_text false 15 100001 (brute_force_reset false accounts "2") attempt
    ≡ passed (patch_time (brute_force_reset false accounts "2") "2" 100001)
brute_force_reset-passed_run =
    brute_force_reset-passed same_text 15 attempt refl 100001 accounts bob found_bob (omega arith)

abbrev create : String → Option String → Account
create username system_id = record {
  id = "3";
  username = username;
  user_id = none;
  system_id = system_id;
  last_tried_failed_login = some 0;
}

created :
    (username : String) (system_id : Option String)
    → ((create username system_id).username ≡ username)
      × (same_text (create username system_id).system_id system_id ≡ true)
created username none = (refl, refl)
created username (some s) = (refl, eq_refl s)

payload :
    inject_user_id same_text create accounts attempt
    ≡ (accounts, some (record { account_id = "2"; user_id = none; system_id = some "s" }))
unfolding inject_user_id find_account
payload = refl

inject_user_id-Named_run :
    Exists
      (Named same_text attempt.username
        (queried_system attempt)
        (record { account_id = "2"; user_id = none; system_id = some "s" }))
      accounts
inject_user_id-Named_run =
    inject_user_id-Named same_text create accounts accounts attempt
      (record { account_id = "2"; user_id = none; system_id = some "s" }) created payload

abbrev Entries : Type 0
Entries = String → Option (RedisData × ℕ)

abbrev read : ℕ → Option (RedisData × ℕ) → Option RedisData
read now none = none
read now (some (entry, ends)) = if ltb now ends then some entry else none

abbrev redis : Redis
redis = record {
  Store = Entries;
  get = λ now s key. read now (s key);
  set_ex = λ now key entry seconds s other.
      if key == other then some (entry, now + seconds) else s other;
  del = λ key s other. if key == other then none else s other;
  get-set_ex = λ now later key entry seconds s. rw (eq_refl key) refl;
  get-set_ex_other =
      λ now later key other entry seconds s distinct. ground (arith, eq_iff key other);
  get-del = λ later key s. rw (eq_refl key) refl;
  get-del_other = λ later key other s distinct. ground (arith, eq_iff key other);
}

abbrev claims : Claims
claims = record { account_id = "1"; jti = "t"; private_device = some true }

abbrev settings : Settings
settings = record { timeout = 7200; extended_timeout = some 2592000; is_extended = true }

distinct : redis_identifier claims ≢ "jwt:1:u"
distinct e =
    let (_, from) = eq_iff (redis_identifier claims) "jwt:1:u" in
    let same : false ≡ true = from e in cc

abbrev empty : Entries
empty key = none

add_jwt_to_whitelist-remove_run :
    (added : redis.Store) × (removed : redis.Store) × (add_jwt_to_whitelist
        (λ token. some claims)
        redis
        settings
        10
        "token"
        (some empty)
      ≡ ok (some added))
    × (redis.get 20 added (redis_identifier claims) ≡ (
        if ltb 20 (
          10 + (get_redis_data settings (get_or claims.private_device false)).expiration_in_seconds)
        then some (get_redis_data settings (get_or claims.private_device false))
        else none))
    × (remove_jwt_from_whitelist (λ token. some claims) redis settings "token" (some added)
        ≡ ok (some removed))
    × (redis.get 20 removed (redis_identifier claims) ≡ none)
    × (redis.get 20 added "jwt:1:u" ≡ redis.get 20 empty "jwt:1:u")
    × (redis.get 20 removed "jwt:1:u" ≡ redis.get 20 empty "jwt:1:u")
add_jwt_to_whitelist-remove_run =
    add_jwt_to_whitelist-remove (λ token. some claims) redis settings 10 20 "token" "jwt:1:u" claims
      empty refl distinct
