-- ===== src/Login.antt =====
-- src/services/authentication/hooks/index.js: the hooks around the creation of an authentication.
-- The accounts are a list, as the accounts service holds them; a time is in milliseconds.
pub mod Whitelist
mod Laws
mod Tests
use schulcloud.Base.{
  ℕ, ◌+◌, ◌-◌, ◌*◌, ◌/◌, String, Option, none, some, List, [], ◌∷◌, ◌++◌, map, Bool, true, false,
  not, ◌&&◌, ◌||◌, ◌==◌, if◌then◌else◌, ltb, leb, find, truthy, includes, to_string,
}

pub record Account : Type 0 where
  pub id : String
  pub username : String
  pub user_id : Option String
  pub system_id : Option String
  pub last_tried_failed_login : Option ℕ

-- `context.data` of a login.
pub record Attempt : Type 0 where
  pub username : Option String
  pub strategy : String
  pub system_id : Option String

abbrev pub same_text : Option String → Option String → Bool
same_text none none = true
same_text (some a) (some b) = a == b
same_text _ _ = false

-- The query for a username and a system: the first account of its answer. `same_system` stands for
-- the database's comparison of an account's system with the queried one, which may be undefined.
abbrev pub is_queried :
    (Option String → Option String → Bool) → Option String → Option String → Account → Bool
is_queried same_system username system_id a =
    same_text (some a.username) username && same_system a.system_id system_id

unfoldable pub find_account :
    (Option String → Option String → Bool)
    → List Account
    → Option String
    → Option String
    → Option Account
find_account same_system accounts username system_id =
    find (is_queried same_system username system_id) accounts

abbrev pub with_time : String → ℕ → Account → Account
with_time id time a = if a.id == id then record a { last_tried_failed_login = some time } else a

-- `accounts.patch(id, { lasttriedFailedLogin: time })`
unfoldable pub patch_time : List Account → String → ℕ → List Account
patch_time accounts id time = map (with_time id time) accounts

-- The numbers of seconds in a time difference: `Math.ceil(difference / 1000)`.
abbrev pub ceil_seconds : ℕ → ℕ
ceil_seconds difference = (difference + 999) / 1000

-- `blocked` carries the seconds to wait, as the error does.
pub data Check : Type 0 where
  blocked : ℕ → Check
  passed : List Account → Check

-- `allowed` is LOGIN_BLOCK_TIME in seconds, `last` the time of the last attempt, which is in the past
-- or, when the clocks differ, in the future.
abbrev pub time_to_wait : ℕ → ℕ → ℕ → ℕ
time_to_wait allowed now last =
    if leb last now then allowed - ceil_seconds (now - last) else allowed + (last - now) / 1000

abbrev pub is_too_early : ℕ → ℕ → Option ℕ → Bool
is_too_early allowed now none = false
is_too_early allowed now (some last) = ltb now (last + allowed * 1000)

abbrev pub wait_of : ℕ → ℕ → Option ℕ → ℕ
wait_of allowed now none = 0
wait_of allowed now (some last) = time_to_wait allowed now last

module _ (same_system : Option String → Option String → Bool) (disabled : Bool) (allowed : ℕ) where
  unfoldable pub brute_force_check : ℕ → List Account → Attempt → Check
  brute_force_check now accounts attempt =
      if disabled || attempt.strategy == "jwt"
      then passed accounts
      else elim (find_account same_system accounts attempt.username attempt.system_id) [
        | none ↦ passed accounts
        | some account ↦
            if is_too_early allowed now account.last_tried_failed_login
            then blocked (wait_of allowed now account.last_tried_failed_login)
            else passed (patch_time accounts account.id now)
      ]

-- After a login that succeeded.
unfoldable pub brute_force_reset : (disabled : Bool) → List Account → String → List Account
brute_force_reset disabled accounts id = if disabled then accounts else patch_time accounts id 0

pub record Payload : Type 0 where
  pub account_id : String
  pub user_id : Option String
  pub system_id : Option String

abbrev pub truthy_option : Option String → Option String
truthy_option id = if truthy id then id else none

abbrev pub is_sso : String → Bool
is_sso strategy = includes ("moodle" ∷ "iserv" ∷ []) strategy

abbrev pub queried_system : Attempt → Option String
queried_system attempt = if attempt.strategy == "local" then none else attempt.system_id

-- `create username system` stands for the account that the accounts service creates. The result is
-- the accounts and the payload, where one is set.
unfoldable pub inject_user_id :
    (Option String → Option String → Bool)
    → (create : String → Option String → Account) → List Account
    → Attempt
    → List Account × Option Payload
inject_user_id same_system create accounts attempt =
    if not (attempt.strategy == "jwt") && truthy attempt.username
    then elim (find_account same_system accounts attempt.username (queried_system attempt)) [
      | some account ↦ (
        accounts,
        some (record {
          account_id = account.id;
          user_id = truthy_option account.user_id;
          system_id = truthy_option account.system_id;
        }),
      )
      | none ↦
          let account = create (to_string attempt.username) (queried_system attempt) in
          if is_sso attempt.strategy
          then (
            accounts ++ account ∷ [],
            some (record {
              account_id = account.id;
              user_id = none;
              system_id = truthy_option account.system_id;
            }),
          )
          else (accounts, none)
    ]
    else (accounts, none)
