-- ===== src/Login/Laws.antt =====
-- What the login hooks promise: a second attempt has to wait, a login ends the wait, the payload is
-- of the account that logs in, and a token is on the whitelist until it expires or is removed.
use schulcloud.Base.{
  ℕ, suc, ◌+◌, ◌*◌, ◌≤◌, ◌<◌, String, ◌≡◌, ◌≢◌, refl, sym, ap, ◌∙◌, inl, inr, Option, none, some,
  List, [], ◌∷◌, ◌++◌, Bool, true, false, not, ◌&&◌, ◌==◌, arith, if◌then◌else◌, ltb, find, truthy,
  to_string, Bool-cases, Option-cases, Exists, eq_iff, eq_refl, ok, get_or,
}
use schulcloud.Login.{
  Account, Attempt, same_text, is_queried, find_account, with_time, patch_time, blocked, passed,
  time_to_wait, is_too_early, wait_of, brute_force_check, brute_force_reset, Payload, is_sso,
  queried_system, inject_user_id,
}
use schulcloud.Login.Whitelist.{
  Claims, Redis, Settings, get_redis_data, redis_identifier, extract_data_from_jwt,
  add_jwt_to_whitelist, remove_jwt_from_whitelist,
}

find_account-patch_time :
    (same_system : Option String → Option String → Bool) (accounts : List Account)
    (username system_id : Option String) (id : String) (time : ℕ) (account : Account)
    → find_account same_system accounts username system_id ≡ some account
    → find_account same_system (patch_time accounts id time) username system_id
      ≡ some (with_time id time account)
unfolding find_account patch_time
find_account-patch_time same_system [] username system_id id time account h = absurd (ground arith)
find_account-patch_time same_system (a ∷ accounts) username system_id id time account h =
    elim (Bool-cases (a.id == id)) [
      | inl e ↦ elim (Bool-cases (is_queried same_system username system_id a)) [
        | inl q ↦ ground arith
        | inr q ↦
            ground (
              arith,
              find_account-patch_time same_system accounts username system_id id time account,
            )
      ]
      | inr e ↦ elim (Bool-cases (is_queried same_system username system_id a)) [
        | inl q ↦ ground arith
        | inr q ↦
            ground (
              arith,
              find_account-patch_time same_system accounts username system_id id time account,
            )
      ]
    ]

module _ (same_system : Option String → Option String → Bool) (allowed : ℕ) (attempt : Attempt)
    (not_jwt : (attempt.strategy == "jwt") ≡ false) where
  checked-patch_time :
      (now : ℕ) (accounts next : List Account) (account : Account)
      → find_account same_system accounts attempt.username attempt.system_id ≡ some account
      → brute_force_check same_system false allowed now accounts attempt ≡ passed next
      → next ≡ patch_time accounts account.id now
  unfolding brute_force_check
  checked-patch_time now accounts next account found h = ground arith

  time_to_wait-ends :
      (now last : ℕ)
      → last ≤ now
      → now < last + allowed * 1000
      → (now + time_to_wait allowed now last * 1000 ≤ last + allowed * 1000)
        × (last + allowed * 1000 < now + suc (time_to_wait allowed now last) * 1000)
  time_to_wait-ends now last past early = ground arith

  brute_force_check-found :
      (now : ℕ) (accounts : List Account) (account : Account)
      → find_account same_system accounts attempt.username attempt.system_id ≡ some account
      → brute_force_check same_system false allowed now accounts attempt ≡ (
          if is_too_early allowed now account.last_tried_failed_login
          then blocked (wait_of allowed now account.last_tried_failed_login)
          else passed (patch_time accounts account.id now))
  unfolding brute_force_check
  brute_force_check-found now accounts account found = ground arith

  with_time_self :
      (account : Account) (time : ℕ)
      → with_time account.id time account ≡ record account { last_tried_failed_login = some time }
  with_time_self account time = rw (eq_refl account.id) refl

  found_after :
      (time : ℕ) (accounts : List Account) (account : Account)
      → find_account same_system accounts attempt.username attempt.system_id ≡ some account
      → find_account same_system
          (patch_time accounts account.id time)
          attempt.username
          attempt.system_id
        ≡ some (record account { last_tried_failed_login = some time })
  found_after time accounts account found =
      find_account-patch_time same_system accounts attempt.username attempt.system_id account.id
        time account found
      ∙ ap some (with_time_self account time)

  -- After an attempt at an account went through the check, another one within the block time is
  -- refused; the seconds to wait that it is told are those that are left, rounded down.
  pub brute_force_check-blocked :
      (now later : ℕ) (accounts next : List Account) (account : Account)
      → find_account same_system accounts attempt.username attempt.system_id ≡ some account
      → brute_force_check same_system false allowed now accounts attempt ≡ passed next
      → now ≤ later
      → later < now + allowed * 1000
      → (seconds : ℕ) × (brute_force_check same_system false allowed later next attempt
          ≡ blocked seconds)
        × (later + seconds * 1000 ≤ now + allowed * 1000)
        × (now + allowed * 1000 < later + suc seconds * 1000)
  brute_force_check-blocked now later accounts next account found h order early =
      let (least, most) = time_to_wait-ends later now order early in
      let after : find_account same_system next attempt.username attempt.system_id
          ≡ some (record account { last_tried_failed_login = some now }) =
        rw (checked-patch_time now accounts next account found h)
          (found_after now accounts account found) in
      (
        time_to_wait allowed later now,
        brute_force_check-found later next (record account { last_tried_failed_login = some now })
              after
            ∙ ground arith,
        least,
        most,
      )

  -- A login that succeeded takes the block away: the next attempt at the account is let through, at
  -- any time after the block time from the origin of the clock.
  pub brute_force_reset-passed :
      (now : ℕ) (accounts : List Account) (account : Account)
      → find_account same_system accounts attempt.username attempt.system_id ≡ some account
      → allowed * 1000 ≤ now
      → brute_force_check same_system false allowed now
          (brute_force_reset false accounts account.id)
          attempt
        ≡ passed (patch_time (brute_force_reset false accounts account.id) account.id now)
  unfolding brute_force_check brute_force_reset
  brute_force_reset-passed now accounts account found late =
      brute_force_check-found now (patch_time accounts account.id 0)
        (record account { last_tried_failed_login = some 0 }) (found_after 0 accounts account found)
      ∙ ground arith

abbrev pub Named :
    (Option String → Option String → Bool)
    → Option String
    → Option String
    → Payload
    → Account
    → Type 0
Named same_system username system_id payload a =
    (a.id ≡ payload.account_id)
    × (same_text (some a.username) username ≡ true)
    × (same_system a.system_id system_id ≡ true)

same_text-to_string :
    (u : Option String) (s : String)
    → truthy u ≡ true
    → s ≡ to_string u
    → same_text (some s) u ≡ true
same_text-to_string none s t e = cc
same_text-to_string (some u) s t e = ground (arith, eq_iff s u)

find-Exists :
    (p : Account → Bool) (accounts : List Account) (account : Account)
    → find p accounts ≡ some account
    → Exists (λ a. (a ≡ account) × (p a ≡ true)) accounts
find-Exists p [] account h = absurd (ground arith)
find-Exists p (a ∷ accounts) account h = elim (Bool-cases (p a)) [
  | inl e ↦ inl (ground arith, e)
  | inr e ↦ inr (find-Exists p accounts account (ground arith))
]

Exists-last : (P : Account → Type 0) (l : List Account) (a : Account) → P a → Exists P (l ++ a ∷ [])
Exists-last P [] a h = inl h
Exists-last P (b ∷ l) a h = inr (Exists-last P l a h)

Exists-Named :
    (same_system : Option String → Option String → Bool) (username system_id : Option String)
    (payload : Payload) (account : Account) (accounts : List Account)
    → account.id ≡ payload.account_id
    → Exists (λ a. (a ≡ account) × (is_queried same_system username system_id a ≡ true)) accounts
    → Exists (Named same_system username system_id payload) accounts
Exists-Named same_system username system_id payload account [] same h = h
Exists-Named same_system username system_id payload account (a ∷ accounts) same (inl (e, q)) =
    inl (ap (λ b. b.id) e ∙ same, ground arith, ground arith)
Exists-Named same_system username system_id payload account (a ∷ accounts) same (inr h) =
    inr (Exists-Named same_system username system_id payload account accounts same h)

-- A payload that a login gets names an account that has the username and the system of the request,
-- where the accounts service creates an account with what it is asked for.
pub inject_user_id-Named :
    (same_system : Option String → Option String → Bool) (create : String → Option String → Account)
    (accounts next : List Account) (attempt : Attempt) (payload : Payload)
    → ((username : String) (system_id : Option String)
        → ((create username system_id).username ≡ username)
          × (same_system (create username system_id).system_id system_id ≡ true))
    → inject_user_id same_system create accounts attempt ≡ (next, some payload)
    → Exists (Named same_system attempt.username (queried_system attempt) payload) next
unfolding inject_user_id find_account
inject_user_id-Named same_system create accounts next attempt payload created h =
    elim (Bool-cases (not (attempt.strategy == "jwt") && truthy attempt.username)) [
      | inr skipped ↦ absurd (ground arith)
      | inl asked ↦
          elim (Option-cases
            (find_account same_system accounts attempt.username (queried_system attempt))) [
              | inr (account, found) ↦
                  let same : next ≡ accounts = ground arith in
                  rw same (
                    Exists-Named same_system attempt.username (queried_system attempt) payload
                      account accounts (ground arith)
                      (find-Exists
                        (is_queried same_system attempt.username (queried_system attempt)) accounts
                        account found))
              | inl missing ↦
                  let account = create (to_string attempt.username) (queried_system attempt) in
                  let (name, system) =
                    created (to_string attempt.username) (queried_system attempt) in
                  elim (Bool-cases (is_sso attempt.strategy)) [
                    | inr other ↦ absurd (ground arith)
                    | inl sso ↦
                        let same : next ≡ accounts ++ account ∷ [] = ground arith in
                        rw same (
                          Exists-last
                            (Named same_system attempt.username (queried_system attempt) payload)
                            accounts account
                            (
                              ground arith,
                              same_text-to_string attempt.username account.username (ground arith)
                                  name,
                              system,
                            ))
                  ]
            ]
    ]

module _ (decode : String → Option Claims) (redis : Redis) (settings : Settings) where
  -- A token that was added to the whitelist is there, with the data of its device, until it expires
  -- and no longer; once removed it is not there at any time; and what the whitelist holds of
  -- another token stays as it was.
  pub add_jwt_to_whitelist-remove :
      (now later : ℕ) (token other : String) (claims : Claims) (store : redis.Store)
      → decode token ≡ some claims
      → redis_identifier claims ≢ other
      → (added : redis.Store) × (removed : redis.Store) × (add_jwt_to_whitelist decode redis
            settings now token
            (some store)
          ≡ ok (some added))
        × (redis.get later added (redis_identifier claims) ≡ (
            if ltb later (
              now
              + (get_redis_data settings
                  (get_or claims.private_device false)).expiration_in_seconds)
            then some (get_redis_data settings (get_or claims.private_device false))
            else none))
        × (remove_jwt_from_whitelist decode redis settings token (some added) ≡ ok (some removed))
        × (redis.get later removed (redis_identifier claims) ≡ none)
        × (redis.get later added other ≡ redis.get later store other)
        × (redis.get later removed other ≡ redis.get later store other)
  unfolding add_jwt_to_whitelist remove_jwt_from_whitelist extract_data_from_jwt
  add_jwt_to_whitelist-remove now later token other claims store decoded distinct =
      let entry = get_redis_data settings (get_or claims.private_device false) in
      let key = redis_identifier claims in
      let added = redis.set_ex now key entry entry.expiration_in_seconds store in
      let kept =
        redis.get-set_ex_other now later key other entry entry.expiration_in_seconds store
          distinct in
      (
        added,
        redis.del key added,
        ground arith,
        sym (redis.get-set_ex now later key entry entry.expiration_in_seconds store),
        ground arith,
        redis.get-del later key added,
        kept,
        redis.get-del_other later key other added distinct ∙ kept,
      )
