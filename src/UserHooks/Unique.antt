-- ===== src/UserHooks/Unique.antt =====
-- userService.js: the checks that keep the addresses of users and the names of accounts unique.
pub mod Laws
use schulcloud.Base.{
  ℕ, String, Option, none, some, List, [], ◌∷◌, map, filter, find, length, Bool, true, false, not,
  ◌&&◌, ◌||◌, ◌==◌, if◌then◌else◌, leb, nat_eq, truthy, to_string, is_some, Result, ok, err,
  bad_request, type_error, ◌>>=◌,
}
use schulcloud.ObjectId.{equal}

pub record Person : Type 0 where
  pub id : String
  pub email : String

pub record Login : Type 0 where
  pub id : String
  pub user_id : Option String
  pub username : String
  pub system_id : Option String

-- `_id: { $ne: editUserId }`, where there is such an id.
abbrev pub is_other : Option String → String → Bool
is_other edited id = not (truthy edited && to_string edited == id)

module _ (to_lower_case : String → String) where
  -- `checkUnique`: `logged_in` says whether the request has an account with a user, and `as_task`
  -- is the task of the registration.
  unfoldable pub check_unique :
      List Person → Bool → Option String → Option String → Result (Unit {0})
  check_unique users logged_in as_task none = err bad_request
  check_unique users logged_in as_task (some email) =
      let found = length (filter (λ u. u.email == to_lower_case email) users) in
      if leb 2 found
      then err bad_request
      else if nat_eq found 0
      then ok tt
      else if logged_in || not (is_some as_task) || to_string as_task == "student"
      then err bad_request
      else ok tt

  -- `checkUniqueEmail`; `$ne` holds for an account without a user too.
  unfoldable pub check_unique_email :
      List Person → List Login → Option String → Option String → Result (Unit {0})
  check_unique_email users accounts edited email =
      if not (truthy email)
      then ok tt
      else (let name = to_lower_case (to_string email) in
          let same_users = filter (λ u. u.email == name && is_other edited u.id) users in
          let same_accounts =
            filter
              (λ a.
                a.username == name
                && elim (a.user_id) [ none ↦ true | some id ↦ is_other edited id ])
              accounts in
          if nat_eq (length same_users) 0 && nat_eq (length same_accounts) 0
          then ok tt
          else err bad_request)

  -- `checkUniqueAccount`, which throws where the address is undefined.
  unfoldable pub check_unique_account : List Login → Option String → Result (Unit {0})
  check_unique_account accounts none = err type_error
  check_unique_account accounts (some email) =
      if nat_eq (length (filter (λ a. a.username == to_lower_case email) accounts)) 0
      then ok tt
      else err bad_request

abbrev pub is_of : Option String → Login → Bool
is_of id account = elim (account.user_id) [ none ↦ false | some user ↦ user == to_string id ]

-- The account of the request, if it is that of the user who is changed, or else the first one of
-- that user.
abbrev pub account_of : Option Login → List Login → Option String → Option Login
account_of none accounts id = find (is_of id) accounts
account_of (some account) accounts id =
    if equal (to_string id) (to_string account.user_id)
    then some account
    else find (is_of id) accounts

abbrev pub set_username : String → String → List Login → List Login
set_username id name accounts =
    map
      (λ (a : Login).
        let renamed : Login = record a { username = name } in if a.id == id then renamed else a)
      accounts

-- `updateAccountUsername`: the address that the data is left with, and the accounts. `stored` is
-- the name that the service of accounts stores for an address, or its refusal.
unfoldable pub update_account_username :
    (String → Result String)
    → Option Login
    → List Login
    → Option String
    → Option String
    → Result (Option String × List Login)
update_account_username stored current accounts id email =
    if not (truthy email)
    then ok (email, accounts)
    else if not (truthy id)
    then err bad_request
    else elim (account_of current accounts id) [
      | none ↦ ok (email, accounts)
      | some account ↦
          if truthy account.system_id
          then ok (none, accounts)
          else elim (stored (to_string email)) [
            | err e ↦ err bad_request
            | ok name ↦ ok (email, set_username account.id name accounts)
          ]
    ]
