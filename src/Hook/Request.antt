-- ===== src/Hook/Request.antt =====
-- src/hooks/index.js: the small hooks that rewrite the context of a request.
pub mod Laws
use schulcloud.Base.{
  String, Option, none, some, List, [], ◌∷◌, Bool, true, false, not, ◌&&◌, ◌||◌, ◌==◌,
  if◌then◌else◌, truthy, includes, is_some, Result, ok, err, not_found, bad_request, forbidden,
  ◌>>=◌, ◌>>◌, throw_if,
}

-- The fields that these hooks touch. `R` is the type of a record of the service.
pub record Call {ℓ} (R : Type ℓ) : Type ℓ where
  pub provider : Option String
  pub method : String
  pub id : Option String
  pub query_id : Option String
  pub query_limit : Option String
  pub paginated : Bool
  pub account_user_id : Option String
  pub payload_user_id : Option String
  pub data_user_id : Option String
  pub result : List R
  pub only_status : Bool

module _ {ℓ} {R : Type ℓ} where
  -- `ifNotLocal`: a call with no provider at all passes without the hook.
  unfoldable pub if_not_local : (Call R → Result (Call R)) → Call R → Result (Call R)
  if_not_local hook call = if is_some call.provider then hook call else ok call

  -- `removeResponse`; undefined options stand for `['get', 'find']`, and `false` for none.
  unfoldable pub remove_response : Option (List String) → Call R → Call R
  remove_response options call =
      if not (truthy call.provider)
      then call
      else if includes (elim options [ none ↦ "get" ∷ "find" ∷ [] | some l ↦ l ]) call.method
      then call
      else record call { result = []; only_status = true }

  unfoldable pub map_pagination_query : Call R → Call R
  map_pagination_query call = elim (call.query_limit) [
    | none ↦ call
    | some limit ↦
        if limit == "-1" then record call { paginated = false; query_limit = none } else call
  ]

  -- `injectUserId` for internal calls.
  unfoldable pub inject_user_id : Call R → Call R
  inject_user_id call =
      if not (is_some call.provider) && truthy call.data_user_id
      then record call {
        account_user_id = call.data_user_id;
        payload_user_id = call.data_user_id;
        data_user_id = none;
      }
      else call

  unfoldable pub enable_query : Call R → Call R
  enable_query call = if truthy call.id then record call { query_id = call.id; id = none } else call

  unfoldable pub enable_query_after : Call R → Result (Call R)
  enable_query_after call = if not (truthy call.query_id) then ok call else elim (call.result) [
    | [] ↦ err not_found
    | r ∷ _ ↦ ok (record call { id = call.query_id; result = r ∷ [] })
  ]
