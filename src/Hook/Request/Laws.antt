-- ===== src/Hook/Request/Laws.antt =====
-- What the rewriting hooks do to a request.
use schulcloud.Base.{◌≡◌, List, [], ◌∷◌, true, ok, err, arith, truthy, not_found}
use schulcloud.Hook.Request.{Call, enable_query, enable_query_after}

module _ {R : Type 0} where
  -- An after hook undoes `enableQuery`: the request has its id again, and of the records that the
  -- query found the first is the result. A query that found none is answered by not found.
  pub enable_query_roundtrip :
      (call : Call R) (found : List R)
      → truthy call.id ≡ true
      → enable_query_after (record (enable_query call) { result = found }) ≡ elim found [
        | [] ↦ err not_found
        | r ∷ _ ↦ ok (record call { query_id = call.id; result = r ∷ [] })
      ]
  unfolding enable_query enable_query_after
  enable_query_roundtrip call [] t = ground arith
  enable_query_roundtrip call (r ∷ rs) t = ground arith
