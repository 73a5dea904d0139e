-- ===== src/Tests/Witnesses.antt =====
-- The theorems at concrete requests, on the database in memory.
use second_hand_market_backe.Base.{◌≡◌, refl, false, none, some, [], ◌∷◌}
use second_hand_market_backe.Base.Int.{pos}
use second_hand_market_backe.Base.Text.{codes, is_blank}
use second_hand_market_backe.Errors.{ok, err, biz, not_found, map_database_error}
use second_hand_market_backe.Model.Status.{
  UserType, ReviewStatus, same_user_type, same_scope, same_product_status,
}
use second_hand_market_backe.Model.Shop.{text}
use second_hand_market_backe.Model.Buyer.{BuyerIntent}
use second_hand_market_backe.Database.Tables.{Db, Name, Holds, put}
use second_hand_market_backe.Database.Actions.{
  pure, ◌>>=◌, lift, transaction, map_error, first, fail_if, create, attempt, update,
}
use second_hand_market_backe.Request.{Fields, actor_from_context, load_owned_product_for_update}
use second_hand_market_backe.Idempotency.{
  Scope, Operation, set_idempotent, run_scoped, replay_on_conflict, claim_and_run, required,
}
use second_hand_market_backe.Idempotency.Once.{run_scoped-once}
use second_hand_market_backe.Invariant.{Sound}
use second_hand_market_backe.Session.{
  SessionIdentity, session_guard, require_full_merchant_scope, resolve_session_identity,
  is_live_session, resolve_account, active_session_account, review_scope, require_auth,
}
use second_hand_market_backe.Session.Authority.{
  IsMerchantAuthority, IsLiveIdentity, full_scope-approved, resolve-IsLiveIdentity,
}
use second_hand_market_backe.Intents.{create_buyer_intent, refuse_existing}
use second_hand_market_backe.Intents.Create.{IsCreated, create_buyer_intent-IsCreated}
use second_hand_market_backe.Inventory.Orders.{CreateOrderRequest, create_order, create_order_body}
use second_hand_market_backe.System.{handle, order_create, serve, guard}
use second_hand_market_backe.System.Trace.{start, request}
use second_hand_market_backe.System.Sound.{Reaches-Sound}
use second_hand_market_backe.System.Atomic.{handle-failure}
use second_hand_market_backe.Tests.Memory.{memory, memory-IsGorm, memory-IsUniqueScope}
use second_hand_market_backe.Tests.Data.{
  lamp-IsSound, shop_owner, market, request_of_ada, order_request, intent_for_lamp, one_answer,
  ada_session,
}

market-Sound : Holds Sound market
market-Sound Name.products = ((lamp-IsSound, tt), (tt, tt))
market-Sound Name.merchants = ((tt, tt), (tt, tt))
market-Sound Name.merchant_accounts = ((tt, tt), (tt, tt))
market-Sound Name.auth_sessions = ((tt, tt), (tt, tt))
market-Sound _ = (tt, tt)

Reaches-Sound_example :
    Holds Sound
      (handle memory (one_answer []) false request_of_ada (order_create order_request) market).1
Reaches-Sound_example =
    Reaches-Sound memory memory-IsGorm (one_answer []) market _ market-Sound
      (request false request_of_ada (order_create order_request) tt start)

abbrev missing_product : CreateOrderRequest
missing_product = record order_request { product_id = 2 }

order_refused :
    (handle memory (one_answer []) false request_of_ada (order_create missing_product) market).0
    ≡ err (biz not_found)
unfolding handle memory ◌>>=◌ lift actor_from_context serve create_order transaction
    create_order_body load_owned_product_for_update map_error first map_database_error guard
    require_auth same_user_type require_full_merchant_scope same_scope
order_refused = refl

handle-failure_example :
    (handle memory (one_answer []) false request_of_ada (order_create missing_product) market).1
    ≡ market
handle-failure_example =
    handle-failure memory memory-IsGorm (one_answer []) false request_of_ada
      (order_create missing_product) market (biz not_found) order_refused

-- A guarded request of the shop's owner.
guarded :
    session_guard memory (pos 5) "/orders" (some shop_owner) market ≡ (ok (some shop_owner), market)
unfolding session_guard ◌>>=◌ map_error resolve_session_identity fail_if first memory
    is_live_session same_user_type is_blank resolve_account active_session_account review_scope pure
guarded = refl

full_scope-approved_example :
    (authority : IsMerchantAuthority market 4 shop_owner) × (authority.merchant.review_status
      ≡ ReviewStatus.approved)
unfolding require_full_merchant_scope same_user_type same_scope
full_scope-approved_example =
    full_scope-approved memory memory-IsGorm (pos 5) "/orders" shop_owner shop_owner shop_owner
      market market guarded refl

abbrev resolved : SessionIdentity
resolved = record { actor = shop_owner; session = ada_session; must_change_password = false }

resolves :
    resolve_session_identity memory 9 4 (pos 5) UserType.merchant market ≡ (ok resolved, market)
unfolding resolve_session_identity ◌>>=◌ fail_if map_error first memory is_live_session
    same_user_type is_blank resolve_account active_session_account review_scope pure
resolves = refl

resolve-IsLiveIdentity_example :
    IsLiveIdentity market (pos 5) 9 4 UserType.merchant resolved × (market ≡ market)
resolve-IsLiveIdentity_example =
    resolve-IsLiveIdentity memory memory-IsGorm 9 4 (pos 5) UserType.merchant market market resolved
      resolves

abbrev made_intent : BuyerIntent
made_intent = record intent_for_lamp { id = 1 }

abbrev with_intent : Db
with_intent = put Name.intents (made_intent ∷ []) market

intent_made : create_buyer_intent memory intent_for_lamp market ≡ (ok made_intent, with_intent)
unfolding create_buyer_intent ◌>>=◌ map_error first memory fail_if same_product_status
    refuse_existing pure create put
intent_made = refl

create_buyer_intent-IsCreated_example : IsCreated market intent_for_lamp made_intent with_intent
create_buyer_intent-IsCreated_example =
    create_buyer_intent-IsCreated memory memory-IsGorm intent_for_lamp made_intent market
      with_intent intent_made

abbrev some_scope : Scope
some_scope = record { key = "key"; operator_id = 4; path = "/orders"; request_hash = codes "h" }

abbrev other_scope : Scope
other_scope = record some_scope { request_hash = codes "i" }

abbrev sold_lamp : Fields
sold_lamp = ("status", text "SOLD") ∷ []

abbrev answer_sold : Operation
answer_sold = pure (some sold_lamp)

abbrev after_claim : Db
after_claim = (run_scoped memory (one_answer sold_lamp) some_scope answer_sold market).1

claimed :
    run_scoped memory (one_answer sold_lamp) some_scope answer_sold market
    ≡ (ok sold_lamp, after_claim)
unfolding run_scoped ◌>>=◌ attempt replay_on_conflict transaction memory claim_and_run map_error
    create pure required update fail_if
claimed = refl

run_scoped-once_example :
    run_scoped memory (one_answer sold_lamp) some_scope (pure none) after_claim
    ≡ (ok (set_idempotent sold_lamp), after_claim)
unfolding pure memory
run_scoped-once_example =
    run_scoped-once memory memory-IsGorm (one_answer sold_lamp) some_scope answer_sold (λ s. refl)
      memory-IsUniqueScope market after_claim sold_lamp (pure none) _ (λ raw e. refl) refl claimed
      refl
