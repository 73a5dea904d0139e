-- ===== src/Tests/Intents.antt =====
-- An intent that is created, closed and created again, on the database in memory.
use second_hand_market_backe.Base.{◌≡◌, refl, arith, true, false, none, [], ◌∷◌, map}
use second_hand_market_backe.Model.Buyer.{BuyerIntent}
use second_hand_market_backe.Database.Tables.{Db, intents, put}
use second_hand_market_backe.Database.Actions.{
  pure, ◌>>=◌, raise, transaction, map_error, first, fail_if, find_rows, create, update, lift,
  attempt, head_or_missing, write,
}
use second_hand_market_backe.Model.Status.{
  same_product_status, same_intent_status, intent_status_text,
}
use second_hand_market_backe.Request.{write_operation_log, persist_operation_log}
use second_hand_market_backe.Intents.{
  create_buyer_intent, refuse_existing, competes, close_intent, closed_intent, load_owned_intent,
  validate_buyer_intent_state, MerchantIntentCloseRequest,
}
use second_hand_market_backe.Intents.Single.{IsSingle, start, created, closed, IntentSteps-IsSingle}
use second_hand_market_backe.Tests.Memory.{memory, memory-IsGorm}
use second_hand_market_backe.Tests.Data.{
  market, shop_owner, request_of_ada, intent_for_lamp, one_answer,
}

abbrev no_reason : MerchantIntentCloseRequest
no_reason = record { reason = none; merchant_note = none }

abbrev first_intent : Db
first_intent = (create_buyer_intent memory intent_for_lamp market).1

abbrev first_closed : Db
first_closed =
    (close_intent request_of_ada shop_owner memory
      (write_operation_log memory (one_answer []) request_of_ada) 1 no_reason first_intent).1

abbrev reopened : Db
reopened = (create_buyer_intent memory intent_for_lamp first_closed).1

-- The second intent is there, beside the closed one.
reopened_rows : map (λ (r : BuyerIntent). r.is_open) (reopened intents) ≡ false ∷ true ∷ []
unfolding create_buyer_intent ◌>>=◌ map_error first memory close_intent transaction
    load_owned_intent fail_if same_product_status refuse_existing pure create
    validate_buyer_intent_state same_intent_status update write_operation_log attempt find_rows
    head_or_missing lift raise write put closed_intent competes intent_status_text
    persist_operation_log
reopened_rows = refl

IntentSteps-IsSingle_example : IsSingle (reopened intents)
IntentSteps-IsSingle_example =
    IntentSteps-IsSingle memory memory-IsGorm (one_answer []) market reopened
      (λ buyer product. omega arith)
      (created intent_for_lamp
        (closed request_of_ada shop_owner 1 no_reason (created intent_for_lamp start)))
