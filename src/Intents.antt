-- ===== src/Intents.antt =====
-- backend/internal/app/buyer_intent_state.go and merchant_intent_handlers.go: what a buyer wants to
-- buy, and how the merchant handles it.
pub mod Keeps
pub mod Create
pub mod Single
use second_hand_market_backe.Base.{
  ℕ, String, Bool, true, false, not, ◌&&◌, ◌||◌, Option, none, some, List, [], ◌∷◌, ◌==◌,
  if◌then◌else◌,
}
use second_hand_market_backe.Base.Int.{pos}
use second_hand_market_backe.Errors.{
  Error, Result, ok, err, biz, internal, invalid_transition, conflict, forbidden, code_ok,
  map_database_error,
}
use second_hand_market_backe.Model.Status.{
  IntentStatus, intent_status_text, same_intent_status, ProductStatus, same_product_status,
}
use second_hand_market_backe.Model.Shop.{number, text, flag, moment, null, Value}
use second_hand_market_backe.Model.Buyer.{BuyerIntent}
use second_hand_market_backe.Database.Tables.{products, intents}
use second_hand_market_backe.Database.Gorm.{Action, Gorm}
use second_hand_market_backe.Database.Actions.{
  pure, raise, lift, ◌>>=◌, ◌>>◌, fail_if, map_error, first, find_rows, create, update, transaction,
}
use second_hand_market_backe.Request.{Actor, Context, Fields, Audit, is_live}

unfoldable pub validate_buyer_intent_state : BuyerIntent → Result (Unit {0})
validate_buyer_intent_state i = elim i.status [
  | IntentStatus.new ↦ if i.is_open then ok tt else err (biz internal)
  | IntentStatus.contacted ↦ if i.is_open then ok tt else err (biz internal)
  | IntentStatus.closed ↦ if i.is_open then err (biz internal) else ok tt
  | IntentStatus.other s ↦ err (biz internal)
]

-- An open intent of the same buyer for the same product.
unfoldable pub competes : BuyerIntent → BuyerIntent → Bool
competes i r = r.buyer_id == i.buyer_id && r.product_id == i.product_id && r.is_open

-- The answer where the buyer has an open intent already.
unfoldable pub refuse_existing : List BuyerIntent → Action (Unit {0})
refuse_existing [] = pure tt
refuse_existing (r ∷ rs) = do lift (validate_buyer_intent_state r); raise (biz conflict)

-- `createBuyerIntent`; the result is the intent with its key.
unfoldable pub create_buyer_intent : Gorm → BuyerIntent → Action BuyerIntent
create_buyer_intent g intent = do
  product ← map_error map_database_error (
      first g products (λ r.
        r.id == intent.product_id && r.merchant_id == intent.merchant_id && is_live r.deleted_at))
  fail_if (not (same_product_status product.status ProductStatus.on_shelf)) invalid_transition
  existing ← map_error (λ _. biz internal) (find_rows g intents (competes intent))
  refuse_existing existing
  map_error (λ _. biz internal) (create g intents intent)

-- `loadOwnedIntent`
unfoldable pub load_owned_intent : Gorm → ℕ → ℕ → Action BuyerIntent
load_owned_intent g intent_id merchant_id = do
  intent ← map_error map_database_error (first g intents (λ r. r.id == intent_id))
  fail_if (not (intent.merchant_id == merchant_id)) forbidden
  lift (validate_buyer_intent_state intent)
  pure intent

-- `dto.MerchantIntentCloseRequest`
pub record MerchantIntentCloseRequest : Type 0 where
  pub reason : Option String
  pub merchant_note : Option String

module _ (c : Context) (actor : Actor) where
  -- The intent as the two handlers update it.
  unfoldable pub contacted_intent : BuyerIntent → BuyerIntent
  contacted_intent r = record r {
    status = IntentStatus.contacted;
    handled_by = some actor.user_id;
    handled_at = some (c.now 0);
  }

  unfoldable pub closed_intent : MerchantIntentCloseRequest → BuyerIntent → BuyerIntent
  closed_intent req r = record r {
    status = IntentStatus.closed;
    is_open = false;
    handled_by = some actor.user_id;
    handled_at = some (c.now 0);
    closed_at = some (c.now 0);
    close_reason = req.reason;
    merchant_note = req.merchant_note;
  }

  abbrev intent_response : BuyerIntent → IntentStatus → Bool → Fields
  intent_response i to idempotent =
      ("intent_id", number (pos i.id))
      ∷ ("from_status", text (intent_status_text i.status))
      ∷ ("to_status", text (intent_status_text to))
      ∷ ("idempotent", flag idempotent)
      ∷ []

  -- The log entry of a change of status.
  abbrev log_intent : Audit → BuyerIntent → String → IntentStatus → Action (Unit {0})
  log_intent audit i action to = audit (record {
    resource_type = "intent";
    resource_id = i.id;
    action = action;
    from_status = some (intent_status_text i.status);
    to_status = some (intent_status_text to);
    code = code_ok;
    merchant_id = some actor.merchant_id;
    detail = [];
  })

  -- What `handleMerchantIntentContacted` and `handleMerchantIntentClose` run under the key.
  unfoldable pub contact_intent : Gorm → Audit → ℕ → Action Fields
  contact_intent g audit id = transaction g (do
    i ← load_owned_intent g id actor.merchant_id
    if same_intent_status i.status IntentStatus.contacted
        then pure (intent_response i i.status true)
        else (do
          fail_if (not (same_intent_status i.status IntentStatus.new)) invalid_transition
          update g intents (λ r. r.id == i.id) contacted_intent
          log_intent audit i "merchant_intent_contacted" IntentStatus.contacted
          pure (("handled_at", moment (c.now 0)) ∷ intent_response i IntentStatus.contacted false)))

  unfoldable pub close_intent : Gorm → Audit → ℕ → MerchantIntentCloseRequest → Action Fields
  close_intent g audit id req = transaction g (do
    i ← load_owned_intent g id actor.merchant_id
    if same_intent_status i.status IntentStatus.closed
        then pure (intent_response i i.status true)
        else (do
          fail_if
              (not (same_intent_status i.status IntentStatus.new)
                && not (same_intent_status i.status IntentStatus.contacted))
              invalid_transition
          update g intents (λ r. r.id == i.id) (closed_intent req)
          log_intent audit i "merchant_intent_close" IntentStatus.closed
          pure (("closed_at", moment (c.now 0)) ∷ intent_response i IntentStatus.closed false)))
