-- ===== src/System/Buyers.antt =====
-- The requests of buyers and guests that change something, as their handlers in
-- backend/internal/app/buyer_handlers.go serve them: the checks, the rate limits, the work.
pub mod Keeps
pub mod Undone
use second_hand_market_backe.Base.{
  ℕ, String, Bool, true, false, not, ◌&&◌, Option, none, some, List, [], ◌∷◌, ◌++◌, ◌==◌,
  if◌then◌else◌,
}
use second_hand_market_backe.Base.Int.{pos}
use second_hand_market_backe.Base.Text.{codes, is_blank}
use second_hand_market_backe.Errors.{
  Result, ok, err, forbidden, invalid_argument, invalid_transition, map_database_error,
}
use second_hand_market_backe.Model.Status.{
  Time, UserType, same_user_type, ProductStatus, same_product_status, IntentStatus,
  intent_status_text,
}
use second_hand_market_backe.Model.Shop.{Product, number, text}
use second_hand_market_backe.Model.People.{Merchant}
use second_hand_market_backe.Model.Buyer.{BuyerIntent}
use second_hand_market_backe.Database.Tables.{Db, products}
use second_hand_market_backe.Database.Gorm.{Action, Gorm}
use second_hand_market_backe.Database.Actions.{pure, lift, ◌>>=◌, ◌>>◌, fail_if, map_error, first}
use second_hand_market_backe.Session.{require_auth}
use second_hand_market_backe.Request.{Actor, Context, Codec, Fields, actor_from_context, is_live}
use second_hand_market_backe.RateLimiter.{MemoryRateLimiter}
use second_hand_market_backe.Idempotency.{run_with_idempotency}
use second_hand_market_backe.Intents.{create_buyer_intent}
use second_hand_market_backe.Buyers.Owner.{
  Visit, Gate, get_device_id, is_empty, decimal, resolve_buyer_merchant_scope, limited,
}
use second_hand_market_backe.Buyers.Favorites.{
  handle_buyer_favorite_add, handle_buyer_favorite_delete,
}
use second_hand_market_backe.Buyers.Histories.{
  BuyerHistoryViewRequest, handle_buyer_history_view, handle_buyer_history_delete,
}
use second_hand_market_backe.Buyers.Merge.{handle_buyer_guest_merge}
use second_hand_market_backe.System.{optional, answered}

-- `dto.BuyerIntentCreateRequest`
pub record BuyerIntentCreateRequest : Type 0 where
  pub product_id : ℕ
  pub contact_name : Option String
  pub contact_phone : Option String
  pub contact_wechat : Option String
  pub message : Option String

-- The intent that `handleBuyerIntentCreate` builds.
unfoldable pub new_intent : Context → Actor → List ℕ → ℕ → BuyerIntentCreateRequest → BuyerIntent
new_intent c actor device_id merchant_id req = record {
  id = 0;
  intent_no = c.biz_no;
  buyer_id = actor.user_id;
  source_device_id = some device_id;
  product_id = req.product_id;
  merchant_id = merchant_id;
  status = IntentStatus.new;
  is_open = true;
  contact_name = req.contact_name;
  contact_phone = req.contact_phone;
  contact_wechat = req.contact_wechat;
  message = req.message;
  handled_by = none;
  handled_at = none;
  closed_at = none;
  close_reason = none;
  merchant_note = none;
}

abbrev intent_answer : BuyerIntent → Fields
intent_answer i =
    ("intent_id", number (pos i.id))
    ∷ ("intent_no", text i.intent_no)
    ∷ ("status", text (intent_status_text i.status))
    ∷ []

abbrev is_unset : Option String → Bool
is_unset none = true
is_unset (some s) = is_blank (codes s)

-- `(phone == nil || TrimSpace(*phone) == "") && …`
unfoldable pub has_no_contact : BuyerIntentCreateRequest → Bool
has_no_contact req = is_unset req.contact_phone && is_unset req.contact_wechat

-- The three limits of the intents.
abbrev day_gate : List ℕ → List ℕ → ℕ → Time → Gate
day_gate scope key limit time = record {
  scope = scope;
  key = key;
  limit = pos limit;
  window = pos 86400000000000;
  time = time;
}

unfoldable pub intent_gates : Context → Visit → Actor → List Gate
intent_gates c v actor =
    record {
      scope = codes "buyer:intent:min";
      key = decimal actor.user_id;
      limit = pos 5;
      window = pos 60000000000;
      time = c.now 0;
    }
    ∷ day_gate (codes "buyer:intent:day") (decimal actor.user_id) 20 (c.now 1)
    ∷ (if is_empty (get_device_id v)
        then []
        else day_gate (codes "buyer:intent:device_day") (get_device_id v) 30 (c.now 2) ∷ [])

-- The body of a request arrives bound, or with the error of its binding.
pub data BuyerCall : Type 0 where
  favorite_add favorite_delete : Result ℕ → BuyerCall
  history_view : Result BuyerHistoryViewRequest → BuyerCall
  history_delete : List ℕ → BuyerCall
  guest_merge : Result (List ℕ) → BuyerCall
  intent_create : Result BuyerIntentCreateRequest → BuyerCall

-- `middleware.RequireAuth(model.UserTypeBuyer)` before a handler.
unfoldable pub for_buyer :
    {A : Type 0}
    → Context
    → (MemoryRateLimiter → Db → (Result A × Db) × MemoryRateLimiter)
    → MemoryRateLimiter
    → Db
    → (Result A × Db) × MemoryRateLimiter
for_buyer c m l s = elim (require_auth (UserType.buyer ∷ []) c.actor) [
  | err e ↦ ((err e, s), l)
  | ok a ↦ m l s
]

-- `time.Parse` and how the database compares a number with a text.
pub record Readers : Type 0 where
  pub parse_time : List ℕ → Option Time
  pub equals_text : List ℕ → ℕ → Bool

module _ (g : Gorm) (j : Codec) (rd : Readers) (c : Context) (v : Visit) where
  -- The work of `handleBuyerIntentCreate` after its rate limits.
  unfoldable pub submit_intent : Actor → Merchant → BuyerIntentCreateRequest → Action Fields
  submit_intent actor merchant req = do
    fail_if (has_no_contact req) invalid_argument
    product ← map_error map_database_error (
        first g products
          (λ r. r.id == req.product_id && r.merchant_id == merchant.id && is_live r.deleted_at))
    fail_if (not (same_product_status product.status ProductStatus.on_shelf)) invalid_transition
    run_with_idempotency g j c
        (("product_id", number (pos req.product_id))
          ∷ ("contact_name", optional req.contact_name)
          ∷ ("contact_phone", optional req.contact_phone)
          ∷ ("contact_wechat", optional req.contact_wechat)
          ∷ ("message", optional req.message)
          ∷ [])
        (answered (
          create_buyer_intent g (new_intent c actor (get_device_id v) product.merchant_id req)
          >>= λ i. pure (intent_answer i)))

  unfoldable pub handle_buyer_intent_create :
      Result BuyerIntentCreateRequest
      → MemoryRateLimiter
      → Db
      → (Result Fields × Db) × MemoryRateLimiter
  handle_buyer_intent_create bound =
      limited {A = Actor × Merchant}
        (do
          actor ← lift (actor_from_context c)
          fail_if (not (same_user_type actor.user_type UserType.buyer)) forbidden
          merchant ← resolve_buyer_merchant_scope g v
          pure (actor, merchant))
        (λ x. intent_gates c v x.0) (λ x. do req ← lift bound; submit_intent x.0 x.1 req)

  unfoldable pub serve_buyer :
      BuyerCall → MemoryRateLimiter → Db → (Result Fields × Db) × MemoryRateLimiter
  serve_buyer (favorite_add bound) = handle_buyer_favorite_add g c v bound
  serve_buyer (favorite_delete parsed) = handle_buyer_favorite_delete g c v parsed
  serve_buyer (history_view bound) = handle_buyer_history_view g c v rd.parse_time bound
  serve_buyer (history_delete query) = handle_buyer_history_delete g c v rd.equals_text query
  serve_buyer (guest_merge bound) = for_buyer c (handle_buyer_guest_merge g c bound)
  serve_buyer (intent_create bound) = for_buyer c (handle_buyer_intent_create bound)
