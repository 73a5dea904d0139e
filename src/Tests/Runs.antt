-- ===== src/Tests/Runs.antt =====
-- The theorems on stock, orders and reused keys at concrete requests, and runs of the definitions.
use second_hand_market_backe.Base.{◌≢◌, ◌≡◌, refl, true, false, none, [], ◌∷◌, arith, List, ℕ, some}
use second_hand_market_backe.Base.Int.{pos, ◌-64◌, ◌-ℤ◌}
use second_hand_market_backe.Base.Text.{
  codes, same_bytes, trim_space, to_lower, has_prefix, contains, has_suffix,
}
use second_hand_market_backe.Errors.{ok, err, biz, duplicate_submit, invalid_transition}
use second_hand_market_backe.Model.Status.{
  ProductStatus, OrderStatus, StockAdjustmentType, FileBizType, ScanStatus, UserType,
  same_user_type,
}
use second_hand_market_backe.Model.Shop.{Order, IdempotencyRecord, FileRecord}
use second_hand_market_backe.Database.Tables.{Db, Name, put}
use second_hand_market_backe.Database.Actions.{pure, ◌>>=◌, fail_if, find_rows}
use second_hand_market_backe.Idempotency.{Scope, run_scoped, in_scope}
use second_hand_market_backe.Idempotency.Once.{run_scoped-other_payload}
use second_hand_market_backe.Invariant.{IsSound}
use second_hand_market_backe.Inventory.Adjust.{
  Adjustment, AdjustProductStockRequest, calculate_stock_adjustment, adjusted_product,
}
use second_hand_market_backe.Inventory.Orders.{
  new_order, locked_product, released_product, transition_order,
}
use second_hand_market_backe.Inventory.Pure.{
  IsAdjustment, calculate-IsAdjustment, adjusted_product-IsSound,
}
use second_hand_market_backe.Inventory.Lifecycle.{
  IsReleased, released_product-locked_product, transition_order-final,
}
use second_hand_market_backe.Products.Images.{
  validate_merchant_product_image_files, unique_ids, check_files, merchant_ids_for_accounts,
  all_usable, file_by_id, may_use, merchant_by_account, is_strict_detail_product_image_record,
  is_detail_product_image_key,
}
use second_hand_market_backe.Products.Images.Usable.{IsValidated, validate-IsValidated}
use second_hand_market_backe.RateLimiter.{new_memory_rate_limiter, answers, allow}
use second_hand_market_backe.RateLimiter.Window.{reference, answers-reference}
use second_hand_market_backe.Tests.Memory.{memory, memory-IsGorm, memory-IsUniqueScope}
use second_hand_market_backe.Tests.Data.{
  lamp, lamp-IsSound, shop_owner, market, request_of_ada, order_request, one_answer,
}

abbrev mark_all_sold : AdjustProductStockRequest
mark_all_sold = record {
  adjustment_type = StockAdjustmentType.mark_sold;
  quantity = pos 0;
  all_remaining = true;
  reason = codes "sold at the fair";
}

abbrev all_sold : Adjustment
all_sold = record { applied = pos 2; stock_after = pos 0; status_after = ProductStatus.sold }

calculated :
    calculate_stock_adjustment lamp StockAdjustmentType.mark_sold (pos 0) true ≡ ok all_sold
unfolding calculate_stock_adjustment ◌-64◌ ◌-ℤ◌
calculated = refl

calculate-IsAdjustment_example : IsAdjustment lamp StockAdjustmentType.mark_sold all_sold
calculate-IsAdjustment_example =
    calculate-IsAdjustment lamp StockAdjustmentType.mark_sold (pos 0) true all_sold lamp-IsSound
      calculated

adjusted_product-IsSound_example :
    IsSound (adjusted_product request_of_ada shop_owner mark_all_sold lamp all_sold)
unfolding adjusted_product
adjusted_product-IsSound_example =
    adjusted_product-IsSound request_of_ada shop_owner mark_all_sold lamp all_sold lamp-IsSound
      (omega arith, omega arith) calculated ((omega arith, omega arith), (omega arith, omega arith))

-- More than there is cannot be taken.
too_many :
    calculate_stock_adjustment lamp StockAdjustmentType.decrease (pos 3) false
    ≡ err (biz invalid_transition)
unfolding calculate_stock_adjustment
too_many = refl

abbrev lamp_order : Order
lamp_order = record (new_order request_of_ada shop_owner order_request lamp) { id = 1 }

released_product-locked_product_example : IsReleased lamp OrderStatus.closed (
    released_product request_of_ada shop_owner
      (locked_product request_of_ada shop_owner lamp lamp_order)
      lamp_order
      OrderStatus.closed)
unfolding new_order
released_product-locked_product_example =
    released_product-locked_product request_of_ada request_of_ada shop_owner shop_owner lamp
      lamp_order OrderStatus.closed lamp-IsSound refl refl

-- A completed order, which is asked to be closed.
abbrev completed_order : Order
completed_order = record lamp_order { status = OrderStatus.completed; is_active = false }

abbrev after_completion : Db
after_completion = put Name.orders (completed_order ∷ []) market

not_created : OrderStatus.completed ≢ OrderStatus.created
not_created q = cc

transition_order-final_example :
    (transition_order request_of_ada shop_owner memory
      (λ e. pure tt)
      1
      OrderStatus.closed
      "order_close"
      (some "late")
      after_completion).1
    ≡ after_completion
unfolding put new_order
transition_order-final_example =
    transition_order-final memory memory-IsGorm request_of_ada shop_owner (λ e. pure tt) 1
      OrderStatus.closed "order_close" (some "late") completed_order [] after_completion refl
      not_created

-- A key that was claimed for another payload.
abbrev stored_claim : IdempotencyRecord
stored_claim = record {
  id = 1;
  idem_key = "key";
  operator_id = 4;
  path = "/orders";
  request_hash = codes "h";
  result_code = 0;
  response_raw = codes "answer";
}

abbrev with_claim : Db
with_claim = put Name.idempotency_records (stored_claim ∷ []) market

abbrev changed_scope : Scope
changed_scope = record { key = "key"; operator_id = 4; path = "/orders"; request_hash = codes "i" }

run_scoped-other_payload_example :
    (run_scoped memory (one_answer []) changed_scope (pure none) with_claim).0
    ≡ err (biz duplicate_submit)
unfolding put in_scope memory same_bytes
run_scoped-other_payload_example =
    run_scoped-other_payload memory memory-IsGorm memory-IsUniqueScope (one_answer []) changed_scope
      with_claim (pure none) stored_claim [] refl refl refl

-- A picture of the lamp, which its merchant uploaded.
abbrev picture : FileRecord
picture = record {
  id = 3;
  biz_type = FileBizType.product_image;
  object_key = codes "product_image/detail-v1/lamp.jpg";
  url = [];
  mime_type = codes "image/jpeg";
  size_bytes = pos 1000;
  uploader_type = UserType.merchant;
  uploader_id = some 4;
  scan_status = ScanStatus.pass;
}

abbrev with_picture : Db
with_picture = put Name.files (picture ∷ []) market

accepted :
    validate_merchant_product_image_files memory true shop_owner (3 ∷ 3 ∷ []) with_picture
    ≡ (ok tt, with_picture)
unfolding validate_merchant_product_image_files memory ◌>>=◌ fail_if unique_ids check_files
    find_rows merchant_ids_for_accounts all_usable file_by_id may_use same_user_type
    merchant_by_account is_strict_detail_product_image_record is_detail_product_image_key trim_space
    to_lower has_prefix contains same_bytes has_suffix put
accepted = refl

validate-IsValidated_example : IsValidated true shop_owner (3 ∷ 3 ∷ []) with_picture
validate-IsValidated_example =
    validate-IsValidated memory memory-IsGorm true shop_owner (3 ∷ 3 ∷ []) tt with_picture
      with_picture accepted

abbrev login_bucket : List ℕ
login_bucket = codes "login"

-- Four calls under a limit of two in ten seconds: the third is refused, the fourth is allowed again.
four_calls :
    answers login_bucket []
      (pos 2)
      (pos 10)
      new_memory_rate_limiter
      (pos 1 ∷ pos 2 ∷ pos 3 ∷ pos 12 ∷ [])
    ≡ true ∷ true ∷ false ∷ true ∷ []
unfolding answers allow same_bytes ◌-ℤ◌
four_calls = refl

answers-reference_example :
    answers login_bucket []
      (pos 2)
      (pos 10)
      new_memory_rate_limiter
      (pos 1 ∷ pos 2 ∷ pos 3 ∷ pos 12 ∷ [])
    ≡ reference (pos 2) (pos 10) [] (pos 1 ∷ pos 2 ∷ pos 3 ∷ pos 12 ∷ [])
answers-reference_example =
    answers-reference login_bucket [] (pos 2) (pos 10) (omega arith) (pos 0) new_memory_rate_limiter
      (pos 1 ∷ pos 2 ∷ pos 3 ∷ pos 12 ∷ []) refl
      (omega arith, (omega arith, (omega arith, (omega arith, tt))))
