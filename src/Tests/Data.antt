-- ===== src/Tests/Data.antt =====
-- Rows, requests and databases on which the definitions are run.
use second_hand_market_backe.Base.{refl, arith, true, false, none, some, [], ◌∷◌}
use second_hand_market_backe.Base.Int.{pos}
use second_hand_market_backe.Base.Text.{codes}
use second_hand_market_backe.Model.Status.{
  ProductStatus, UserType, Role, Scope, IntentStatus, AccountStatus, ReviewStatus,
}
use second_hand_market_backe.Model.Shop.{Product}
use second_hand_market_backe.Model.People.{Merchant, MerchantAccount, AuthSession}
use second_hand_market_backe.Model.Buyer.{BuyerIntent}
use second_hand_market_backe.Database.Tables.{Db, Name}
use second_hand_market_backe.Request.{Actor, Context, Codec, Fields}
use second_hand_market_backe.Invariant.{IsSound}
use second_hand_market_backe.Inventory.Orders.{CreateOrderRequest}

abbrev pub lamp : Product
lamp = record {
  id = 1;
  product_no = "P1";
  merchant_id = 7;
  title = "lamp";
  description = "a lamp";
  category_id = 3;
  price_cent = pos 500;
  original_price_cent = some (pos 900);
  condition_level = "GOOD";
  stock = pos 2;
  reserved_stock = pos 0;
  cover_file_id = none;
  status = ProductStatus.on_shelf;
  active_order_id = none;
  locked_at = none;
  shelf_at = none;
  off_shelf_at = none;
  sold_at = none;
  closed_at = none;
  created_by = 4;
  updated_by = 4;
  version = pos 1;
  deleted_at = none;
}

abbrev pub shop_owner : Actor
shop_owner = record {
  user_id = 4;
  user_type = UserType.merchant;
  role = Role.owner;
  merchant_id = 7;
  scope = Scope.full;
  session_id = 9;
}

abbrev pub ada : Merchant
ada = record {
  id = 7;
  merchant_no = codes "M7";
  merchant_name = "Ada's";
  contact_name = "Ada";
  contact_phone = "1";
  contact_email = none;
  license_no = none;
  license_file_id = none;
  review_status = ReviewStatus.approved;
  reject_reason = none;
  reviewed_by = none;
  reviewed_at = none;
  deleted_at = none;
}

abbrev pub ada_account : MerchantAccount
ada_account = record {
  id = 4;
  must_change_password = false;
  merchant_id = 7;
  username = "ada";
  password_hash = codes "x";
  role = Role.owner;
  status = AccountStatus.active;
  last_login_at = none;
  deleted_at = none;
}

abbrev pub ada_session : AuthSession
ada_session = record {
  id = 9;
  user_type = UserType.merchant;
  user_id = 4;
  refresh_token_hash = codes "h";
  device_info = none;
  ip = none;
  expired_at = pos 100;
  revoked_at = none;
}

-- A market with one merchant and one product.
abbrev pub market : Db
market Name.products = lamp ∷ []
market Name.merchants = ada ∷ []
market Name.merchant_accounts = ada_account ∷ []
market Name.auth_sessions = ada_session ∷ []
market _ = []

abbrev pub request_of_ada : Context
request_of_ada = record {
  actor = some shop_owner;
  request_id = "r";
  method = "POST";
  full_path = "/orders";
  client_ip = "ip";
  user_agent = "agent";
  idempotency_key = "key";
  now = λ n. pos n;
  biz_no = "N1";
}

abbrev pub order_request : CreateOrderRequest
order_request = record {
  product_id = 1;
  deal_price_cent = pos 450;
  buyer_contact_masked = none;
  remark = none;
}

abbrev pub intent_for_lamp : BuyerIntent
intent_for_lamp = record {
  id = 0;
  intent_no = "I1";
  buyer_id = 12;
  source_device_id = none;
  product_id = 1;
  merchant_id = 7;
  status = IntentStatus.new;
  is_open = true;
  contact_name = none;
  contact_phone = some "1";
  contact_wechat = none;
  message = none;
  handled_by = none;
  handled_at = none;
  closed_at = none;
  close_reason = none;
  merchant_note = none;
}

-- A codec that is right about one answer.
abbrev pub one_answer : Fields → Codec
one_answer m = record {
  marshal = λ x. some (codes "answer");
  unmarshal = λ raw. some (some m);
  sha256 = λ raw. raw;
}

pub lamp-IsSound : IsSound lamp
lamp-IsSound = record {
  reserved_nonneg = omega arith;
  reserved_within = omega arith;
  stock_bounded = omega arith;
  reservation = refl;
  shelf = omega arith;
}
