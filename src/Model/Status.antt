-- ===== src/Model/Status.antt =====
-- The text constants of backend/internal/model/models.go. Each set of constants is a data type; its
-- last constructor, `other`, stands for every text that is none of them.
use text.Mathlib.Text.{◌==◌ as str_eq}
use second_hand_market_backe.Base.{String, Bool, true, false}
use second_hand_market_backe.Base.Int.{ℤ}

-- A moment, as Go's `time.Time`, in nanoseconds.
abbrev pub Time : Type 0
Time = ℤ

pub data ProductStatus : Type 0 where
  draft on_shelf locked off_shelf sold : ProductStatus
  other : String → ProductStatus

pub data OrderStatus : Type 0 where
  created completed closed : OrderStatus
  other : String → OrderStatus

pub data IntentStatus : Type 0 where
  new contacted closed : IntentStatus
  other : String → IntentStatus

pub data ReviewStatus : Type 0 where
  pending approved rejected disabled : ReviewStatus
  other : String → ReviewStatus

pub data AccountStatus : Type 0 where
  active disabled : AccountStatus
  other : String → AccountStatus

pub data CategoryStatus : Type 0 where
  enabled disabled : CategoryStatus
  other : String → CategoryStatus

pub data UserType : Type 0 where
  admin merchant buyer public_user : UserType
  other : String → UserType

-- The roles of administrators, of merchant accounts, and the one that a buyer's actor carries.
pub data Role : Type 0 where
  super_admin admin owner staff buyer : Role
  other : String → Role

pub data Scope : Type 0 where
  full onboarding : Scope
  other : String → Scope

pub data StockAdjustmentType : Type 0 where
  increase decrease mark_sold : StockAdjustmentType
  other : String → StockAdjustmentType

pub data FileBizType : Type 0 where
  merchant_license product_image other_file : FileBizType
  other : String → FileBizType

pub data ScanStatus : Type 0 where
  pending pass blocked : ScanStatus
  other : String → ScanStatus

-- The texts that stand in a log entry.
unfoldable pub product_status_text : ProductStatus → String
product_status_text ProductStatus.draft = "DRAFT"
product_status_text ProductStatus.on_shelf = "ON_SHELF"
product_status_text ProductStatus.locked = "LOCKED"
product_status_text ProductStatus.off_shelf = "OFF_SHELF"
product_status_text ProductStatus.sold = "SOLD"
product_status_text (ProductStatus.other s) = s

unfoldable pub order_status_text : OrderStatus → String
order_status_text OrderStatus.created = "CREATED"
order_status_text OrderStatus.completed = "COMPLETED"
order_status_text OrderStatus.closed = "CLOSED"
order_status_text (OrderStatus.other s) = s

unfoldable pub intent_status_text : IntentStatus → String
intent_status_text IntentStatus.new = "NEW"
intent_status_text IntentStatus.contacted = "CONTACTED"
intent_status_text IntentStatus.closed = "CLOSED"
intent_status_text (IntentStatus.other s) = s

-- Go's `==` on two product statuses.
unfoldable pub same_product_status : ProductStatus → ProductStatus → Bool
same_product_status ProductStatus.draft ProductStatus.draft = true
same_product_status ProductStatus.on_shelf ProductStatus.on_shelf = true
same_product_status ProductStatus.locked ProductStatus.locked = true
same_product_status ProductStatus.off_shelf ProductStatus.off_shelf = true
same_product_status ProductStatus.sold ProductStatus.sold = true
same_product_status (ProductStatus.other s) (ProductStatus.other t) = str_eq s t
same_product_status _ _ = false

-- Go's `==` on two order statuses.
unfoldable pub same_order_status : OrderStatus → OrderStatus → Bool
same_order_status OrderStatus.created OrderStatus.created = true
same_order_status OrderStatus.completed OrderStatus.completed = true
same_order_status OrderStatus.closed OrderStatus.closed = true
same_order_status (OrderStatus.other s) (OrderStatus.other t) = str_eq s t
same_order_status _ _ = false

-- Go's `==` on two intent statuses.
unfoldable pub same_intent_status : IntentStatus → IntentStatus → Bool
same_intent_status IntentStatus.new IntentStatus.new = true
same_intent_status IntentStatus.contacted IntentStatus.contacted = true
same_intent_status IntentStatus.closed IntentStatus.closed = true
same_intent_status (IntentStatus.other s) (IntentStatus.other t) = str_eq s t
same_intent_status _ _ = false

-- Go's `==` on two user types.
unfoldable pub same_user_type : UserType → UserType → Bool
same_user_type UserType.admin UserType.admin = true
same_user_type UserType.merchant UserType.merchant = true
same_user_type UserType.buyer UserType.buyer = true
same_user_type UserType.public_user UserType.public_user = true
same_user_type (UserType.other s) (UserType.other t) = str_eq s t
same_user_type _ _ = false

-- Go's `==` on two scopes.
unfoldable pub same_scope : Scope → Scope → Bool
same_scope Scope.full Scope.full = true
same_scope Scope.onboarding Scope.onboarding = true
same_scope (Scope.other s) (Scope.other t) = str_eq s t
same_scope _ _ = false
