-- ===== src/Model/Shop.antt =====
-- Rows of the shop's tables: products, stock movements, orders and their events, files, categories,
-- the operation log and the idempotency records.
use second_hand_market_backe.Base.{ℕ, String, Bool, Option, List}
use second_hand_market_backe.Base.Int.{ℤ}
use second_hand_market_backe.Model.Status.{
  Time, ProductStatus, OrderStatus, CategoryStatus, StockAdjustmentType, FileBizType, ScanStatus,
  UserType,
}

pub record Product : Type 0 where
  pub id : ℕ
  pub product_no : String
  pub merchant_id : ℕ
  pub title : String
  pub description : String
  pub category_id : ℕ
  pub price_cent : ℤ
  pub original_price_cent : Option ℤ
  pub condition_level : String
  pub stock : ℤ
  pub reserved_stock : ℤ
  pub cover_file_id : Option ℕ
  pub status : ProductStatus
  pub active_order_id : Option ℕ
  pub locked_at : Option Time
  pub shelf_at : Option Time
  pub off_shelf_at : Option Time
  pub sold_at : Option Time
  pub closed_at : Option Time
  pub created_by : ℕ
  pub updated_by : ℕ
  pub version : ℤ
  pub deleted_at : Option Time

pub record ProductImage : Type 0 where
  pub id : ℕ
  pub product_id : ℕ
  pub file_id : ℕ
  pub sort_order : ℤ

pub record ProductStockAdjustment : Type 0 where
  pub id : ℕ
  pub product_id : ℕ
  pub merchant_id : ℕ
  pub adjustment_type : StockAdjustmentType
  pub quantity : ℤ
  pub stock_before : ℤ
  pub stock_after : ℤ
  pub status_before : ProductStatus
  pub status_after : ProductStatus
  pub reason : List ℕ
  pub operator_id : ℕ
  pub created_at : Time

pub record Order : Type 0 where
  pub id : ℕ
  pub order_no : String
  pub merchant_id : ℕ
  pub product_id : ℕ
  pub quantity : ℤ
  pub deal_price_cent : ℤ
  pub buyer_contact_masked : Option String
  pub remark : Option String
  pub status : OrderStatus
  pub is_active : Bool
  pub close_reason : Option String
  pub created_by : ℕ
  pub completed_at : Option Time
  pub closed_at : Option Time
  pub deleted_at : Option Time

pub record OrderEvent : Type 0 where
  pub id : ℕ
  pub order_id : ℕ
  pub event_type : String
  pub from_status : Option OrderStatus
  pub to_status : OrderStatus
  pub operator_type : UserType
  pub operator_id : ℕ
  pub note : Option String

pub record FileRecord : Type 0 where
  pub id : ℕ
  pub biz_type : FileBizType
  pub object_key : List ℕ
  pub url : List ℕ
  pub mime_type : List ℕ
  pub size_bytes : ℤ
  pub uploader_type : UserType
  pub uploader_id : Option ℕ
  pub scan_status : ScanStatus

pub record Category : Type 0 where
  pub id : ℕ
  pub merchant_id : Option ℕ
  pub parent_id : Option ℕ
  pub level : ℤ
  pub name : List ℕ
  pub status : CategoryStatus
  pub sort : ℤ
  pub deleted_at : Option Time

-- A value of the maps that handlers return and that log entries carry as JSON.
pub data Value : Type 0 where
  number : ℤ → Value
  text : String → Value
  bytes : List ℕ → Value
  flag : Bool → Value
  moment : Time → Value
  null : Value

pub record OperationLog : Type 0 where
  pub id : ℕ
  pub request_id : String
  pub operator_type : UserType
  pub operator_id : ℕ
  pub merchant_id : Option ℕ
  pub action : String
  pub resource_type : String
  pub resource_id : ℕ
  pub from_status : Option String
  pub to_status : Option String
  pub method : String
  pub path : String
  pub ip : String
  pub user_agent : String
  pub result_code : ℕ
  pub detail_json : List ℕ

pub record IdempotencyRecord : Type 0 where
  pub id : ℕ
  pub idem_key : String
  pub operator_id : ℕ
  pub path : String
  pub request_hash : List ℕ
  pub result_code : ℕ
  pub response_raw : List ℕ
