-- ===== src/Database/Tables.antt =====
-- The tables of the database, and what they hold between two statements. A table is indexed by its
-- name, so that one definition and one lemma serve every table.
use second_hand_market_backe.Base.{ℕ, ◌≢◌, List, [], ◌∷◌, All}
use second_hand_market_backe.Base.Int.{ℤ, pos, negsuc, ◌≤ℤ◌, ◌<ℤ◌}
use second_hand_market_backe.Model.Shop.{
  Product, ProductImage, ProductStockAdjustment, Order, OrderEvent, FileRecord, Category,
  OperationLog, IdempotencyRecord,
}
use second_hand_market_backe.Model.People.{
  Merchant, MerchantAccount, AdminUser, MerchantAuditLog, AuthSession, BuyerUser,
}
use second_hand_market_backe.Model.Buyer.{
  BuyerDeviceBinding, BuyerFavorite, BuyerHistory, BuyerIntent,
}

pub data Name : Type 0 where
  products product_images stock_adjustments orders order_events files categories operation_logs
        idempotency_records :
      Name
  merchants merchant_accounts admin_users merchant_audit_logs auth_sessions buyer_users : Name
  device_bindings favorites histories intents : Name

abbrev pub Row : Name → Type 0
Row products = Product
Row product_images = ProductImage
Row stock_adjustments = ProductStockAdjustment
Row orders = Order
Row order_events = OrderEvent
Row files = FileRecord
Row categories = Category
Row operation_logs = OperationLog
Row idempotency_records = IdempotencyRecord
Row merchants = Merchant
Row merchant_accounts = MerchantAccount
Row admin_users = AdminUser
Row merchant_audit_logs = MerchantAuditLog
Row auth_sessions = AuthSession
Row buyer_users = BuyerUser
Row device_bindings = BuyerDeviceBinding
Row favorites = BuyerFavorite
Row histories = BuyerHistory
Row intents = BuyerIntent

-- The primary key, and a row with its key set.
abbrev pub row_id : (n : Name) → Row n → ℕ
row_id products r = r.id
row_id product_images r = r.id
row_id stock_adjustments r = r.id
row_id orders r = r.id
row_id order_events r = r.id
row_id files r = r.id
row_id categories r = r.id
row_id operation_logs r = r.id
row_id idempotency_records r = r.id
row_id merchants r = r.id
row_id merchant_accounts r = r.id
row_id admin_users r = r.id
row_id merchant_audit_logs r = r.id
row_id auth_sessions r = r.id
row_id buyer_users r = r.id
row_id device_bindings r = r.id
row_id favorites r = r.id
row_id histories r = r.id
row_id intents r = r.id

abbrev pub with_id : (n : Name) → ℕ → Row n → Row n
with_id products i r = record r { id = i }
with_id product_images i r = record r { id = i }
with_id stock_adjustments i r = record r { id = i }
with_id orders i r = record r { id = i }
with_id order_events i r = record r { id = i }
with_id files i r = record r { id = i }
with_id categories i r = record r { id = i }
with_id operation_logs i r = record r { id = i }
with_id idempotency_records i r = record r { id = i }
with_id merchants i r = record r { id = i }
with_id merchant_accounts i r = record r { id = i }
with_id admin_users i r = record r { id = i }
with_id merchant_audit_logs i r = record r { id = i }
with_id auth_sessions i r = record r { id = i }
with_id buyer_users i r = record r { id = i }
with_id device_bindings i r = record r { id = i }
with_id favorites i r = record r { id = i }
with_id histories i r = record r { id = i }
with_id intents i r = record r { id = i }

-- The rows of every table, in the order of their keys.
abbrev pub Db : Type 0
Db = (n : Name) → List (Row n)

-- A database with one table replaced.
unfoldable pub put : (n : Name) → List (Row n) → Db → Db
put products xs db products = xs
put products xs db m = db m
put product_images xs db product_images = xs
put product_images xs db m = db m
put stock_adjustments xs db stock_adjustments = xs
put stock_adjustments xs db m = db m
put orders xs db orders = xs
put orders xs db m = db m
put order_events xs db order_events = xs
put order_events xs db m = db m
put files xs db files = xs
put files xs db m = db m
put categories xs db categories = xs
put categories xs db m = db m
put operation_logs xs db operation_logs = xs
put operation_logs xs db m = db m
put idempotency_records xs db idempotency_records = xs
put idempotency_records xs db m = db m
put merchants xs db merchants = xs
put merchants xs db m = db m
put merchant_accounts xs db merchant_accounts = xs
put merchant_accounts xs db m = db m
put admin_users xs db admin_users = xs
put admin_users xs db m = db m
put merchant_audit_logs xs db merchant_audit_logs = xs
put merchant_audit_logs xs db m = db m
put auth_sessions xs db auth_sessions = xs
put auth_sessions xs db m = db m
put buyer_users xs db buyer_users = xs
put buyer_users xs db m = db m
put device_bindings xs db device_bindings = xs
put device_bindings xs db m = db m
put favorites xs db favorites = xs
put favorites xs db m = db m
put histories xs db histories = xs
put histories xs db m = db m
put intents xs db intents = xs
put intents xs db m = db m

-- `type:int` of models.go: the columns `stock` and `reserved_stock` hold 32 bits.
abbrev pub In32 : ℤ → Type 0
In32 x = (negsuc 2147483647 ≤ℤ x) × (x <ℤ pos 2147483648)

-- What the columns of a table can hold.
abbrev pub Fits : (n : Name) → Row n → Type 0
Fits products p = In32 p.stock × In32 p.reserved_stock
Fits _ _ = Unit

-- No two rows of a table have the same key.
abbrev pub Keyed : (n : Name) → List (Row n) → Type 0
Keyed n [] = Unit
Keyed n (x ∷ xs) = All (λ y. row_id n y ≢ row_id n x) xs × Keyed n xs

-- A property of the rows of one table, with their keys.
abbrev pub Table : ((n : Name) → Row n → Type 0) → (n : Name) → List (Row n) → Type 0
Table I n xs = All (I n) xs × Keyed n xs

-- A property of the rows of each table, at every row, with the keys of the tables.
abbrev pub Holds : ((n : Name) → Row n → Type 0) → Db → Type 0
Holds I db = (n : Name) → Table I n (db n)
