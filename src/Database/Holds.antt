-- ===== src/Database/Holds.antt =====
-- A table may be replaced by rows that have its property: one lemma for every table.
use second_hand_market_backe.Base.{List}
use second_hand_market_backe.Model.Shop.{
  Product, ProductImage, ProductStockAdjustment, Order, OrderEvent, FileRecord, Category,
  OperationLog, IdempotencyRecord,
}
use second_hand_market_backe.Model.People.{
  Merchant, MerchantAccount, AdminUser, MerchantAuditLog, AuthSession, BuyerUser,
}
use second_hand_market_backe.Model.Buyer.{
  BuyerDeviceBinding, BuyerFavorite, BuyerHistory, BuyerIntent,
}
use second_hand_market_backe.Database.Tables.{
  Name, Row, Db, put, Holds, Table, products, product_images, stock_adjustments, orders,
  order_events, files, categories, operation_logs, idempotency_records, Name, merchants,
  merchant_accounts, admin_users, merchant_audit_logs, auth_sessions, buyer_users, device_bindings,
  favorites, histories, intents,
}

module _ (I : (n : Name) → Row n → Type 0) where
  Holds-put_products :
      (xs : List Product) (db : Db)
      → Table I products xs
      → Holds I db
      → Holds I (put products xs db)
  unfolding put
  Holds-put_products xs db new old products = new
  Holds-put_products xs db new old m = old m

  Holds-put_product_images :
      (xs : List ProductImage) (db : Db)
      → Table I product_images xs
      → Holds I db
      → Holds I (put product_images xs db)
  unfolding put
  Holds-put_product_images xs db new old product_images = new
  Holds-put_product_images xs db new old m = old m

  Holds-put_stock_adjustments :
      (xs : List ProductStockAdjustment) (db : Db)
      → Table I stock_adjustments xs
      → Holds I db
      → Holds I (put stock_adjustments xs db)
  unfolding put
  Holds-put_stock_adjustments xs db new old stock_adjustments = new
  Holds-put_stock_adjustments xs db new old m = old m

  Holds-put_orders :
      (xs : List Order) (db : Db) → Table I orders xs → Holds I db → Holds I (put orders xs db)
  unfolding put
  Holds-put_orders xs db new old orders = new
  Holds-put_orders xs db new old m = old m

  Holds-put_order_events :
      (xs : List OrderEvent) (db : Db)
      → Table I order_events xs
      → Holds I db
      → Holds I (put order_events xs db)
  unfolding put
  Holds-put_order_events xs db new old order_events = new
  Holds-put_order_events xs db new old m = old m

  Holds-put_files :
      (xs : List FileRecord) (db : Db) → Table I files xs → Holds I db → Holds I (put files xs db)
  unfolding put
  Holds-put_files xs db new old files = new
  Holds-put_files xs db new old m = old m

  Holds-put_categories :
      (xs : List Category) (db : Db)
      → Table I categories xs
      → Holds I db
      → Holds I (put categories xs db)
  unfolding put
  Holds-put_categories xs db new old categories = new
  Holds-put_categories xs db new old m = old m

  Holds-put_operation_logs :
      (xs : List OperationLog) (db : Db)
      → Table I operation_logs xs
      → Holds I db
      → Holds I (put operation_logs xs db)
  unfolding put
  Holds-put_operation_logs xs db new old operation_logs = new
  Holds-put_operation_logs xs db new old m = old m

  Holds-put_idempotency_records :
      (xs : List IdempotencyRecord) (db : Db)
      → Table I idempotency_records xs
      → Holds I db
      → Holds I (put idempotency_records xs db)
  unfolding put
  Holds-put_idempotency_records xs db new old idempotency_records = new
  Holds-put_idempotency_records xs db new old m = old m

  Holds-put_merchants :
      (xs : List Merchant) (db : Db)
      → Table I merchants xs
      → Holds I db
      → Holds I (put merchants xs db)
  unfolding put
  Holds-put_merchants xs db new old merchants = new
  Holds-put_merchants xs db new old m = old m

  Holds-put_merchant_accounts :
      (xs : List MerchantAccount) (db : Db)
      → Table I merchant_accounts xs
      → Holds I db
      → Holds I (put merchant_accounts xs db)
  unfolding put
  Holds-put_merchant_accounts xs db new old merchant_accounts = new
  Holds-put_merchant_accounts xs db new old m = old m

  Holds-put_admin_users :
      (xs : List AdminUser) (db : Db)
      → Table I admin_users xs
      → Holds I db
      → Holds I (put admin_users xs db)
  unfolding put
  Holds-put_admin_users xs db new old admin_users = new
  Holds-put_admin_users xs db new old m = old m

  Holds-put_merchant_audit_logs :
      (xs : List MerchantAuditLog) (db : Db)
      → Table I merchant_audit_logs xs
      → Holds I db
      → Holds I (put merchant_audit_logs xs db)
  unfolding put
  Holds-put_merchant_audit_logs xs db new old merchant_audit_logs = new
  Holds-put_merchant_audit_logs xs db new old m = old m

  Holds-put_auth_sessions :
      (xs : List AuthSession) (db : Db)
      → Table I auth_sessions xs
      → Holds I db
      → Holds I (put auth_sessions xs db)
  unfolding put
  Holds-put_auth_sessions xs db new old auth_sessions = new
  Holds-put_auth_sessions xs db new old m = old m

  Holds-put_buyer_users :
      (xs : List BuyerUser) (db : Db)
      → Table I buyer_users xs
      → Holds I db
      → Holds I (put buyer_users xs db)
  unfolding put
  Holds-put_buyer_users xs db new old buyer_users = new
  Holds-put_buyer_users xs db new old m = old m

  Holds-put_device_bindings :
      (xs : List BuyerDeviceBinding) (db : Db)
      → Table I device_bindings xs
      → Holds I db
      → Holds I (put device_bindings xs db)
  unfolding put
  Holds-put_device_bindings xs db new old device_bindings = new
  Holds-put_device_bindings xs db new old m = old m

  Holds-put_favorites :
      (xs : List BuyerFavorite) (db : Db)
      → Table I favorites xs
      → Holds I db
      → Holds I (put favorites xs db)
  unfolding put
  Holds-put_favorites xs db new old favorites = new
  Holds-put_favorites xs db new old m = old m

  Holds-put_histories :
      (xs : List BuyerHistory) (db : Db)
      → Table I histories xs
      → Holds I db
      → Holds I (put histories xs db)
  unfolding put
  Holds-put_histories xs db new old histories = new
  Holds-put_histories xs db new old m = old m

  Holds-put_intents :
      (xs : List BuyerIntent) (db : Db)
      → Table I intents xs
      → Holds I db
      → Holds I (put intents xs db)
  unfolding put
  Holds-put_intents xs db new old intents = new
  Holds-put_intents xs db new old m = old m

  -- Replacing one table by good rows keeps the others.
  pub Holds-put :
      (n : Name) (xs : List (Row n)) (db : Db) → Table I n xs → Holds I db → Holds I (put n xs db)
  unfolding put
  Holds-put products xs db new old = λ m. Holds-put_products xs db new old m
  Holds-put product_images xs db new old = λ m. Holds-put_product_images xs db new old m
  Holds-put stock_adjustments xs db new old = λ m. Holds-put_stock_adjustments xs db new old m
  Holds-put orders xs db new old = λ m. Holds-put_orders xs db new old m
  Holds-put order_events xs db new old = λ m. Holds-put_order_events xs db new old m
  Holds-put files xs db new old = λ m. Holds-put_files xs db new old m
  Holds-put categories xs db new old = λ m. Holds-put_categories xs db new old m
  Holds-put operation_logs xs db new old = λ m. Holds-put_operation_logs xs db new old m
  Holds-put idempotency_records xs db new old = λ m. Holds-put_idempotency_records xs db new old m
  Holds-put merchants xs db new old = λ m. Holds-put_merchants xs db new old m
  Holds-put merchant_accounts xs db new old = λ m. Holds-put_merchant_accounts xs db new old m
  Holds-put admin_users xs db new old = λ m. Holds-put_admin_users xs db new old m
  Holds-put merchant_audit_logs xs db new old = λ m. Holds-put_merchant_audit_logs xs db new old m
  Holds-put auth_sessions xs db new old = λ m. Holds-put_auth_sessions xs db new old m
  Holds-put buyer_users xs db new old = λ m. Holds-put_buyer_users xs db new old m
  Holds-put device_bindings xs db new old = λ m. Holds-put_device_bindings xs db new old m
  Holds-put favorites xs db new old = λ m. Holds-put_favorites xs db new old m
  Holds-put histories xs db new old = λ m. Holds-put_histories xs db new old m
  Holds-put intents xs db new old = λ m. Holds-put_intents xs db new old m
