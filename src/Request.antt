-- ===== src/Request.antt =====
-- What a handler knows of its request, and the helpers of backend/internal/app/server.go and
-- ownership.go that the handlers share.
pub mod Keeps
use second_hand_market_backe.Base.{
  ℕ, String, Bool, true, false, not, ◌&&◌, Option, none, some, List, [], ◌∷◌, ◌==◌, if◌then◌else◌,
}
use second_hand_market_backe.Errors.{
  Error, Result, ok, err, biz, db, opaque, internal, forbidden, unauthorized, map_database_error,
}
use second_hand_market_backe.Model.Status.{Time, UserType, Role, Scope}
use second_hand_market_backe.Model.Shop.{Product, Order, OperationLog, Value}
use second_hand_market_backe.Database.Tables.{Name, products, orders, operation_logs}
use second_hand_market_backe.Database.Gorm.{Action, Gorm}
use second_hand_market_backe.Database.Actions.{
  pure, raise, ◌>>=◌, ◌>>◌, fail_if, map_error, attempt, first, create, update, lift,
}

-- `common.Actor`
pub record Actor : Type 0 where
  pub user_id : ℕ
  pub user_type : UserType
  pub role : Role
  pub merchant_id : ℕ
  pub scope : Scope
  pub session_id : ℕ

-- A map from texts to values, as handlers return it and as log entries carry it.
abbrev pub Fields : Type 0
Fields = List (String × Value)

-- `encoding/json` and the hash, at the values that the handlers give them.
pub record Codec : Type 0 where
  pub marshal : Fields → Option (List ℕ)
  pub unmarshal : List ℕ → Option (Option Fields)
  pub sha256 : List ℕ → List ℕ

-- The request: who makes it (as the authentication has set it), its headers, the clock (its
-- readings in order) and the business number that `common.BuildBizNo` draws.
pub record Context : Type 0 where
  pub actor : Option Actor
  pub request_id : String
  pub method : String
  pub full_path : String
  pub client_ip : String
  pub user_agent : String
  pub idempotency_key : String
  pub now : ℕ → Time
  pub biz_no : String

-- A row with a `deleted_at` is live while it is not set; gorm adds this to every statement.
abbrev pub is_live : Option Time → Bool
is_live none = true
is_live (some t) = false

abbrev pub is_some : {A : Type 0} → Option A → Bool
is_some none = false
is_some (some a) = true

-- `actorFromContext`
unfoldable pub actor_from_context : Context → Result Actor
actor_from_context c = elim c.actor [ some a ↦ ok a | none ↦ err (biz unauthorized) ]

-- The arguments of an audit entry.
pub record AuditEntry : Type 0 where
  pub resource_type : String
  pub resource_id : ℕ
  pub action : String
  pub from_status : Option String
  pub to_status : Option String
  pub code : ℕ
  pub merchant_id : Option ℕ
  pub detail : Fields

-- `type inventoryAudit` of inventory_service.go.
abbrev pub Audit : Type 0
Audit = AuditEntry → Action (Unit {0})

-- The zero value of an actor, which `GetActor` gives where none is set.
abbrev no_actor : Actor
no_actor = record {
  user_id = 0;
  user_type = UserType.other "";
  role = Role.other "";
  merchant_id = 0;
  scope = Scope.other "";
  session_id = 0;
}

module _ (g : Gorm) (j : Codec) (c : Context) where
  -- The row that `persistOperationLog` writes.
  log_row : AuditEntry → List ℕ → OperationLog
  log_row e payload =
      let a : Actor = elim c.actor [ some a ↦ a | none ↦ no_actor ] in
      record {
        id = 0;
        request_id = c.request_id;
        operator_type = a.user_type;
        operator_id = a.user_id;
        merchant_id = e.merchant_id;
        action = e.action;
        resource_type = e.resource_type;
        resource_id = e.resource_id;
        from_status = e.from_status;
        to_status = e.to_status;
        method = c.method;
        path = c.full_path;
        ip = c.client_ip;
        user_agent = c.user_agent;
        result_code = e.code;
        detail_json = payload;
      }

  unfoldable pub persist_operation_log : Audit
  unfolding log_row
  persist_operation_log e = elim (j.marshal e.detail) [
    | none ↦ raise (db (record { kind = opaque; message = [] }))
    | some payload ↦ create g operation_logs (log_row e payload) >> pure tt
  ]

  unfoldable pub inventory_audit : Audit
  unfolding persist_operation_log
  inventory_audit = persist_operation_log

  -- An error of the log is reported, and the handler goes on.
  unfoldable pub write_operation_log : Audit
  unfolding persist_operation_log
  write_operation_log e = attempt (persist_operation_log e) >> pure tt

module _ (g : Gorm) where
  unfoldable pub load_owned_product_for_update : ℕ → ℕ → Action Product
  load_owned_product_for_update product_id merchant_id = do
    product ←
        map_error map_database_error
          (first g products (λ r. r.id == product_id && is_live r.deleted_at))
    fail_if (not (product.merchant_id == merchant_id)) forbidden
    pure product

  unfoldable pub load_owned_order_for_update : ℕ → ℕ → Action Order
  load_owned_order_for_update order_id merchant_id = do
    order ←
        map_error map_database_error
          (first g orders (λ r. r.id == order_id && is_live r.deleted_at))
    fail_if (not (order.merchant_id == merchant_id)) forbidden
    pure order

  -- `tx.Save(&product)` and `tx.Save(&order)`: every column of the live row with this key.
  unfoldable pub save_product : Product → Action ℕ
  save_product p = update g products (λ r. r.id == p.id && is_live r.deleted_at) (λ _. p)

  unfoldable pub save_order : Order → Action ℕ
  save_order o = update g orders (λ r. r.id == o.id && is_live r.deleted_at) (λ _. o)
