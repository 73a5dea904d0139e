-- ===== src/Request/Keeps.antt =====
-- What the shared helpers of the handlers keep, and what is known of the rows that they load.
use second_hand_market_backe.Base.{
  ℕ, ◌≡◌, Bool, true, false, not, ◌&&◌, arith, ◌==◌, Option-cases, inl, inr, sym,
}
use second_hand_market_backe.Errors.{map_database_error}
use second_hand_market_backe.Model.Shop.{Product, Order}
use second_hand_market_backe.Database.Tables.{Row, products, orders, operation_logs, Fits}
use second_hand_market_backe.Database.Gorm.{Gorm, IsGorm}
use second_hand_market_backe.Database.Keeps.{
  RowProperty, Keeps, Any, Keeps-bind, Keeps-pure, Keeps-raise, Keeps-fail_if, Keeps-map_error,
  Keeps-first, Keeps-create, Keeps-update, Keeps-attempt,
}
use second_hand_market_backe.Request.{
  Context, Codec, Audit, AuditEntry, is_live, persist_operation_log, inventory_audit,
  write_operation_log, load_owned_product_for_update, load_owned_order_for_update, save_product,
  save_order,
}

-- An audit that keeps the property, whatever the entry.
abbrev pub KeepsAudit : RowProperty → Audit → Type 0
KeepsAudit I audit = (e : AuditEntry) → Keeps I (audit e) Any

-- What a loaded row is known to be.
pub record IsLoaded (I : RowProperty) (id : ℕ) (merchant_id : ℕ) (p : Product) : Type 0 where
  pub key : p.id ≡ id
  pub live : is_live p.deleted_at ≡ true
  pub owned : p.merchant_id ≡ merchant_id
  pub good : I products p

pub record IsLoadedOrder (I : RowProperty) (id : ℕ) (merchant_id : ℕ) (o : Order) : Type 0 where
  pub key : o.id ≡ id
  pub live : is_live o.deleted_at ≡ true
  pub owned : o.merchant_id ≡ merchant_id
  pub good : I orders o

-- The two halves of the test of a statement on one live row.
live_row : (a b : ℕ) (l : Bool) → (a == b && l) ≡ true → (a ≡ b) × (l ≡ true)
live_row a b l h = ground arith

own : (a b : ℕ) → not (a == b) ≡ false → a ≡ b
own a b h = ground arith

module _ (g : Gorm) (laws : IsGorm g) (I : RowProperty) where
  pub Keeps-load_owned_product :
      (id merchant_id : ℕ)
      → Keeps I (load_owned_product_for_update g id merchant_id) (IsLoaded I id merchant_id)
  unfolding load_owned_product_for_update
  Keeps-load_owned_product id merchant_id =
      Keeps-bind (Keeps-map_error map_database_error (Keeps-first g laws I products _)) (λ p found.
        Keeps-bind (Keeps-fail_if _ _) (λ _ own_row. Keeps-pure p (
          let both = live_row p.id id (is_live p.deleted_at) found.0 in
          record {
            key = both.0;
            live = both.1;
            owned = own p.merchant_id merchant_id own_row;
            good = found.1;
          })))

  pub Keeps-load_owned_order :
      (id merchant_id : ℕ)
      → Keeps I (load_owned_order_for_update g id merchant_id) (IsLoadedOrder I id merchant_id)
  unfolding load_owned_order_for_update
  Keeps-load_owned_order id merchant_id =
      Keeps-bind (Keeps-map_error map_database_error (Keeps-first g laws I orders _)) (λ o found.
        Keeps-bind (Keeps-fail_if _ _) (λ _ own_row. Keeps-pure o (
          let both = live_row o.id id (is_live o.deleted_at) found.0 in
          record {
            key = both.0;
            live = both.1;
            owned = own o.merchant_id merchant_id own_row;
            good = found.1;
          })))

  pub Keeps-save_product :
      (p : Product) → (Fits products p → I products p) → Keeps I (save_product g p) Any
  unfolding save_product
  Keeps-save_product p good =
      Keeps-update g laws I products _ _ (λ x _ _ f. good f)
        (λ x e. sym (live_row x.id p.id (is_live x.deleted_at) e).0)

  pub Keeps-save_order : (o : Order) → I orders o → Keeps I (save_order g o) Any
  unfolding save_order
  Keeps-save_order o good =
      Keeps-update g laws I orders _ _ (λ x _ _ _. good)
        (λ x e. sym (live_row x.id o.id (is_live x.deleted_at) e).0)

  -- The log's rows carry no property that a request could break.
  module _ (j : Codec) (c : Context) (logs : (r : Row operation_logs) → I operation_logs r) where
    pub Keeps-persist_operation_log : KeepsAudit I (persist_operation_log g j c)
    unfolding persist_operation_log
    Keeps-persist_operation_log e = elim (Option-cases (j.marshal e.detail)) [
      | inl none_made ↦ rw (none_made, persist_operation_log) (Keeps-raise _)
      | inr (payload, made) ↦
          rw (made, persist_operation_log)
            (Keeps-bind (Keeps-create g laws I operation_logs _ (λ i _. logs _))
              (λ _ _. Keeps-pure tt tt))
    ]

    pub Keeps-inventory_audit : KeepsAudit I (inventory_audit g j c)
    unfolding inventory_audit
    Keeps-inventory_audit e = Keeps-persist_operation_log e

    pub Keeps-write_operation_log : KeepsAudit I (write_operation_log g j c)
    unfolding write_operation_log
    Keeps-write_operation_log e =
        Keeps-bind (Keeps-attempt (Keeps-persist_operation_log e)) (λ _ _. Keeps-pure tt tt)
