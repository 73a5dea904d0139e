-- ===== src/Stateflow.antt =====
-- backend/internal/stateflow/stateflow.go: which changes of status are allowed, and which fields of
-- a product may be edited in which status.
use second_hand_market_backe.Base.{Bool, true, false}
use second_hand_market_backe.Model.Status.{ProductStatus, OrderStatus, ReviewStatus}

-- The maps of the source; a missing key reads as `false`.
abbrev product_transitions : ProductStatus → ProductStatus → Bool
product_transitions ProductStatus.draft ProductStatus.on_shelf = true
product_transitions ProductStatus.on_shelf ProductStatus.off_shelf = true
product_transitions ProductStatus.on_shelf ProductStatus.locked = true
product_transitions ProductStatus.off_shelf ProductStatus.on_shelf = true
product_transitions _ _ = false

unfoldable pub can_transition_product : ProductStatus → ProductStatus → Bool
can_transition_product from to = product_transitions from to

abbrev order_transitions : OrderStatus → OrderStatus → Bool
order_transitions OrderStatus.created OrderStatus.completed = true
order_transitions OrderStatus.created OrderStatus.closed = true
order_transitions _ _ = false

unfoldable pub can_transition_order : OrderStatus → OrderStatus → Bool
can_transition_order from to = order_transitions from to

abbrev merchant_transitions : ReviewStatus → ReviewStatus → Bool
merchant_transitions ReviewStatus.pending ReviewStatus.approved = true
merchant_transitions ReviewStatus.pending ReviewStatus.rejected = true
merchant_transitions ReviewStatus.rejected ReviewStatus.pending = true
merchant_transitions _ _ = false

unfoldable pub can_transition_merchant : ReviewStatus → ReviewStatus → Bool
can_transition_merchant from to = merchant_transitions from to

-- The keys of the maps that `EditableFieldsByProductStatus` returns.
pub data EditableField : Type 0 where
  title description category_id price_cent original_price_cent : EditableField
  condition_level stock image_file_ids : EditableField

unfoldable pub editable_fields_by_product_status : ProductStatus → EditableField → Bool
editable_fields_by_product_status ProductStatus.draft _ = true
editable_fields_by_product_status ProductStatus.off_shelf _ = true
editable_fields_by_product_status ProductStatus.on_shelf EditableField.description = true
editable_fields_by_product_status ProductStatus.on_shelf EditableField.image_file_ids = true
editable_fields_by_product_status _ _ = false
