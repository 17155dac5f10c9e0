-- ===== src/Contracts/Orders.antt =====
-- packages/contracts/src/orders.ts: the enumerations of an order and who may be paid.
use merchant_operations_plat.Prelude.{ℕ, Bool, true, false, ◌==◌}

pub data OrderSource : Type 0 where
  pos self_order manual external : OrderSource

pub data OrderType : Type 0 where
  dine_in takeaway : OrderType

pub data OrderStatus : Type 0 where
  draft submitted accepted preparing ready served completed canceled : OrderStatus

pub data OrderModerationStatus : Type 0 where
  not_required pending accepted rejected : OrderModerationStatus

abbrev pub is_order_approved : OrderModerationStatus → Bool
is_order_approved OrderModerationStatus.not_required = true
is_order_approved OrderModerationStatus.accepted = true
is_order_approved _ = false

-- `a === b` on statuses, through their places in the enumeration.
abbrev pub status_code : OrderStatus → ℕ
status_code draft = 0
status_code submitted = 1
status_code OrderStatus.accepted = 2
status_code preparing = 3
status_code ready = 4
status_code served = 5
status_code completed = 6
status_code canceled = 7

abbrev pub same_status : OrderStatus → OrderStatus → Bool
same_status a b = status_code a == status_code b

abbrev pub is_canceled : OrderStatus → Bool
is_canceled canceled = true
is_canceled _ = false

abbrev pub same_source : OrderSource → OrderSource → Bool
same_source pos pos = true
same_source self_order self_order = true
same_source manual manual = true
same_source external external = true
same_source _ _ = false

abbrev pub is_self_order : OrderSource → Bool
is_self_order self_order = true
is_self_order _ = false

abbrev pub is_submitted : OrderStatus → Bool
is_submitted submitted = true
is_submitted _ = false

abbrev pub is_pending : OrderModerationStatus → Bool
is_pending pending = true
is_pending _ = false
