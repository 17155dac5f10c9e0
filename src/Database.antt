-- ===== src/Database.antt =====
-- The tables of packages/database/prisma/schema.prisma that orders, bills, sales, shifts and
-- kitchen tickets live in, each as the list of its rows in the order of their creation.
pub mod Faults
pub mod Action
pub mod Tables
pub mod Transactions
pub mod Samples
use merchant_operations_plat.Prelude.{ℕ, Bool, Option, List, Uuid, Text, Instant}
use merchant_operations_plat.Prelude.Int.{ℤ}
use merchant_operations_plat.Contracts.Orders.{
  OrderSource, OrderType, OrderStatus, OrderModerationStatus,
}
use merchant_operations_plat.Contracts.Billing.{
  BillStatus, PaymentMethod, PaymentStatus, SaleStatus,
}
use merchant_operations_plat.Kds.Ticket.{Kitchen}

pub record OrderItemModifier : Type 0 where
  pub group_name_snapshot : Text
  pub option_name_snapshot : Text
  pub price_delta_minor : ℤ

pub record OrderItem : Type 0 where
  pub line_total_minor : ℤ
  pub modifiers : List OrderItemModifier
  pub name_snapshot : Text
  pub note : Option Text
  pub product_id : Uuid
  pub quantity : ℕ
  pub unit_price_minor : ℤ
  pub variant_name_snapshot : Option Text

-- `Order`, with the lines that two tables of their own hold.
pub record Order : Type 0 where
  pub id : Uuid
  pub tenant_id : Uuid
  pub outlet_id : Uuid
  pub order_number : ℕ
  pub source : OrderSource
  pub order_type : OrderType
  pub status : OrderStatus
  pub moderation_status : OrderModerationStatus
  pub moderated_at : Option Instant
  pub moderated_by : Option Uuid
  pub currency : Text
  pub note : Option Text
  pub submitted_at : Option Instant
  pub actor_id : Option Uuid
  pub canceled_at : Option Instant
  pub canceled_by : Option Uuid
  pub cancel_reason : Option Text
  pub idempotency_key : Text
  pub table_session_id : Option Uuid
  pub items : List OrderItem

pub data Direction : Type 0 where
  cash_in cash_out : Direction

pub record CashMovement : Type 0 where
  pub id : Uuid
  pub amount_minor : ℤ
  pub direction : Direction
  pub idempotency_key : Text
  pub reason : Text
  pub actor_id : Uuid

pub data SessionStatus : Type 0 where
  opened closed : SessionStatus

-- `PosRegisterSession`, with its cash movements.
pub record RegisterSession : Type 0 where
  pub id : Uuid
  pub tenant_id : Uuid
  pub outlet_id : Uuid
  pub status : SessionStatus
  pub opened_by : Uuid
  pub opened_at : Instant
  pub opening_cash_minor : ℤ
  pub closed_by : Option Uuid
  pub closed_at : Option Instant
  pub expected_cash_minor : Option ℤ
  pub counted_cash_minor : Option ℤ
  pub variance_minor : Option ℤ
  pub variance_reason : Option Text
  pub movements : List CashMovement

pub record Bill : Type 0 where
  pub id : Uuid
  pub tenant_id : Uuid
  pub outlet_id : Uuid
  pub order_id : Uuid
  pub currency : Text
  pub subtotal_minor : ℤ
  pub discount_minor : ℤ
  pub tax_minor : ℤ
  pub service_charge_minor : ℤ
  pub rounding_minor : ℤ
  pub charges_included : Bool
  pub tax_rate_bp : ℕ
  pub service_charge_rate_bp : ℕ
  pub total_minor : ℤ
  pub paid_minor : ℤ
  pub status : BillStatus
  pub table_session_id : Option Uuid

pub record Payment : Type 0 where
  pub id : Uuid
  pub tenant_id : Uuid
  pub outlet_id : Uuid
  pub register_session_id : Option Uuid
  pub method : PaymentMethod
  pub amount_minor : ℤ
  pub tendered_minor : Option ℤ
  pub status : PaymentStatus
  pub reference : Option Text
  pub actor_id : Option Uuid
  pub confirmed_by : Option Uuid
  pub confirmed_at : Option Instant
  pub created_at : Instant
  pub idempotency_key : Text
  pub table_session_id : Option Uuid

pub record Allocation : Type 0 where
  pub tenant_id : Uuid
  pub payment_id : Uuid
  pub bill_id : Uuid
  pub amount_minor : ℤ

pub record Sale : Type 0 where
  pub id : Uuid
  pub tenant_id : Uuid
  pub outlet_id : Uuid
  pub sale_number : ℕ
  pub bill_id : Uuid
  pub status : SaleStatus
  pub total_minor : ℤ
  pub completed_at : Option Instant

pub record Refund : Type 0 where
  pub id : Uuid
  pub tenant_id : Uuid
  pub outlet_id : Uuid
  pub sale_id : Uuid
  pub payment_id : Uuid
  pub register_session_id : Uuid
  pub method : PaymentMethod
  pub amount_minor : ℤ
  pub reason : Text
  pub actor_id : Uuid
  pub approved_by : Option Uuid
  pub idempotency_key : Text
  pub created_at : Instant

-- A row of `OrderNumberCounter` or `SaleNumberCounter`.
pub record Counter : Type 0 where
  pub tenant_id : Uuid
  pub outlet_id : Uuid
  pub last_number : ℕ

pub data AuditAction : Type 0 where
  order_submit order_cancel order_guest_accept order_guest_reject : AuditAction
  payment_record payment_claim payment_claim_reject sale_refund : AuditAction
  register_session_open register_session_close cash_movement_record : AuditAction

pub record AuditEntry : Type 0 where
  pub action : AuditAction
  pub actor_id : Option Uuid
  pub entity_id : Uuid
  pub outlet_id : Uuid
  pub tenant_id : Uuid

pub data EventType : Type 0 where
  order_submitted order_canceled payment_recorded payment_claimed payment_claim_rejected : EventType
  sale_completed sale_refunded shift_opened shift_closed : EventType
  ticket_started ticket_ready ticket_served : EventType

pub record OutboxEvent : Type 0 where
  pub type : EventType
  pub aggregate_id : Uuid
  pub outlet_id : Uuid
  pub tenant_id : Uuid

-- `next_id` stands for the database's generated identifiers: each is new.
pub record Db : Type 0 where
  pub next_id : ℕ
  pub orders : List Order
  pub order_counters : List Counter
  pub register_sessions : List RegisterSession
  pub bills : List Bill
  pub payments : List Payment
  pub allocations : List Allocation
  pub sales : List Sale
  pub sale_counters : List Counter
  pub refunds : List Refund
  pub kitchen : Kitchen
  pub audit_log : List AuditEntry
  pub outbox : List OutboxEvent
