-- ===== src/Database/Samples.antt =====
-- A small shop for tests: an open shift, an order, and its bill, payment and sale.
use merchant_operations_plat.Prelude.{true, none, some, [], ◌∷◌}
use merchant_operations_plat.Prelude.Int.{pos}
use merchant_operations_plat.Contracts.Orders.{
  OrderSource, takeaway, OrderStatus, OrderModerationStatus,
}
use merchant_operations_plat.Contracts.Billing.{BillStatus, SaleStatus}
use merchant_operations_plat.Database.{Db, Order, RegisterSession, SessionStatus, Bill, Sale}

abbrev pub sample_order : Order
sample_order = record {
  id = 3;
  tenant_id = 1;
  outlet_id = 2;
  order_number = 1;
  source = OrderSource.pos;
  order_type = takeaway;
  status = OrderStatus.submitted;
  moderation_status = OrderModerationStatus.not_required;
  moderated_at = none;
  moderated_by = none;
  currency = 0;
  note = none;
  submitted_at = some 0;
  actor_id = some 9;
  canceled_at = none;
  canceled_by = none;
  cancel_reason = none;
  idempotency_key = 50;
  table_session_id = none;
  items = [];
}

abbrev pub sample_shift : RegisterSession
sample_shift = record {
  id = 4;
  tenant_id = 1;
  outlet_id = 2;
  status = SessionStatus.opened;
  opened_by = 9;
  opened_at = 0;
  opening_cash_minor = pos 500;
  closed_by = none;
  closed_at = none;
  expected_cash_minor = none;
  counted_cash_minor = none;
  variance_minor = none;
  variance_reason = none;
  movements = [];
}

abbrev pub sample_bill : Bill
sample_bill = record {
  id = 5;
  tenant_id = 1;
  outlet_id = 2;
  order_id = 3;
  currency = 0;
  subtotal_minor = pos 100;
  discount_minor = pos 0;
  tax_minor = pos 0;
  service_charge_minor = pos 0;
  rounding_minor = pos 0;
  charges_included = true;
  tax_rate_bp = 0;
  service_charge_rate_bp = 0;
  total_minor = pos 100;
  paid_minor = pos 100;
  status = BillStatus.paid;
  table_session_id = none;
}

abbrev sample_sale : Sale
sample_sale = record {
  id = 7;
  tenant_id = 1;
  outlet_id = 2;
  sale_number = 1;
  bill_id = 5;
  status = SaleStatus.completed;
  total_minor = pos 100;
  completed_at = some 0;
}

-- The order waits to be paid in the open shift.
abbrev pub unpaid_shop : Db
unpaid_shop = record {
  next_id = 10;
  orders = sample_order ∷ [];
  order_counters = [];
  register_sessions = sample_shift ∷ [];
  bills = [];
  payments = [];
  allocations = [];
  sales = [];
  sale_counters = [];
  refunds = [];
  kitchen = record { stations = []; tickets = []; history = [] };
  audit_log = [];
  outbox = [];
}

-- The order is paid and sold.
abbrev pub paid_shop : Db
paid_shop = record unpaid_shop { bills = sample_bill ∷ []; sales = sample_sale ∷ [] }
