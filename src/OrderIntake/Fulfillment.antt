-- ===== src/OrderIntake/Fulfillment.antt =====
-- apps/api/src/kernels/order-intake/domain/fulfillment.ts: how far the kitchen is with an order.
use merchant_operations_plat.Prelude.{ℕ, zero, suc, Bool, false, ◌||◌, List, [], ◌∷◌, if◌then◌else◌}
use merchant_operations_plat.Contracts.Orders.{
  OrderStatus, submitted, preparing, ready, served, same_status,
}

-- The announcements of the kitchen, `PROGRESS_BY_EVENT`.
pub data KitchenProgress : Type 0 where
  started readied handed_over : KitchenProgress

abbrev pub to_status : KitchenProgress → OrderStatus
to_status started = preparing
to_status readied = ready
to_status handed_over = served

-- `ORDER`
abbrev progress_order : List OrderStatus
progress_order = submitted ∷ OrderStatus.accepted ∷ preparing ∷ ready ∷ served ∷ []

abbrev index_of : OrderStatus → List OrderStatus → ℕ
index_of s [] = 0
index_of s (t ∷ ts) = let rest = index_of s ts in if same_status t s then 0 else suc rest

-- `ts.slice(0, n)`
abbrev take : ℕ → List OrderStatus → List OrderStatus
take zero ts = []
take (suc n) [] = []
take (suc n) (t ∷ ts) = t ∷ take n ts

abbrev pub includes : OrderStatus → List OrderStatus → Bool
includes s [] = false
includes s (t ∷ ts) = same_status t s || includes s ts

unfoldable pub statuses_before : KitchenProgress → List OrderStatus
statuses_before progress = take (index_of (to_status progress) progress_order) progress_order
