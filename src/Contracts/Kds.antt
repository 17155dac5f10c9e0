-- ===== src/Contracts/Kds.antt =====
-- packages/contracts/src/kds.ts: where a ticket came from, and how far the kitchen is with it.
use merchant_operations_plat.Prelude.{ℕ, Bool, ◌==◌}

pub data KitchenTicketSource : Type 0 where
  api manual pos self_order : KitchenTicketSource

pub data KitchenTicketStatus : Type 0 where
  new accepted preparing ready served canceled : KitchenTicketStatus

-- `a === b`, through the places in the enumeration.
abbrev source_code : KitchenTicketSource → ℕ
source_code api = 0
source_code manual = 1
source_code pos = 2
source_code self_order = 3

abbrev pub same_source : KitchenTicketSource → KitchenTicketSource → Bool
same_source a b = source_code a == source_code b

abbrev status_code : KitchenTicketStatus → ℕ
status_code new = 0
status_code accepted = 1
status_code preparing = 2
status_code ready = 3
status_code served = 4
status_code canceled = 5

abbrev pub same_status : KitchenTicketStatus → KitchenTicketStatus → Bool
same_status a b = status_code a == status_code b
