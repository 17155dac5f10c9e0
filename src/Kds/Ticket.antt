-- ===== src/Kds/Ticket.antt =====
-- apps/api/src/modules/kds/domain/kitchen-ticket.ts and the kitchen's tables
-- (packages/database/prisma/schema.prisma).
use merchant_operations_plat.Prelude.{ℕ, Bool, Option, List, Uuid, Text, Instant}
use merchant_operations_plat.Digits.{Chars}
use merchant_operations_plat.Contracts.Kds.{KitchenTicketSource, KitchenTicketStatus}

pub record KitchenTicketItem : Type 0 where
  pub allergy_note : Option Text
  pub modifiers : List Text
  pub name : Text
  pub note : Option Text
  pub quantity : ℕ

-- `KdsTicket`, with its items.
pub record KitchenTicket : Type 0 where
  pub id : Uuid
  pub tenant_id : Uuid
  pub outlet_id : Uuid
  pub station_id : Uuid
  pub source : KitchenTicketSource
  pub source_reference : Text
  pub order_label : Chars
  pub table_label : Option Text
  pub status : KitchenTicketStatus
  pub received_at : Instant
  pub accepted_at : Option Instant
  pub started_at : Option Instant
  pub ready_at : Option Instant
  pub served_at : Option Instant
  pub canceled_at : Option Instant
  pub updated_at : Instant
  pub items : List KitchenTicketItem

pub record KitchenStation : Type 0 where
  pub id : Uuid
  pub tenant_id : Uuid
  pub outlet_id : Uuid
  pub name : Text
  pub is_default : Bool

pub record StatusHistory : Type 0 where
  pub ticket_id : Uuid
  pub tenant_id : Uuid
  pub from_status : Option KitchenTicketStatus
  pub to_status : KitchenTicketStatus
  pub actor_id : Option Uuid
  pub occurred_at : Instant

-- The tables of the kitchen.
pub record Kitchen : Type 0 where
  pub stations : List KitchenStation
  pub tickets : List KitchenTicket
  pub history : List StatusHistory
