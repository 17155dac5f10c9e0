-- ===== src/PosSales/RegisterSession.antt =====
-- apps/api/src/modules/pos-sales/domain/register-session.ts and refund-authority.ts.
pub mod Totals
use merchant_operations_plat.Prelude.{
  Bool, true, false, not, ◌&&◌, Option, none, some, List, [], ◌∷◌, if◌then◌else◌,
}
use merchant_operations_plat.Prelude.Int.{ℤ, pos, ◌+ℤ◌, ◌-ℤ◌, ◌==ℤ◌}
use merchant_operations_plat.Database.{CashMovement, Direction, cash_in, cash_out}

pub record CashTotals : Type 0 where
  pub cash_in_minor : ℤ
  pub cash_out_minor : ℤ
  pub expected_cash_minor : ℤ

-- The loop over the movements, from the two sums reached so far.
unfoldable pub add_movements : ℤ → ℤ → List CashMovement → ℤ × ℤ
add_movements ins outs [] = (ins, outs)
add_movements ins outs (m ∷ ms) = elim m.direction [
  | cash_in ↦ add_movements (ins +ℤ m.amount_minor) outs ms
  | cash_out ↦ add_movements ins (outs +ℤ m.amount_minor) ms
]

unfoldable pub total_cash : ℤ → List CashMovement → ℤ → ℤ → CashTotals
unfolding add_movements
total_cash opening movements sales refunds =
    let (ins, outs) = add_movements (pos 0) (pos 0) movements in
    record {
      cash_in_minor = ins;
      cash_out_minor = outs;
      expected_cash_minor = opening +ℤ sales -ℤ refunds +ℤ ins -ℤ outs;
    }

unfoldable pub cash_variance : ℤ → ℤ → ℤ
cash_variance counted expected = counted -ℤ expected

pub data CloseDecision : Type 0 where
  balanced : ℤ → CloseDecision
  variance_reason_required : CloseDecision

-- `has_reason` is `!!varianceReason?.trim()`.
unfoldable pub decide_close : ℤ → ℤ → Bool → CloseDecision
unfolding cash_variance
decide_close counted expected has_reason =
    let variance = cash_variance counted expected in
    if not (variance ==ℤ pos 0) && not has_reason
    then variance_reason_required
    else balanced variance

pub data RefundAuthority : Type 0 where
  approval own refused : RefundAuthority

-- `may_refund` is whether the person at the cashier holds the permission.
unfoldable refund_authority : Bool → Bool → RefundAuthority
refund_authority may_refund has_approval =
    if may_refund then own else if has_approval then approval else refused
