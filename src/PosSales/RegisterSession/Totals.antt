-- ===== src/PosSales/RegisterSession/Totals.antt =====
-- What the drawer of a shift should hold, and when a shift may close
-- (apps/api/src/modules/pos-sales/domain/register-session.ts).
use merchant_operations_plat.Prelude.{
  ◌≡◌, ◌≢◌, ◌↔◌, ◌⊎◌, inl, inr, Bool, false, List, [], ◌∷◌, ◌++◌, refl, ap, sym, ◌∙◌, Bool-cases,
}
use merchant_operations_plat.Prelude.Int.{
  ℤ, pos, ◌+ℤ◌, ◌-ℤ◌, ◌==ℤ◌, int_laws, ==ℤ_iff, +ℤ_assoc, +ℤ_comm,
}
use merchant_operations_plat.Database.{CashMovement, Direction, cash_in, cash_out}
use merchant_operations_plat.PosSales.RegisterSession.{
  balanced, variance_reason_required, add_movements, total_cash, cash_variance, decide_close,
}

-- What a movement adds to the drawer.
abbrev pub effect : CashMovement → ℤ
effect m = elim m.direction [ cash_in ↦ m.amount_minor | cash_out ↦ pos 0 -ℤ m.amount_minor ]

abbrev pub net : List CashMovement → ℤ
net [] = pos 0
net (m ∷ ms) = effect m +ℤ net ms

Direction-cases : (d : Direction) → (d ≡ cash_in) ⊎ (d ≡ cash_out)
Direction-cases cash_in = inl refl
Direction-cases cash_out = inr refl

add_movements-net :
    (ins outs : ℤ) (ms : List CashMovement)
    → let (i, o) = add_movements ins outs ms in i -ℤ o ≡ ins -ℤ outs +ℤ net ms
unfolding add_movements
add_movements-net ins outs [] = omega int_laws
add_movements-net ins outs (m ∷ ms) = elim (Direction-cases m.direction) [
  | inl e ↦ rw e (grind (int_laws, add_movements-net (ins +ℤ m.amount_minor) outs ms))
  | inr e ↦ rw e (grind (int_laws, add_movements-net ins (outs +ℤ m.amount_minor) ms))
]

-- The drawer holds the opening cash, the cash sales less the cash refunds, and what every movement
-- put in or took out; the two sums that are shown account for the movements.
pub total_cash_lem :
    (opening sales refunds : ℤ) (ms : List CashMovement)
    → let t = total_cash opening ms sales refunds in
      (t.expected_cash_minor ≡ opening +ℤ (sales -ℤ refunds) +ℤ net ms)
      × (t.cash_in_minor -ℤ t.cash_out_minor ≡ net ms)
unfolding total_cash
total_cash_lem opening sales refunds ms = grind (int_laws, add_movements-net (pos 0) (pos 0) ms)

net-append : (ms : List CashMovement) (m : CashMovement) → net (ms ++ m ∷ []) ≡ net ms +ℤ effect m
net-append [] m = +ℤ_comm (effect m) (pos 0)
net-append (x ∷ ms) m =
    ap (λ n. effect x +ℤ n) (net-append ms m) ∙ sym (+ℤ_assoc (effect x) (net ms) (effect m))

-- A movement that is recorded changes what the drawer should hold by its own effect.
pub total_cash-append :
    (opening sales refunds : ℤ) (ms : List CashMovement) (m : CashMovement)
    → (total_cash opening (ms ++ m ∷ []) sales refunds).expected_cash_minor
      ≡ (total_cash opening ms sales refunds).expected_cash_minor +ℤ effect m
total_cash-append opening sales refunds ms m =
    let start = opening +ℤ (sales -ℤ refunds) in
    (total_cash_lem opening sales refunds (ms ++ m ∷ [])).0
    ∙ ap (λ n. start +ℤ n) (net-append ms m)
    ∙ sym (+ℤ_assoc start (net ms) (effect m))
    ∙ ap (λ n. n +ℤ effect m) (sym (total_cash_lem opening sales refunds ms).0)

-- A shift closes without a reason exactly where the counted cash is the expected cash, and the
-- variance that is kept explains the count.
pub decide_close_lem :
    (counted expected : ℤ) (has_reason : Bool)
    → (decide_close counted expected has_reason ≡ variance_reason_required
        ↔ (counted ≢ expected) × (has_reason ≡ false))
      × ((v : ℤ) → decide_close counted expected has_reason ≡ balanced v → expected +ℤ v ≡ counted)
unfolding decide_close cash_variance
decide_close_lem counted expected has_reason =
    elim (Bool-cases (cash_variance counted expected ==ℤ pos 0)) [
      | inl e ↦ grind (int_laws, ==ℤ_iff)
      | inr e ↦ grind (int_laws, ==ℤ_iff)
    ]
