-- ===== src/Floor/Runs/Always.antt =====
-- Whatever the staff and the guests do, in whatever order, no table has two visits.
use merchant_operations_plat.Prelude.{List, [], ◌∷◌}
use merchant_operations_plat.Floor.{FloorDb}
use merchant_operations_plat.Floor.Seated.{IsSeated}
use merchant_operations_plat.Floor.Runs.{
  Command, seat_at, move_to, let_leave, clean_up, set_rules, apply, run,
}
use merchant_operations_plat.Floor.Runs.Seating.{open_table-IsSeated}
use merchant_operations_plat.Floor.Runs.Moving.{move-IsSeated}
use merchant_operations_plat.Floor.Runs.Leaving.{close-IsSeated}
use merchant_operations_plat.Floor.Runs.Cleaning.{clean-IsSeated, change_policy-IsSeated}

apply-IsSeated : (c : Command) (db : FloorDb) → IsSeated db → IsSeated (apply c db)
unfolding apply
apply-IsSeated (seat_at tenant outlet input origin) db v =
    open_table-IsSeated tenant outlet input origin db v
apply-IsSeated (move_to tenant outlet id table origin) db v =
    move-IsSeated tenant outlet id table origin db v
apply-IsSeated (let_leave orders tenant outlet id origin) db v =
    close-IsSeated orders tenant outlet id origin db v
apply-IsSeated (clean_up tenant outlet table origin) db v =
    clean-IsSeated tenant outlet table origin db v
apply-IsSeated (set_rules tenant outlet change origin) db v =
    change_policy-IsSeated tenant outlet change origin db v

-- Through any sequence of seatings, moves, closes, clean-ups and changes of the policy, whichever of
-- them are refused, each table is held by one visit at most, a visit that is live or whose tables
-- wait to be cleaned, and no two visits of a tenant have one identifier, where that held before.
pub run-IsSeated : (cs : List Command) (db : FloorDb) → IsSeated db → IsSeated (run cs db)
unfolding run
run-IsSeated [] db v = v
run-IsSeated (c ∷ cs) db v = run-IsSeated cs (apply c db) (apply-IsSeated c db v)
