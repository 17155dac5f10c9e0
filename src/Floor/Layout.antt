-- ===== src/Floor/Layout.antt =====
-- apps/api/src/modules/floor/domain/layout.ts: what is wrong with the tables placed on a floor.
pub mod Cells
use merchant_operations_plat.Prelude.{
  ℕ, ◌≤◌, ◌<◌, ◌≡◌, ◌↔◌, inl, inr, refl, Bool, true, false, not, ◌&&◌, ◌||◌, List, [], ◌∷◌, ◌++◌,
  Uuid, arith, All, if◌then◌else◌, Bool-cases,
}
use merchant_operations_plat.Prelude.Int.{
  ℤ, pos, ◌+ℤ◌, ◌-ℤ◌, ◌≤ℤ◌, ◌<ℤ◌, ltb_ℤ, +ℤ_parts, -ℤ_parts, pos_part, neg_part, eq_of_parts,
}

pub record GridSize : Type 0 where
  pub cols : ℕ
  pub rows : ℕ

pub record PlacedTable : Type 0 where
  pub grid_h : ℕ
  pub grid_w : ℕ
  pub grid_x : ℤ
  pub grid_y : ℤ
  pub id : Uuid

pub data LayoutIssue : Type 0 where
  out_of_bounds : Uuid → LayoutIssue
  overlap : Uuid → Uuid → LayoutIssue

abbrev pub overlaps : PlacedTable → PlacedTable → Bool
overlaps first second =
    ltb_ℤ first.grid_x (second.grid_x +ℤ pos second.grid_w)
    && (ltb_ℤ second.grid_x (first.grid_x +ℤ pos first.grid_w)
        && (ltb_ℤ first.grid_y (second.grid_y +ℤ pos second.grid_h)
            && ltb_ℤ second.grid_y (first.grid_y +ℤ pos first.grid_h)))

abbrev pub is_out : GridSize → PlacedTable → Bool
is_out grid table =
    ltb_ℤ table.grid_x (pos 0)
    || (ltb_ℤ table.grid_y (pos 0)
        || (ltb_ℤ (pos grid.cols) (table.grid_x +ℤ pos table.grid_w)
            || ltb_ℤ (pos grid.rows) (table.grid_y +ℤ pos table.grid_h)))

-- `for (const other of tables.slice(index + 1))`
unfoldable pub overlaps_with : PlacedTable → List PlacedTable → List LayoutIssue
overlaps_with table [] = []
overlaps_with table (other ∷ rest) =
    if overlaps table other
    then overlap table.id other.id ∷ overlaps_with table rest
    else overlaps_with table rest

unfoldable pub layout_issues : GridSize → List PlacedTable → List LayoutIssue
unfolding overlaps_with
layout_issues grid [] = []
layout_issues grid (table ∷ rest) =
    (if is_out grid table then out_of_bounds table.id ∷ [] else [])
    ++ (overlaps_with table rest ++ layout_issues grid rest)
