-- ===== src/Floor/Layout/Cells.antt =====
-- What layoutIssues (apps/api/src/modules/floor/domain/layout.ts) means for the cells of the grid.
use merchant_operations_plat.Prelude.{
  ℕ, ◌<◌, ◌≡◌, ◌↔◌, inl, inr, refl, Bool, true, false, ◌&&◌, List, [], ◌∷◌, ◌++◌, arith, All,
  if◌then◌else◌, Bool-cases,
}
use merchant_operations_plat.Prelude.Int.{ℤ, pos, ◌+ℤ◌, ◌≤ℤ◌, ◌<ℤ◌, ltb_ℤ, +ℤ_parts}
use merchant_operations_plat.Floor.Layout.{
  GridSize, PlacedTable, LayoutIssue, overlaps, is_out, overlaps_with, layout_issues,
}

-- A cell of the plane that the table takes.
abbrev pub Covers : PlacedTable → ℤ → ℤ → Type 0
Covers t x y =
    (t.grid_x ≤ℤ x)
    × (x <ℤ t.grid_x +ℤ pos t.grid_w)
    × (t.grid_y ≤ℤ y)
    × (y <ℤ t.grid_y +ℤ pos t.grid_h)

abbrev pub IsCell : GridSize → ℤ → ℤ → Type 0
IsCell grid x y = (pos 0 ≤ℤ x) × (x <ℤ pos grid.cols) × (pos 0 ≤ℤ y) × (y <ℤ pos grid.rows)

abbrev pub IsOnGrid : GridSize → PlacedTable → Type 0
IsOnGrid grid t = (x y : ℤ) → Covers t x y → IsCell grid x y

-- No cell is taken by both.
abbrev pub AreApart : PlacedTable → PlacedTable → Type 0
AreApart s t = (x y : ℤ) → Covers s x y → Covers t x y → ⊥

-- All tables lie on the grid, and no cell is taken twice.
abbrev pub IsLaidOut : GridSize → List PlacedTable → Type 0
IsLaidOut grid [] = Unit
IsLaidOut grid (t ∷ ts) = IsOnGrid grid t × All (AreApart t) ts × IsLaidOut grid ts

-- A table takes at least one cell.
abbrev pub HasCells : PlacedTable → Type 0
HasCells t = (0 < t.grid_w) × (0 < t.grid_h)

abbrev later_of : ℤ → ℤ → ℤ
later_of a b = if ltb_ℤ a b then b else a

lt→ltb_ℤ : (a b : ℤ) → a <ℤ b → ltb_ℤ a b ≡ true
lt→ltb_ℤ a b h = ground arith

is_out_iff :
    (grid : GridSize) (t : PlacedTable) → HasCells t → (is_out grid t ≡ false) ↔ IsOnGrid grid t
is_out_iff grid t h = (
  (λ e x y c. ground (arith, +ℤ_parts t.grid_x (pos t.grid_w), +ℤ_parts t.grid_y (pos t.grid_h))),
  (λ on. ground (
    arith,
    +ℤ_parts t.grid_x (pos t.grid_w),
    +ℤ_parts t.grid_y (pos t.grid_h),
    +ℤ_parts (t.grid_x +ℤ pos t.grid_w) (ℤ.negsuc 0),
    +ℤ_parts (t.grid_y +ℤ pos t.grid_h) (ℤ.negsuc 0),
    on t.grid_x t.grid_y,
    on (t.grid_x +ℤ pos t.grid_w +ℤ ℤ.negsuc 0) (t.grid_y +ℤ pos t.grid_h +ℤ ℤ.negsuc 0),
  )),
)

-- Along one axis: two spans meet where each starts before the other ends.
abbrev Within : ℤ → ℕ → ℤ → Type 0
Within a n x = (a ≤ℤ x) × (x <ℤ a +ℤ pos n)

spans_meet :
    (a b : ℤ) (n m : ℕ) (x : ℤ)
    → Within a n x
    → Within b m x
    → (ltb_ℤ a (b +ℤ pos m) ≡ true) × (ltb_ℤ b (a +ℤ pos n) ≡ true)
spans_meet a b n m x h k = (
  lt→ltb_ℤ a (b +ℤ pos m) (omega (arith, +ℤ_parts b (pos m))),
  lt→ltb_ℤ b (a +ℤ pos n) (omega (arith, +ℤ_parts a (pos n))),
)

spans_share :
    (a b : ℤ) (n m : ℕ)
    → 0 < n
    → 0 < m
    → ltb_ℤ a (b +ℤ pos m) ≡ true
    → ltb_ℤ b (a +ℤ pos n) ≡ true
    → Within a n (later_of a b) × Within b m (later_of a b)
spans_share a b n m pn pm h k = elim (Bool-cases (ltb_ℤ a b)) [
  | inl e ↦ rw e (ground (arith, +ℤ_parts a (pos n), +ℤ_parts b (pos m)))
  | inr e ↦ rw e (ground (arith, +ℤ_parts a (pos n), +ℤ_parts b (pos m)))
]

all_four :
    (a b c d : Bool)
    → (a && (b && (c && d))) ≡ true
    → (a ≡ true) × (b ≡ true) × (c ≡ true) × (d ≡ true)
all_four a b c d h = ground arith

overlaps_iff : (s t : PlacedTable) → HasCells s → HasCells t → (overlaps s t ≡ false) ↔ AreApart s t
overlaps_iff s t h k = (
  (λ e x y (sx, sx', sy, sy') (tx, tx', ty, ty').
      let (a, b) = spans_meet s.grid_x t.grid_x s.grid_w t.grid_w x (sx, sx') (tx, tx') in
      let (c, d) = spans_meet s.grid_y t.grid_y s.grid_h t.grid_h y (sy, sy') (ty, ty') in
      absurd (cc (e, a, b, c, d))),
  (λ apart. elim (Bool-cases (overlaps s t)) [
    | inr e ↦ e
    | inl e ↦
        let (a, b, c, d) = all_four _ _ _ _ e in
        let (sx, tx) = spans_share s.grid_x t.grid_x s.grid_w t.grid_w h.0 k.0 a b in
        let (sy, ty) = spans_share s.grid_y t.grid_y s.grid_h t.grid_h h.1 k.1 c d in
        absurd (apart _ _ (sx.0, sx.1, sy.0, sy.1) (tx.0, tx.1, ty.0, ty.1))
  ]),
)

overlaps_with_iff :
    (t : PlacedTable) (ts : List PlacedTable)
    → HasCells t
    → All HasCells ts
    → (overlaps_with t ts ≡ []) ↔ All (AreApart t) ts
unfolding overlaps_with
overlaps_with_iff t [] h k = ((λ _. tt), (λ _. refl))
overlaps_with_iff t (u ∷ us) h k =
    let ih = overlaps_with_iff t us h k.1 in
    let pair = overlaps_iff t u h k.0 in
    elim (Bool-cases (overlaps t u)) [
      | inl e ↦ rw e ((λ h. absurd (cc)), (λ a. absurd (cc (e, pair.1 a.0))))
      | inr e ↦ rw e ((λ h. (pair.0 e, ih.0 h)), (λ a. ih.1 a.1))
    ]

append-eq-nil : (xs ys : List LayoutIssue) → (xs ++ ys ≡ []) ↔ ((xs ≡ []) × (ys ≡ []))
append-eq-nil [] ys = ((λ h. (refl, h)), (λ h. h.1))
append-eq-nil (x ∷ xs) ys = ((λ h. absurd (cc)), (λ h. absurd (cc (h.0))))

-- For tables that take at least one cell each, layoutIssues finds nothing exactly when every cell of
-- every table lies on the floor's grid and no cell is taken by two of the tables.
pub layout_issues_iff :
    (grid : GridSize) (tables : List PlacedTable)
    → All HasCells tables
    → (layout_issues grid tables ≡ []) ↔ IsLaidOut grid tables
unfolding layout_issues
layout_issues_iff grid [] h = ((λ _. tt), (λ _. refl))
layout_issues_iff grid (t ∷ ts) h =
    let ih = layout_issues_iff grid ts h.1 in
    let apart = overlaps_with_iff t ts h.0 h.1 in
    let on = is_out_iff grid t h.0 in
    let split = append-eq-nil (overlaps_with t ts) (layout_issues grid ts) in
    elim (Bool-cases (is_out grid t)) [
      | inl e ↦ rw e ((λ h. absurd (cc)), (λ l. absurd (cc (e, on.1 l.0))))
      | inr e ↦ rw e (
        (λ h. (on.0 e, apart.0 ((split.0 h).0), ih.0 ((split.0 h).1))),
        (λ l. split.1 (apart.1 l.1, ih.1 l.2)),
      )
    ]
