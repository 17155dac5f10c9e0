-- ===== src/Contracts/Floor.antt =====
-- packages/contracts/src/floor.ts: the enumerations of floors, tables and visits, and how many cells
-- of a floor's grid a table takes.
use merchant_operations_plat.Prelude.{ℕ, Bool, true, false}

pub data FloorRecordStatus : Type 0 where
  active inactive : FloorRecordStatus

pub data FloorTableShape : Type 0 where
  square rectangle round : FloorTableShape

pub data FloorTableSize : Type 0 where
  small medium large : FloorTableSize

-- 0 or 90 degrees.
pub data FloorTableRotation : Type 0 where
  upright turned : FloorTableRotation

pub record FloorTableFootprint : Type 0 where
  pub grid_h : ℕ
  pub grid_w : ℕ

pub data FloorTableStatus : Type 0 where
  available occupied closing cleaning set_aside : FloorTableStatus

pub data TableSessionStatus : Type 0 where
  opened leaving closed : TableSessionStatus

abbrev pub floor_table_footprints : FloorTableShape → FloorTableSize → FloorTableFootprint
floor_table_footprints rectangle large = record { grid_h = 3; grid_w = 6 }
floor_table_footprints rectangle medium = record { grid_h = 2; grid_w = 4 }
floor_table_footprints rectangle small = record { grid_h = 2; grid_w = 3 }
floor_table_footprints round large = record { grid_h = 4; grid_w = 4 }
floor_table_footprints round medium = record { grid_h = 3; grid_w = 3 }
floor_table_footprints round small = record { grid_h = 2; grid_w = 2 }
floor_table_footprints square large = record { grid_h = 4; grid_w = 4 }
floor_table_footprints square medium = record { grid_h = 3; grid_w = 3 }
floor_table_footprints square small = record { grid_h = 2; grid_w = 2 }

abbrev pub floor_table_footprint :
    FloorTableShape → FloorTableSize → FloorTableRotation → FloorTableFootprint
floor_table_footprint shape size upright = floor_table_footprints shape size
floor_table_footprint shape size turned =
    let base = floor_table_footprints shape size in
    record { grid_h = base.grid_w; grid_w = base.grid_h }

abbrev pub is_in_use : FloorRecordStatus → Bool
is_in_use active = true
is_in_use inactive = false

abbrev pub is_closed : TableSessionStatus → Bool
is_closed closed = true
is_closed _ = false
