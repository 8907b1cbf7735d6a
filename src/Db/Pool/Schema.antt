-- ===== src/Db/Pool/Schema.antt =====
-- The statements that a new connection of the primary runs (src/db.rs `DbCustomizer`).
use pgfs.Prelude.{Bool, Option, none, some, List, []}
use pgfs.Db.Rows.{EntryRow, BlockRow}

-- A table that there may be, with whether it is UNLOGGED.
pub record Stored (R : Type 0) : Type 0 where
  pub unlogged : Bool
  pub rows : List R

pub record Schema : Type 0 where
  pub entries : Option (Stored EntryRow)
  pub blocks : Option (Stored BlockRow)

-- CREATE TABLE IF NOT EXISTS
unfoldable pub create_table : {R : Type 0} → Bool → Option (Stored R) → Option (Stored R)
create_table unlogged none = some (record { unlogged = unlogged; rows = [] })
create_table unlogged (some t) = some t

-- `on_acquire`, without the failures of the batch, which are those of opening a connection.
unfoldable pub on_acquire : Bool → Schema → Schema
unfolding create_table
on_acquire unlogged s = record {
  entries = create_table unlogged s.entries;
  blocks = create_table unlogged s.blocks;
}
