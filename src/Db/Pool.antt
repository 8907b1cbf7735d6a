-- ===== src/Db/Pool.antt =====
-- The connection pools (src/db.rs `DbPool`, `DbCustomizer`, `Db::connect_opts`). The packages r2d2 and
-- postgres are a parameter: what they answer when a connection is opened.
pub mod Replica
pub mod Schema
use pgfs.Prelude.{
  ℕ, Bool, true, false, Option, none, some, List, [], ◌∷◌, Str, codes, if◌then◌else◌,
}

pub record Driver : Type 1 where
  pub Config : Type 0
  pub Pool : Type 0
  pub Client : Type 0
  -- `conn_str.parse()`
  pub parse : Str → Option Config
  -- The builder of a pool, with `unlogged` of the customizer if there is one, and `max_size`.
  pub build : Option Bool → ℕ → Config → Option Pool
  pub get : Pool → Option Client
  -- Whether the server takes the statement.
  pub prepare : Client → Str → Bool

-- Why no connection was made; a statement is given by its name.
pub data PoolError : Type 0 where
  invalid_conn_string no_pool no_connection : PoolError
  not_prepared : Str → PoolError

pub data Opened (A : Type 0) : Type 0 where
  opened : A → Opened A
  refused : PoolError → Opened A

-- The statements that a connection prepares, with their names.
abbrev pub statements : List (Str × Str)
statements =
    (
      codes "stmt_getattr",
      codes "SELECT name, kind, size, mtime FROM entries WHERE parent = $1 AND name = $2",
    )
    ∷ (
      codes "stmt_create",
      codes
          "INSERT INTO entries (parent, name, kind, data, size) VALUES ($1, $2, 'file', '', 0) ON CONFLICT (parent, name) DO NOTHING",
    )
    ∷ (
      codes "stmt_mkdir",
      codes
          "INSERT INTO entries (parent, name, kind, data, size) VALUES ($1, $2, 'dir', '', 0) ON CONFLICT (parent, name) DO NOTHING",
    )
    ∷ (codes "stmt_unlink", codes "DELETE FROM entries WHERE parent = $1 AND name = $2")
    ∷ (codes "stmt_rmdir", codes "DELETE FROM entries WHERE parent = $1 AND name = $2")
    ∷ (
      codes "stmt_list",
      codes "SELECT name, kind, size, mtime FROM entries WHERE parent = $1 ORDER BY name",
    )
    ∷ (
      codes "stmt_read_blocks",
      codes
          "SELECT block_no, data FROM blocks WHERE parent = $1 AND name = $2 AND block_no >= $3 AND block_no <= $4 ORDER BY block_no",
    )
    ∷ (
      codes "stmt_upsert_block",
      codes
          "INSERT INTO blocks (parent, name, block_no, data) VALUES ($1, $2, $3, $4) ON CONFLICT (parent, name, block_no) DO UPDATE SET data = EXCLUDED.data",
    )
    ∷ (
      codes "stmt_prune_blocks",
      codes "DELETE FROM blocks WHERE parent = $1 AND name = $2 AND block_no > $3",
    )
    ∷ (codes "stmt_delete_blocks", codes "DELETE FROM blocks WHERE parent = $1 AND name = $2")
    ∷ []

module _ (d : Driver) where
  open d use {Config, Pool, Client, parse, build, prepare}

  -- `DbPool`
  pub record DbPool : Type 0 where
    pub primary : Pool
    pub replica : Option Pool

  -- `Db`, as it is opened.
  pub record Connection : Type 0 where
    pub client : Client
    pub replica : Option Client
    pub freshness_cached : Bool
    pub freshness_checked_at : Option ℕ

  -- The pool of the standby; a failure only means that there is none.
  unfoldable pub replica_pool : ℕ → Option Str → Option Pool
  replica_pool max_size none = none
  replica_pool max_size (some conn_str) = elim (parse conn_str) [
    | none ↦ none
    | some config ↦ build none max_size config
  ]

  -- `DbPool::connect_opts`
  unfoldable pub open_pools : Str → Option Str → Bool → ℕ → Opened DbPool
  unfolding replica_pool
  open_pools conn_str replica_conn unlogged max_size = elim (parse conn_str) [
    | none ↦ refused invalid_conn_string
    | some config ↦ elim (build (some unlogged) max_size config) [
      | none ↦ refused no_pool
      | some primary ↦
          opened (record { primary = primary; replica = replica_pool max_size replica_conn })
    ]
  ]

  -- The first of the statements that the server does not take.
  unfoldable pub first_refused : Client → List (Str × Str) → Option Str
  first_refused client [] = none
  first_refused client ((name, sql) ∷ rest) =
      let later = first_refused client rest in if prepare client sql then later else some name

  unfoldable pub replica_client : Option Pool → Option Client
  replica_client none = none
  replica_client (some pool) = d.get pool

  -- `DbPool::get`
  unfoldable pub acquire : DbPool → Opened Connection
  unfolding first_refused replica_client
  acquire pool = elim (d.get pool.primary) [
    | none ↦ refused no_connection
    | some client ↦ elim (first_refused client statements) [
      | some name ↦ refused (not_prepared name)
      | none ↦ opened (record {
        client = client;
        replica = replica_client pool.replica;
        freshness_cached = false;
        freshness_checked_at = none;
      })
    ]
  ]

  abbrev acquire_from : Opened DbPool → Opened Connection
  acquire_from (opened pool) = acquire pool
  acquire_from (refused e) = refused e

  -- `Db::connect_opts`
  unfoldable pub connect_opts : Str → Option Str → Bool → Opened Connection
  unfolding open_pools acquire
  connect_opts conn_str replica_conn unlogged =
      acquire_from (open_pools conn_str replica_conn unlogged 10)
