-- ===== src/Db/Pool/Replica.antt =====
-- The standby when the program connects (src/db.rs).
use pgfs.Prelude.{◌≡◌, ◌↔◌, Option-cases, inl, inr, refl, Bool, Option, none, some, Str, arith}
use pgfs.Db.Pool.{
  Driver, Connection, Opened, opened, refused, replica_pool, open_pools, replica_client, acquire,
  connect_opts,
}

module _ (d : Driver) where
  open d use {Config, Pool, Client, parse, build}

  -- The outcome with another standby.
  abbrev pub with_replica : Option Client → Opened (Connection d) → Opened (Connection d)
  with_replica c (opened db) = opened (record db { replica = c })
  with_replica c (refused e) = refused e

  -- The standby of the string: it is given and valid, a pool of at most 10 connections without the
  -- customizer is built for it, and the pool gives the connection.
  abbrev pub Reaches : Option Str → Client → Type 0
  Reaches replica_conn c =
      (conn_str : Str) × (config : Config) × (pool : Pool) × (replica_conn ≡ some conn_str)
      × (parse conn_str ≡ some config)
      × (build none 10 config ≡ some pool)
      × (d.get pool ≡ some c)

  pool_reaches :
      (pool : Option Pool) (c : Client)
      → replica_client d pool ≡ some c
      → (p : Pool) × (pool ≡ some p) × (d.get p ≡ some c)
  unfolding replica_client
  pool_reaches none c e = absurd (ground (arith, e))
  pool_reaches (some p) c e = (p, refl, e)

  replica_client-Reaches :
      (replica_conn : Option Str) (c : Client)
      → replica_client d (replica_pool d 10 replica_conn) ≡ some c
      → Reaches replica_conn c
  unfolding replica_pool
  replica_client-Reaches none c e = let (p, built, gives) = pool_reaches none c e in absurd (cc)
  replica_client-Reaches (some conn_str) c e =
      let (p, built, gives) = pool_reaches (replica_pool d 10 (some conn_str)) c e in
      elim (Option-cases (parse conn_str)) [
        | inl invalid ↦ absurd (ground (arith, built, invalid))
        | inr (config, valid) ↦
            (conn_str, config, p, refl, valid, ground (arith, built, valid), gives)
      ]

  Reaches-replica_client :
      (replica_conn : Option Str) (c : Client)
      → Reaches replica_conn c
      → replica_client d (replica_pool d 10 replica_conn) ≡ some c
  unfolding replica_client replica_pool
  Reaches-replica_client replica_conn c (conn_str, config, p, given, valid, built, gives) =
      ground (arith, given, valid, built, gives)

  -- The standby decides nothing when the program connects: with any connection string for it, or
  -- with none, connecting fails in the same cases and for the same reason, and opens the same
  -- primary. The connection to the standby is there exactly if its string is given and is valid, a
  -- pool of at most 10 connections without the customizer is built for it, and the pool gives this
  -- connection.
  pub connect_opts-with_replica :
      (conn_str : Str) (replica_conn : Option Str) (unlogged : Bool)
      → (o : Option Client) × (connect_opts d conn_str replica_conn unlogged
          ≡ with_replica o (connect_opts d conn_str none unlogged))
        × ((c : Client) → (o ≡ some c) ↔ Reaches replica_conn c)
  unfolding connect_opts open_pools acquire replica_client replica_pool
  connect_opts-with_replica conn_str replica_conn unlogged = (
    replica_client d (replica_pool d 10 replica_conn),
    ground arith,
    λ c. (replica_client-Reaches replica_conn c, λ h. Reaches-replica_client replica_conn c h),
  )
