-- ===== src/Db/Content/Assemble.antt =====
-- The loop of `Db::read_range_primary` (src/db.rs) on the blocks that the query returned.
use pgfs.Prelude.{
  ℕ, zero, suc, ◌+◌, ◌-◌, ◌*◌, ◌/◌, ◌%◌, ◌^◌, ◌≤◌, ◌<◌, min, ◌≡◌, Option, none, some, [], ◌++◌,
  arith, length, get_or, take, drop, replicate, nat_key, inl, inr, ◌⊎◌, length-append,
  length-replicate, length-take_le, length-drop, get_or-take, get_or-drop, get_or-append,
  get_or-replicate, get_or-past,
}
use pgfs.Dict.{Dict, get}
use pgfs.Block.{Bytes, block_size}
use pgfs.Handle.{block_of}
use pgfs.Handle.Write.{byte_at}
use pgfs.Db.Content.{piece, assemble, read_fuel}

abbrev pub bytes_or_empty : Option Bytes → Bytes
bytes_or_empty none = []
bytes_or_empty (some b) = b

length-piece : (o : Option Bytes) (k n : ℕ) → length (piece o k n) ≡ n
unfolding piece
length-piece none k n = length-replicate {A = ℕ} n 0
length-piece (some b) k n = ground (
  arith,
  length-append (take (min (k + n) (length b) - k) (drop k b))
      (replicate (k + n - min (k + n) (length b)) 0),
  length-replicate {A = ℕ} (k + n - min (k + n) (length b)) 0,
  length-replicate {A = ℕ} n 0,
  length-take_le (min (k + n) (length b) - k) (drop k b),
  length-drop k b,
)

get_or-piece :
    (o : Option Bytes) (k n i : ℕ)
    → i < n
    → get_or (piece o k n) i 0 ≡ get_or (bytes_or_empty o) (k + i) 0
unfolding piece
get_or-piece none k n i h = get_or-replicate {A = ℕ} 0 n i
get_or-piece (some b) k n i h = ground (
  arith,
  get_or-append 0 (take (min (k + n) (length b) - k) (drop k b))
      (replicate (k + n - min (k + n) (length b)) 0) i,
  length-take_le (min (k + n) (length b) - k) (drop k b),
  length-drop k b,
  get_or-take 0 (min (k + n) (length b) - k) (drop k b) i,
  get_or-drop 0 k b i,
  get_or-replicate {A = ℕ} 0 n i,
  get_or-replicate {A = ℕ} 0 (k + n - min (k + n) (length b)) (i - (min (k + n) (length b) - k)),
  get_or-past 0 b (k + i),
)

pub block_of-get : (k : ℕ) (m : Dict ℕ Bytes) → block_of k m ≡ bytes_or_empty (get k m)
unfolding block_of
block_of-get k m = ground arith

-- The bytes that a read of the positions `cur` to `end - 1` gives.
abbrev pub Assembles : Dict ℕ Bytes → ℕ → ℕ → Bytes → Type 0
Assembles blocks cur end bytes =
    (length bytes ≡ end - cur)
    × ((i : ℕ) → i < end - cur → get_or bytes i 0 ≡ byte_at blocks (cur + i))

le_cases : (a b : ℕ) → a ≤ b → (a ≡ b) ⊎ (a < b)
le_cases a b h = ground arith

module _ (blocks : Dict ℕ Bytes) (end : ℕ) (fits : end ≤ 2 ^ 47) where
  -- The first position of the next round.
  abbrev next : ℕ → ℕ
  next cur = min (cur / block_size * block_size + block_size) end

  abbrev first_piece : ℕ → Bytes
  first_piece cur = piece (get (cur / block_size) blocks) (cur % block_size) (next cur - cur)

  assemble_stop : (n cur : ℕ) → cur ≡ end → assemble (suc n) blocks cur end ≡ some []
  unfolding assemble
  assemble_stop n cur e = ground arith

  assemble_step :
      (n cur : ℕ) (bytes : Bytes)
      → cur < end
      → assemble n blocks (next cur) end ≡ some bytes
      → assemble (suc n) blocks cur end ≡ some (first_piece cur ++ bytes)
  unfolding assemble
  assemble_step n cur bytes h e = ground arith

  Assembles-step :
      (cur : ℕ) (bytes : Bytes)
      → cur < end
      → Assembles blocks (next cur) end bytes
      → Assembles blocks cur end (first_piece cur ++ bytes)
  Assembles-step cur bytes h (len, at) = (
    ground (
      arith,
      len,
      length-append (first_piece cur) bytes,
      length-piece (get (cur / block_size) blocks) (cur % block_size) (next cur - cur),
    ),
    λ i k. ground (
      arith,
      at (i - (next cur - cur)),
      get_or-append 0 (first_piece cur) bytes i,
      length-piece (get (cur / block_size) blocks) (cur % block_size) (next cur - cur),
      get_or-piece (get (cur / block_size) blocks) (cur % block_size) (next cur - cur) i,
      block_of-get (cur / block_size) blocks,
    ),
  )

  assemble_lem :
      (fuel cur : ℕ)
      → cur ≤ end
      → 1 ≤ fuel
      → (cur < end → end + block_size ≤ (cur / block_size + fuel) * block_size)
      → (bytes : Bytes) × (assemble fuel blocks cur end ≡ some bytes)
        × Assembles blocks cur end bytes
  assemble_lem zero cur below some_fuel enough = absurd (omega arith)
  assemble_lem (suc n) cur below some_fuel enough = elim (le_cases cur end below) [
    | inl e ↦ ([], assemble_stop n cur e, (omega arith, λ i k. absurd (omega arith)))
    | inr h ↦
        let more = enough h in
        let (bytes, runs, good) =
          assemble_lem n (next cur) (omega arith) (omega arith) (λ k. omega arith) in
        (
          first_piece cur ++ bytes,
          assemble_step n cur bytes h runs,
          Assembles-step cur bytes h good,
        )
  ]

-- The fuel is enough: the loop ends, and its result has the length that was asked for and the bytes
-- of the blocks.
pub assemble-Assembles :
    (blocks : Dict ℕ Bytes) (offset len : ℕ)
    → offset + len ≤ 2 ^ 47
    → (bytes : Bytes) × (assemble (read_fuel len) blocks offset (offset + len) ≡ some bytes)
      × Assembles blocks offset (offset + len) bytes
assemble-Assembles blocks offset len fits =
    assemble_lem blocks (offset + len) fits (read_fuel len) offset (omega arith) (omega arith)
      (λ h. omega arith)
