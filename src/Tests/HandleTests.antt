-- ===== src/Tests/HandleTests.antt =====
-- The write buffer of a handle (src/fs.rs `HandleBuffer::write`).
use pgfs.Prelude.{◌≡◌, ◌^◌, arith, codes, [], ◌∷◌, some, none, nat_key}
use pgfs.Handle.{HandleBuffer, write}
use pgfs.Handle.Bound.{write-beyond}
use pgfs.Handle.Write.{Buffers, write-Buffers}

abbrev empty_buffer : HandleBuffer
empty_buffer = record { parent = codes "d"; name = codes "f"; dirty_blocks = []; max_size = 0 }

abbrev two_bytes : HandleBuffer
two_bytes = record {
  parent = codes "d";
  name = codes "f";
  dirty_blocks = (0, 0 ∷ 0 ∷ 7 ∷ 8 ∷ []) ∷ [];
  max_size = 4;
}

write-Buffers_example :
    (h : HandleBuffer) × (write 2 (7 ∷ 8 ∷ []) empty_buffer ≡ some h)
    × Buffers 2 (7 ∷ 8 ∷ []) empty_buffer h
write-Buffers_example = write-Buffers 2 (7 ∷ 8 ∷ []) empty_buffer (omega arith)

write-beyond_example : write (2 ^ 47) (7 ∷ []) empty_buffer ≡ none
write-beyond_example =
    write-beyond (2 ^ 47) (7 ∷ []) empty_buffer (omega arith) (omega arith) (omega arith)
