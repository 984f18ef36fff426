-- ===== src/Rle/Longs/Local.antt =====
-- src/orc/RLE2.cpp: readLongs does not look past the bytes that it takes.
use tengdb.Common.{ℕ, zero, suc, ◌+◌, ◌-◌, ◌^◌, List, [], ◌∷◌, ◌++◌, ◌≡◌, arith}
use tengdb.Common.{Bool, bit_and}
use tengdb.Common.Memory.{Memory, store}
use tengdb.Common.Run.{ok, next_byte}
use tengdb.Common.Run.Local.{IsLocal, bind-IsLocal, pure-IsLocal}
use tengdb.Rle.Word.{convert}
use tengdb.Rle.Longs.{
  Cursor, refill, shift_in, drain, finish, read_value, read_longs_loop, read_longs,
}

refill-IsLocal : (c : Cursor) → IsLocal (refill c)
unfolding refill next_byte
refill-IsLocal c [] more rest c' h = ground arith
refill-IsLocal c (b ∷ bytes) more rest c' h = ground arith

drain_append :
    (w : ℕ) (more rest : List ℕ) (out : ℕ × Cursor × ℕ) (bytes : List ℕ) (raw : ℕ) (c : Cursor)
    (to_read : ℕ)
    → drain w raw c to_read bytes ≡ ok (out, rest)
    → drain w raw c to_read (bytes ++ more) ≡ ok (out, rest ++ more)
unfolding drain
drain_append w [] rest out [] raw c to_read h = ground arith
drain_append w (b ∷ more) rest out [] raw c to_read h = ground arith
drain_append w more rest out (b ∷ bytes) raw c to_read h = ground (
  arith,
  drain_append w more rest out bytes
      (shift_in w raw c.bits_left (bit_and c.cur_byte (2 ^ c.bits_left - 1)))
      (record { cur_byte = b; bits_left = 8 }) (to_read - c.bits_left),
)

drain-IsLocal : (w raw : ℕ) (c : Cursor) (to_read : ℕ) → IsLocal (drain w raw c to_read)
drain-IsLocal w raw c to_read bytes more rest out h =
    drain_append w more rest out bytes raw c to_read h

read_value-IsLocal : (w fb : ℕ) (c : Cursor) → IsLocal (read_value w fb c)
unfolding read_value
read_value-IsLocal w fb c = bind-IsLocal (refill c) _ (refill-IsLocal c) λ c'.
    bind-IsLocal (drain w 0 c' fb) _ (drain-IsLocal w 0 c' fb) λ out. pure-IsLocal (finish w out)

read_longs_loop-IsLocal :
    (w fb : ℕ) (issigned : Bool) (n i : ℕ) (c : Cursor) (m : Memory)
    → IsLocal (read_longs_loop w fb issigned n i c m)
unfolding read_longs_loop
read_longs_loop-IsLocal w fb issigned zero i c m = pure-IsLocal m
read_longs_loop-IsLocal w fb issigned (suc n) i c m =
    bind-IsLocal (read_value w fb c) _ (read_value-IsLocal w fb c) λ (raw, c').
      read_longs_loop-IsLocal w fb issigned n (i + 1) c' (store m i (convert w issigned raw))

pub read_longs-IsLocal :
    (w : ℕ) (m : Memory) (offset len fb : ℕ) (issigned : Bool)
    → IsLocal (read_longs w m offset len fb issigned)
unfolding read_longs
read_longs-IsLocal w m offset len fb issigned = read_longs_loop-IsLocal w fb issigned _ offset _ m
