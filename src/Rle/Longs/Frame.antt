-- ===== src/Rle/Longs/Frame.antt =====
-- src/orc/RLE2.cpp: readLongs writes its own positions only.
use tengdb.Common.{ℕ, zero, suc, ◌+◌, ◌-◌, ◌%◌, ◌^◌, ◌<◌, ◌≡◌, arith, Bool, List, inl, inr, ap, sym}
use tengdb.Common.Memory.{Memory, store, Kept, Kept-store}
use tengdb.Common.Run.{Run, ok, ◌>>=◌}
use tengdb.Common.Run.Local.{Run-cases}
use tengdb.Rle.Longs.{Cursor, read_value, read_longs_loop, read_longs}
use tengdb.Rle.Word.{convert}

ok_memory :
    (m m' : Memory) (rest rest' : List ℕ)
    → ◌≡◌ {A = Run (Memory × List ℕ)} (ok (m, rest)) (ok (m', rest'))
    → m ≡ m'
ok_memory m m' rest rest' h = cc

read_longs_loop-Kept :
    (w fb : ℕ) (issigned : Bool) (n i : ℕ) (c : Cursor) (m m' : Memory) (bytes rest : List ℕ)
    → read_longs_loop w fb issigned n i c m bytes ≡ ok (m', rest)
    → Kept m m' i n
unfolding read_longs_loop
read_longs_loop-Kept w fb issigned zero i c m m' bytes rest h =
    λ j out. ap (λ (r : Memory). r j) (sym (ok_memory m m' bytes rest h))
read_longs_loop-Kept w fb issigned (suc n) i c m m' bytes rest h =
    elim (Run-cases (read_value w fb c bytes)) [
      | inl (((raw, c'), rest'), e) ↦
          let v = convert w issigned raw in
          Kept-store m m' i v n (
            read_longs_loop-Kept w fb issigned n (i + 1) c' (store m i v) m' rest' rest
              (rw (e, ◌>>=◌) at h))
      | inr (x, e) ↦ cc (rw (e, ◌>>=◌) at h)
    ]

-- Whatever the bytes are, readLongs leaves the positions outside of its own as they are.
pub read_longs-Kept :
    (w : ℕ) (m m' : Memory) (offset len fb : ℕ) (issigned : Bool) (bytes rest : List ℕ)
    → offset + len < 2 ^ 64
    → read_longs w m offset len fb issigned bytes ≡ ok (m', rest)
    → Kept m m' offset len
unfolding read_longs
read_longs-Kept w m m' offset len fb issigned bytes rest bounded h =
    let whole : (offset + len) % 2 ^ 64 - offset ≡ len = omega arith in
    read_longs_loop-Kept w fb issigned len offset _ m m' bytes rest (rw whole at h)
