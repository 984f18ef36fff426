-- ===== src/Rle/Bytes/Local.antt =====
-- src/orc/RLE2.cpp: readLongBE, readVulong and readVslong do not look past the bytes they take.
use tengdb.Common.{
  ℕ, zero, suc, ◌+◌, ◌*◌, ◌%◌, ◌^◌, List, [], ◌∷◌, ◌++◌, ◌≡◌, arith, bit_and, bit_or,
}
use tengdb.Common.Run.{ok, next_byte, shl}
use tengdb.Common.Run.Local.{IsLocal, bind-IsLocal, pure-IsLocal, next_byte-IsLocal, shl-IsLocal}
use tengdb.Rle.Bytes.{read_long_be_loop, read_long_be, read_vulong_loop, read_vulong, read_vslong}
use tengdb.Rle.Word.{un_zigzag}

read_long_be_loop-IsLocal : (w n ret : ℕ) → IsLocal (read_long_be_loop w n ret)
unfolding read_long_be_loop
read_long_be_loop-IsLocal w zero ret = pure-IsLocal ret
read_long_be_loop-IsLocal w (suc n) ret = bind-IsLocal next_byte _ next_byte-IsLocal λ val.
    bind-IsLocal (shl w (val % 2 ^ w) (n * 8)) _ (shl-IsLocal w (val % 2 ^ w) (n * 8))
      λ shifted. read_long_be_loop-IsLocal w n (bit_or ret shifted)

pub read_long_be-IsLocal : (w bsz : ℕ) → IsLocal (read_long_be w bsz)
unfolding read_long_be
read_long_be-IsLocal w bsz = read_long_be_loop-IsLocal w bsz 0

vulong_append :
    (w : ℕ) (more rest : List ℕ) (v : ℕ) (bytes : List ℕ) (ret offset : ℕ)
    → read_vulong_loop w ret offset bytes ≡ ok (v, rest)
    → read_vulong_loop w ret offset (bytes ++ more) ≡ ok (v, rest ++ more)
unfolding read_vulong_loop
vulong_append w more rest v [] ret offset h = cc
vulong_append w more rest v (b ∷ bytes) ret offset h = ground (
  arith,
  vulong_append w more rest v bytes (bit_or ret (bit_and 0x7f b * 2 ^ offset % 2 ^ w)) (offset + 7),
)

pub read_vulong-IsLocal : (w : ℕ) → IsLocal (read_vulong w)
unfolding read_vulong
read_vulong-IsLocal w bytes more rest v h = vulong_append w more rest v bytes 0 0 h

pub read_vslong-IsLocal : (w : ℕ) → IsLocal (read_vslong w)
unfolding read_vslong
read_vslong-IsLocal w =
    bind-IsLocal (read_vulong w) _ (read_vulong-IsLocal w) λ v. pure-IsLocal (un_zigzag w v)
