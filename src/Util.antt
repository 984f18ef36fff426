-- ===== src/Util.antt =====
-- include/util.h: the kinds of column types and their sizes.
pub mod BitWidth
pub mod Codec
pub mod Arrays
mod Tests
use tengdb.Common.{ℕ, ◌/◌, ltb, if◌then◌else◌}
use tengdb.Common.Run.{Run, ok, fault, corrupt}

pub data TypeKind : Type 0 where
  boolean byte short int long float double string binary timestamp : TypeKind
  list map struct union decimal date varchar char : TypeKind

-- The kinds of variable length end the program, `exit(0)`.
unfoldable pub bit_of_type : TypeKind → Run ℕ
bit_of_type TypeKind.boolean = ok 1
bit_of_type TypeKind.byte = ok 8
bit_of_type TypeKind.date = ok 16
bit_of_type TypeKind.short = ok 16
bit_of_type TypeKind.int = ok 32
bit_of_type TypeKind.float = ok 32
bit_of_type TypeKind.string = ok 32
bit_of_type TypeKind.varchar = ok 32
bit_of_type TypeKind.long = ok 64
bit_of_type TypeKind.double = ok 64
bit_of_type _ = fault corrupt

unfoldable pub byte_of_bit : Run ℕ → Run ℕ
byte_of_bit (ok bit) = ok (if ltb bit 8 then 1 else bit / 8)
byte_of_bit (fault e) = fault e

unfoldable pub byte_of_type : TypeKind → Run ℕ
unfolding bit_of_type byte_of_bit
byte_of_type kind = byte_of_bit (bit_of_type kind)
