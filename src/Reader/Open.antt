-- ===== src/Reader/Open.antt =====
-- src/orcreader/ORCReader.cpp: createReader.
pub mod Tail
use tengdb.Common.{ℕ, ◌+◌, ◌-◌, ◌*◌, ◌%◌, ◌^◌, min, leb, ltb, List, true, false}
use tengdb.Common.Memory.{Memory, bytes_at}
use tengdb.Common.Run.{Run, ok, fault, outside}
use tengdb.Reader.{StripeInformation}

-- A FileInputStream: its length, and its bytes from an offset on.
pub record FileInputStream : Type 0 where
  pub total_length : ℕ
  pub read : ℕ → ℕ → Memory

-- What the methods of a Reader use: its file, and the stripes of the footer.
pub record Reader : Type 0 where
  pub stream : FileInputStream
  pub stripes : List StripeInformation

-- DIRECTORY_SIZE_GUESS
abbrev pub directory_size_guess : ℕ
directory_size_guess = 16384

-- The `n` bytes that stand `back` bytes before the end of `size` bytes that were read. A place
-- before the first one is outside, as is a negative one that has wrapped.
unfoldable pub tail_bytes : Memory → ℕ → ℕ → ℕ → Run (List ℕ)
tail_bytes data_read size back n = elim (leb back size) [
  | true ↦ elim (leb n back) [
    | true ↦ ok (bytes_at data_read (size - back) n)
    | false ↦ fault outside
  ]
  | false ↦ fault outside
]

-- `footer_length` stands for the length that protobuf's parser finds in the bytes of a postscript,
-- and `footer` for the stripes that it finds in those of a footer; where a parse fails the code
-- prints a message and goes on. The other fields of the postscript and the footer are not used.
module _ (footer_length : List ℕ → ℕ) (footer : List ℕ → List StripeInformation) where
  unfoldable pub with_footer : FileInputStream → Run (List ℕ) → Run Reader
  with_footer stream (ok bytes) = ok (record { stream = stream; stripes = footer bytes })
  with_footer stream (fault e) = fault e

  unfoldable pub with_postscript : FileInputStream → Memory → ℕ → ℕ → Run (List ℕ) → Run Reader
  with_postscript stream bytes size ps_length (ok ps) =
      let n = footer_length ps in with_footer stream (tail_bytes bytes size (1 + ps_length + n) n)
  with_postscript stream bytes size ps_length (fault e) = fault e

  unfoldable pub create_reader : FileInputStream → Run Reader
  create_reader stream =
      let size = min stream.total_length directory_size_guess in
      let bytes = stream.read size (stream.total_length - size) in
      let ps_length = bytes (size - 1) % 256 in
      elim (ltb 0 size) [
        | false ↦ fault outside
        | true ↦
            with_postscript stream bytes size ps_length
              (tail_bytes bytes size (1 + ps_length) ps_length)
      ]
