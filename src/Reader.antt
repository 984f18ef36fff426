-- ===== src/Reader.antt =====
-- src/orcreader/ORCReader.cpp: how a stream of a stripe is found and read.
pub mod Streams
pub mod Open
mod Tests
use tengdb.Common.{ℕ, ◌+◌, ◌%◌, ◌^◌, ◌==◌, Bool, true, false, ◌&&◌, ltb, List, [], ◌∷◌}
use tengdb.Common.{Option, none, some}
use tengdb.Common.Memory.{Memory}
use tengdb.Common.Run.{Run, ok, fault}
use tengdb.MemoryPool.{Block, DataBuffer, resize, write_block}

-- proto::Stream; `none` is a stream without a kind.
pub record Stream : Type 0 where
  pub kind : Option ℕ
  pub column : ℕ
  pub length : ℕ

-- proto::StripeInformation.
pub record StripeInformation : Type 0 where
  pub offset : ℕ
  pub index_length : ℕ
  pub data_length : ℕ
  pub footer_length : ℕ
  pub number_of_rows : ℕ

unfoldable pub has_kind : Option ℕ → ℕ → Bool
has_kind none kind = false
has_kind (some k) kind = k == kind

-- `stream.has_kind() && stream.kind() == kind && stream.column() == column`
unfoldable pub matches : ℕ → ℕ → Stream → Bool
matches kind column s = has_kind s.kind kind && (s.column == column)

-- The loop over the streams: where the first one that matches begins, and its length.
unfoldable pub locate : ℕ → ℕ → ℕ → List Stream → Option (ℕ × ℕ)
locate kind column offset [] = none
locate kind column offset (s ∷ streams) = elim (matches kind column s) [
  | true ↦ some (offset, s.length)
  | false ↦ locate kind column ((offset + s.length) % 2 ^ 64) streams
]

-- `read n offset` stands for `n` bytes of the file from `offset` on, `parse` for protobuf's parser
-- of a stripe footer, and `malloc` for std::malloc.
module _ (read : ℕ → ℕ → Memory) (parse : ℕ → Memory → List Stream)
    (malloc : ℕ → Option Block) where
  unfoldable pub stripe_streams : StripeInformation → List Stream
  stripe_streams sinfo =
      let start = (sinfo.offset + sinfo.index_length + sinfo.data_length) % 2 ^ 64 in
      parse sinfo.footer_length (read sinfo.footer_length start)

  -- `if(buf.capacity()<datasize) buf.resize(datasize);`
  unfoldable pub make_room : DataBuffer → ℕ → Run DataBuffer
  make_room buf datasize = elim (ltb buf.current_capacity datasize) [
    | true ↦ resize malloc 1 buf datasize
    | false ↦ ok buf
  ]

  unfoldable pub with_bytes : DataBuffer → Run (Option Block) → Run DataBuffer
  with_bytes buf (ok block) = ok (record buf { buf = block })
  with_bytes buf (fault e) = fault e

  -- `this->stream->read(buf.data(),datasize,offset);`
  unfoldable pub read_into : ℕ → ℕ → Run DataBuffer → Run DataBuffer
  read_into datasize offset (ok buf) =
      with_bytes buf (write_block 1 buf.buf 0 datasize (read datasize offset))
  read_into datasize offset (fault e) = fault e

  unfoldable pub with_datasize : ℕ → Run DataBuffer → Run (DataBuffer × ℕ)
  with_datasize datasize (ok buf) = ok (buf, datasize)
  with_datasize datasize (fault e) = fault e

  -- The buffer and `datasize`, which stay where no stream matches.
  unfoldable pub readdata : StripeInformation → ℕ → ℕ → DataBuffer → ℕ → Run (DataBuffer × ℕ)
  readdata sinfo column kind buf datasize =
      elim (locate kind column sinfo.offset (stripe_streams sinfo)) [
        | none ↦ ok (buf, datasize)
        | some (offset, length) ↦
            with_datasize length (read_into length offset (make_room buf length))
      ]
