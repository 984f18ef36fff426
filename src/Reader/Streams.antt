-- ===== src/Reader/Streams.antt =====
-- src/orcreader/ORCReader.cpp: readdata reads the stream that is asked for.
use tengdb.Common.{ℕ, ◌+◌, ◌/◌, ◌%◌, ◌^◌, ◌<◌, ◌≤◌, ◌≡◌, refl, ap, ◌∙◌, arith}
use tengdb.Common.{true, false, Bool-cases, inl, inr, List, [], ◌∷◌, ◌++◌, ltb}
use tengdb.Common.{Option, none, some}
use tengdb.Common.Memory.{Memory}
use tengdb.Common.Run.{ok}
use tengdb.MemoryPool.{Block, DataBuffer, write_block, overwrite}
use tengdb.MemoryPool.Blocks.{IsAllocator, IsBuffer, element, Backs, write_some, written}
use tengdb.MemoryPool.Growth.{resize-IsResized}
use tengdb.Reader.{
  Stream, StripeInformation, matches, locate, stripe_streams, make_room, with_bytes, read_into,
  with_datasize, readdata,
}

-- The streams do not match.
abbrev pub Skipped : ℕ → ℕ → List Stream → Type 0
Skipped kind column [] = Unit
Skipped kind column (s ∷ streams) = (matches kind column s ≡ false) × Skipped kind column streams

abbrev pub total : List Stream → ℕ
total [] = 0
total (s ∷ streams) = s.length + total streams

locate_lem :
    (kind column offset : ℕ) (before after : List Stream) (s : Stream)
    → Skipped kind column before
    → matches kind column s ≡ true
    → offset + total before < 2 ^ 64
    → locate kind column offset (before ++ s ∷ after) ≡ some (offset + total before, s.length)
unfolding locate
locate_lem kind column offset [] after s skipped found bounded =
    rw (found, locate) (ap (λ (n : ℕ). some (n, s.length)) (omega arith))
locate_lem kind column offset (first ∷ before) after s (here, skipped) found bounded =
    let next : (offset + first.length) % 2 ^ 64 ≡ offset + first.length = omega arith in
    rw (here, locate, next)
      (locate_lem kind column (offset + first.length) before after s skipped found (omega arith)
        ∙ ap (λ (n : ℕ). some (n, s.length)) (omega arith))

lost :
    (kind column offset : ℕ) (streams : List Stream)
    → Skipped kind column streams
    → locate kind column offset streams ≡ none
unfolding locate
lost kind column offset [] skipped = refl
lost kind column offset (s ∷ streams) (here, skipped) =
    rw (here, locate) (lost kind column ((offset + s.length) % 2 ^ 64) streams skipped)

module _ (read : ℕ → ℕ → Memory) (parse : ℕ → Memory → List Stream) (malloc : ℕ → Option Block)
    (alloc : IsAllocator malloc) where
  room_lem :
      (buf : DataBuffer) (n : ℕ)
      → IsBuffer 1 buf
      → n < 2 ^ 64
      → (buf' : DataBuffer) × (make_room read parse malloc buf n ≡ ok buf')
        × IsBuffer 1 buf'
        × (n ≤ buf'.current_capacity)
  unfolding make_room
  room_lem buf n h fits = elim (Bool-cases (ltb buf.current_capacity n)) [
    | inl e ↦
        let (buf', made, (h', size, _, _)) =
          resize-IsResized malloc 1 (omega arith) alloc buf n h (omega arith) in
        (buf', rw (e, make_room) made, h', omega (arith, h'.sized, size))
    | inr e ↦ (buf, rw (e, make_room), h, ground arith)
  ]

  -- The bytes that a block of enough room gets.
  fill_block :
      (block : Option Block) (capacity n : ℕ) (cells : Memory)
      → Backs 1 capacity block
      → n ≤ capacity
      → (block' : Option Block) × (write_block 1 block 0 n cells ≡ ok block')
        × Backs 1 capacity block'
        × ((i : ℕ) → i < n → element block' i ≡ cells i)
  unfolding write_block
  fill_block none capacity n cells backed fits =
      let nothing : n ≡ 0 = omega (arith, backed) in
      (none, rw nothing, backed, λ i h. absurd (omega (arith, backed)))
  fill_block (some b) capacity n cells backed fits = (
    some (record { bytes = b.bytes; cells = overwrite b.cells 0 (0 + n / 1) cells }),
    write_some 1 b 0 n cells (omega (arith, backed)),
    backed,
    λ i h. written b.cells cells 0 (0 + n / 1) i (omega arith) (omega arith),
  )

  -- Where the footer of a stripe lists no stream of the kind and the column, readdata leaves the
  -- buffer and `datasize` as they were.
  pub readdata-Skipped :
      (sinfo : StripeInformation) (column kind : ℕ) (buf : DataBuffer) (datasize : ℕ)
      → Skipped kind column (stripe_streams read parse malloc sinfo)
      → readdata read parse malloc sinfo column kind buf datasize ≡ ok (buf, datasize)
  unfolding readdata
  readdata-Skipped sinfo column kind buf datasize skipped =
      rw (lost kind column sinfo.offset (stripe_streams read parse malloc sinfo) skipped, readdata)

  -- Where the footer of a stripe lists a stream of the kind and the column, and none before it, and
  -- its place in the file and its length fit their types: readdata makes room in a well formed
  -- buffer, with a malloc that returns blocks of the size asked for, sets `datasize` to the stream's
  -- length, and the buffer has room for it and holds the file's bytes from the end of the streams before it on.
  pub readdata-stream :
      (sinfo : StripeInformation) (column kind : ℕ) (buf : DataBuffer) (datasize : ℕ)
      (before after : List Stream) (s : Stream)
      → IsBuffer 1 buf
      → stripe_streams read parse malloc sinfo ≡ before ++ s ∷ after
      → Skipped kind column before
      → matches kind column s ≡ true
      → sinfo.offset + total before < 2 ^ 64
      → s.length < 2 ^ 64
      → (buf' : DataBuffer) × (readdata read parse malloc sinfo column kind buf datasize
          ≡ ok (buf', s.length))
        × IsBuffer 1 buf'
        × (s.length ≤ buf'.current_capacity)
        × ((i : ℕ)
            → i < s.length
            → element buf'.buf i ≡ read s.length (sinfo.offset + total before) i)
  unfolding readdata read_into with_bytes with_datasize
  readdata-stream sinfo column kind buf datasize before after s h streams skipped found bounded
        fits =
      let place = locate_lem kind column sinfo.offset before after s skipped found bounded in
      let at = sinfo.offset + total before in
      let (buf₁, e₁, h₁, enough) = room_lem buf s.length h fits in
      let (block, e₂, backed, bytes) =
        fill_block buf₁.buf buf₁.current_capacity s.length (read s.length at) h₁.backed enough in
      (
        record buf₁ { buf = block },
        rw (streams, place, readdata, e₁, read_into, e₂, with_bytes, with_datasize),
        record { sized = h₁.sized; bounded = h₁.bounded; backed = backed },
        enough,
        bytes,
      )
