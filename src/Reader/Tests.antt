-- ===== src/Reader/Tests.antt =====
-- readdata of src/orcreader/ORCReader.cpp on a stripe of two streams.
use tengdb.Common.{ℕ, ◌+◌, ◌<◌, ◌≡◌, refl, arith, true, List, [], ◌∷◌, ◌++◌, Option, none, some}
use tengdb.Common.Memory.{Memory}
use tengdb.Common.Run.{ok}
use tengdb.MemoryPool.{Block, DataBuffer}
use tengdb.MemoryPool.Blocks.{IsAllocator, IsBuffer, element}
use tengdb.Reader.{Stream, StripeInformation, has_kind, matches, stripe_streams, readdata}
use tengdb.Common.{get_or, ◌≤◌}
use tengdb.Reader.Open.{create_reader}
use tengdb.Reader.Open.Tail.{file_of, create_reader-file_of}
use tengdb.Reader.Streams.{Skipped, readdata-Skipped, readdata-stream}

-- A file whose byte at each place is the place.
abbrev place_bytes : ℕ → ℕ → Memory
place_bytes n offset i = offset + i

abbrev lengths_stream : Stream
lengths_stream = record { kind = some 2; column = 1; length = 10 }

abbrev data_stream : Stream
data_stream = record { kind = some 1; column = 1; length = 20 }

abbrev two_streams : ℕ → Memory → List Stream
two_streams n footer = lengths_stream ∷ data_stream ∷ []

abbrev a_malloc : ℕ → Option Block
a_malloc n = some (record { bytes = n; cells = λ i. 170 })

a_malloc-IsAllocator : IsAllocator a_malloc
a_malloc-IsAllocator n some_n fits = (record { bytes = n; cells = λ i. 170 }, refl, omega arith)

abbrev stripe : StripeInformation
stripe = record {
  offset = 3;
  index_length = 0;
  data_length = 30;
  footer_length = 5;
  number_of_rows = 10;
}

abbrev empty_buffer : DataBuffer
empty_buffer = record { buf = none; current_size = 0; current_capacity = 0 }

empty_buffer-IsBuffer : IsBuffer 1 empty_buffer
empty_buffer-IsBuffer = record { sized = omega arith; bounded = omega arith; backed = refl }

listed :
    stripe_streams place_bytes two_streams a_malloc stripe
    ≡ (lengths_stream ∷ []) ++ data_stream ∷ []
unfolding stripe_streams
listed = refl

other_kind : Skipped 1 1 (lengths_stream ∷ [])
unfolding matches has_kind
other_kind = (refl, tt)

data_kind : matches 1 1 data_stream ≡ true
unfolding matches has_kind
data_kind = refl

no_column : Skipped 1 2 (stripe_streams place_bytes two_streams a_malloc stripe)
unfolding stripe_streams matches has_kind
no_column = (refl, (refl, tt))

readdata-stream_example :
    (buf' : DataBuffer) × (readdata place_bytes two_streams a_malloc stripe 1 1 empty_buffer 0
      ≡ ok (buf', 20))
    × IsBuffer 1 buf'
    × (20 ≤ buf'.current_capacity)
    × ((i : ℕ) → i < 20 → element buf'.buf i ≡ place_bytes 20 13 i)
readdata-stream_example =
    readdata-stream place_bytes two_streams a_malloc a_malloc-IsAllocator stripe 1 1 empty_buffer 0
      (lengths_stream ∷ []) [] data_stream empty_buffer-IsBuffer listed other_kind data_kind
      (omega arith) (omega arith)

readdata-Skipped_example :
    readdata place_bytes two_streams a_malloc stripe 2 1 empty_buffer 7 ≡ ok (empty_buffer, 7)
readdata-Skipped_example =
    readdata-Skipped place_bytes two_streams a_malloc a_malloc-IsAllocator stripe 2 1 empty_buffer 7
      no_column

-- Two bytes of data, a footer of three bytes, a postscript of one, and its length.
create_reader-file_of_example :
    let stream = file_of ((1 ∷ 2 ∷ []) ++ ((4 ∷ 5 ∷ 6 ∷ []) ++ ((3 ∷ []) ++ (1 ∷ [])))) in
    create_reader (λ ps. get_or ps 0 0) (λ foot. stripe ∷ []) stream
    ≡ ok (record { stream = stream; stripes = stripe ∷ [] })
create_reader-file_of_example =
    create_reader-file_of (λ ps. get_or ps 0 0) (λ foot. stripe ∷ []) (1 ∷ 2 ∷ []) (4 ∷ 5 ∷ 6 ∷ [])
      (3 ∷ []) (omega arith) (omega arith) refl
