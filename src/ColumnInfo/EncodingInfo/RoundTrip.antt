-- ===== src/ColumnInfo/EncodingInfo/RoundTrip.antt =====
-- include/ORCColumnInfo.h: decodeFrom reads back what encodeTo wrote.
use tengdb.Common.{ℕ, zero, suc, ◌+◌, ◌%◌, ◌^◌, ◌<◌, ◌≡◌, ◌≢◌, refl, ap, ◌∙◌, sym, arith}
use tengdb.Common.{List, [], ◌∷◌, ◌++◌, length, length-append, set, replicate, All, ◌==◌, ltb}
use tengdb.Common.{Bool, true, false, Bool-cases, inl, inr, lt→ltb, not, if◌then◌else◌}
use tengdb.Common.Run.{ok, ◌>>=◌}
use tengdb.ColumnInfo.EncodingInfo.{EncodingInfo, new_info}
use tengdb.ColumnInfo.EncodingInfo.Codec.{
  end_mark, encode_pairs, encode_lists, encode_to, put_at, decode_loop, decode_pairs, decode_lists,
  decode_counts, decode_from,
}
use tengdb.Util.Codec.{encode, decode-encode, length-encode}
use mathlib.Core.List.{append_assoc}

set-append :
    (before after : List ℕ) (x v : ℕ)
    → set (before ++ x ∷ after) (length before) v ≡ before ++ v ∷ after
set-append [] after x v = refl
set-append (y ∷ before) after x v = ap (λ (l : List ℕ). y ∷ l) (set-append before after x v)

loop_end :
    (fuel : ℕ) (list rest : List ℕ)
    → decode_loop (suc fuel) list (encode 4 end_mark ++ rest) ≡ ok (list, rest)
unfolding decode_loop
loop_end fuel list rest = rw (decode-encode 4 end_mark rest (omega arith), decode_loop)

loop_round :
    (fuel : ℕ) (before after rest : List ℕ) (x v : ℕ)
    → v < 2 ^ 32
    → length before < 2 ^ 31
    → decode_loop
        (suc fuel)
        (before ++ x ∷ after)
        (encode 4 (length before) ++ (encode 4 v ++ rest))
      ≡ decode_loop fuel (before ++ v ∷ after) rest
unfolding decode_loop put_at
loop_round fuel before after rest x v small short =
    let other : (length before == end_mark) ≡ false = ground arith in
    let inside : ltb (length before) (length (before ++ x ∷ after)) ≡ true =
      lt→ltb (length before) (length (before ++ x ∷ after))
        (rw (length-append before (x ∷ after)) (omega arith)) in
    rw (
      decode-encode 4 (length before) (encode 4 v ++ rest) (omega arith),
      decode_loop,
      other,
      decode-encode 4 v rest (omega arith),
      ◌>>=◌,
      put_at,
      inside,
      set-append before after x v,
    )

snoc-append : (xs ys : List ℕ) (x : ℕ) → (xs ++ x ∷ []) ++ ys ≡ xs ++ x ∷ ys
snoc-append [] ys x = refl
snoc-append (y ∷ xs) ys x = ap (λ (l : List ℕ). y ∷ l) (snoc-append xs ys x)

length-snoc : (xs : List ℕ) (x : ℕ) → length (xs ++ x ∷ []) ≡ length xs + 1
length-snoc xs x = length-append xs (x ∷ [])

-- The list that is decoded, where `i` counters are done.
abbrev PairsRead : ℕ → ℕ → List ℕ → List ℕ → List ℕ → Type 0
PairsRead fuel i before vs rest =
    decode_loop fuel (before ++ replicate (length vs) 0)
      (encode_pairs i vs ++ (encode 4 end_mark ++ rest))
    ≡ ok (before ++ vs, rest)

pairs_next :
    (fuel i v : ℕ) (before vs rest : List ℕ)
    → PairsRead fuel (length (before ++ v ∷ [])) (before ++ v ∷ []) vs rest
    → length before ≡ i
    → decode_loop fuel
        (before ++ v ∷ replicate (length vs) 0)
        (encode_pairs (i + 1) vs ++ (encode 4 end_mark ++ rest))
      ≡ ok (before ++ v ∷ vs, rest)
pairs_next fuel i v before vs rest h at =
    rw
      (
        length-snoc before v,
        snoc-append before (replicate (length vs) 0) v,
        snoc-append before vs v,
        at,
      )
      at h

pairs_nil : (i : ℕ) → encode_pairs i [] ≡ []
unfolding encode_pairs
pairs_nil i = refl

pairs_skip : (i : ℕ) (vs : List ℕ) → encode_pairs i (0 ∷ vs) ≡ encode_pairs (i + 1) vs
unfolding encode_pairs
pairs_skip i vs = refl

pairs_put :
    (i v : ℕ) (vs : List ℕ)
    → v ≢ 0
    → encode_pairs i (v ∷ vs) ≡ encode 4 i ++ (encode 4 v ++ encode_pairs (i + 1) vs)
unfolding encode_pairs
pairs_put i v vs h = let e : (v == 0) ≡ false = ground arith in rw (e, encode_pairs)

pairs_lem :
    (vs before rest : List ℕ) (fuel : ℕ)
    → All (λ v. v < 2 ^ 32) vs
    → length before + length vs < 2 ^ 31
    → length (encode_pairs (length before) vs) < fuel
    → PairsRead fuel (length before) before vs rest
pairs_lem vs before rest zero small short enough = absurd (omega arith)
pairs_lem [] before rest (suc fuel) small short enough =
    ap (λ (l : List ℕ). decode_loop (suc fuel) (before ++ []) (l ++ (encode 4 end_mark ++ rest)))
      (pairs_nil (length before))
    ∙ loop_end fuel (before ++ []) rest
pairs_lem (zero ∷ vs) before rest (suc fuel) (_, small) short enough =
    rw (pairs_skip (length before) vs) (
      pairs_next (suc fuel) (length before) 0 before vs rest
        (pairs_lem vs (before ++ 0 ∷ []) rest (suc fuel) small
          (rw (length-snoc before 0) (omega arith))
          (rw (length-snoc before 0, sym (pairs_skip (length before) vs)) enough))
        refl)
pairs_lem (suc v ∷ vs) before rest (suc fuel) (hv, small) short enough =
    let i = length before in
    let later = encode_pairs (i + 1) vs in
    let behind = encode 4 end_mark ++ rest in
    let bytes = pairs_put i (suc v) vs (λ e. cc) in
    let size : 4 + (4 + length later) < suc fuel =
      rw
        (
          bytes,
          length-append (encode 4 i) (encode 4 (suc v) ++ later),
          length-encode 4 i,
          length-append (encode 4 (suc v)) later,
          length-encode 4 (suc v),
        )
        at enough in
    let round =
      loop_round fuel before (replicate (length vs) 0) (later ++ behind) 0 (suc v) hv
        (omega arith) in
    let next =
      pairs_next fuel i (suc v) before vs rest
        (pairs_lem vs (before ++ suc v ∷ []) rest fuel small
          (rw (length-snoc before (suc v)) (omega arith))
          (rw (length-snoc before (suc v)) (omega arith)))
        refl in
    rw
      (
        bytes,
        append_assoc (encode 4 i) (encode 4 (suc v) ++ later) behind,
        append_assoc (encode 4 (suc v)) later behind,
      )
      (round ∙ next)

-- The counters fit their 32 bits.
decode_pairs-encode :
    (vs rest : List ℕ)
    → All (λ v. v < 2 ^ 32) vs
    → length vs < 2 ^ 31
    → decode_pairs (replicate (length vs) 0) (encode_pairs 0 vs ++ (encode 4 end_mark ++ rest))
      ≡ ok (vs, rest)
unfolding decode_pairs
decode_pairs-encode vs rest small short =
    pairs_lem vs [] rest _ small (omega arith)
      (rw (length-append (encode_pairs 0 vs) (encode 4 end_mark ++ rest)) (omega arith))

-- Counters as the program keeps them: numbers of their types, and none where no run was counted.
pub record IsCounts (info : EncodingInfo) : Type 0 where
  pub sizes : length info.bitsize ≡ 65
  pub lengths : length info.run_length ≡ 513
  pub sizes_fit : All (λ v. v < 2 ^ 32) info.bitsize
  pub lengths_fit : All (λ v. v < 2 ^ 32) info.run_length
  pub num_fits : info.num < 2 ^ 64
  pub total_fits : info.total_run_length < 2 ^ 64
  pub no_sizes : info.num ≡ 0 → info.bitsize ≡ replicate 65 0
  pub no_lengths : info.num ≡ 0 → info.run_length ≡ replicate 513 0

-- What decodeFrom makes of a new EncodingInfo: the counters, but not what finalize computed.
abbrev pub decoded : EncodingInfo → EncodingInfo
decoded info = record new_info {
  bitsize = info.bitsize;
  run_length = info.run_length;
  issigned = info.issigned;
  num = info.num;
  total_run_length = info.total_run_length;
}

abbrev headed : EncodingInfo → EncodingInfo
headed info = record new_info {
  issigned = info.issigned;
  num = info.num;
  total_run_length = info.total_run_length;
}

lists_lem :
    (info : EncodingInfo) (rest : List ℕ)
    → IsCounts info
    → decode_lists (headed info) (encode_lists info ++ rest) ≡ ok (decoded info, rest)
unfolding decode_lists encode_lists new_info
lists_lem info rest h =
    let second = encode_pairs 0 info.run_length in
    let mark = encode 4 end_mark in
    let one =
      decode_pairs-encode info.bitsize (second ++ (mark ++ rest)) h.sizes_fit
        (rw h.sizes (omega arith)) in
    let two = decode_pairs-encode info.run_length rest h.lengths_fit (rw h.lengths (omega arith)) in
    rw (
      append_assoc (encode_pairs 0 info.bitsize) (mark ++ (second ++ mark)) rest,
      append_assoc mark (second ++ mark) rest,
      append_assoc second mark rest,
      rw h.sizes at one,
      ◌>>=◌,
      rw h.lengths at two,
      ◌>>=◌,
    )

sign_lem : (b : Bool) → not ((if b then 1 else 0) % 256 == 0) ≡ b
sign_lem true = refl
sign_lem false = refl

sign_fits : (b : Bool) → (if b then 1 else 0) < 256 ^ 4
sign_fits true = omega arith
sign_fits false = omega arith

counts_lem :
    (info : EncodingInfo) (rest : List ℕ)
    → IsCounts info
    → decode_counts (headed info) ((if info.num == 0 then [] else encode_lists info) ++ rest)
      ≡ ok (decoded info, rest)
unfolding decode_counts new_info
counts_lem info rest h = elim (Bool-cases (info.num == 0)) [
  | inl e ↦
      let none : info.num ≡ 0 = ground arith in
      rw (e, decode_counts, e, h.no_sizes none, h.no_lengths none)
  | inr e ↦ rw (e, decode_counts, e) (lists_lem info rest h)
]

-- A new EncodingInfo that decodes what encodeTo wrote has the counters, the number of runs, their
-- total length and the sign flag of the one that was encoded, and the bytes behind are left.
-- The info is well formed: arrays of 65 and 513 counters, numbers that fit their types, and no
-- counter that is not zero where no run was counted.
pub decode_from-encode_to :
    (info : EncodingInfo) (rest : List ℕ)
    → IsCounts info
    → decode_from new_info (encode_to info ++ rest) ≡ ok (decoded info, rest)
unfolding decode_from encode_to
decode_from-encode_to info rest h =
    let sign = encode 4 (if info.issigned then 1 else 0) in
    let num = encode 8 info.num in
    let total = encode 8 info.total_run_length in
    let lists = if info.num == 0 then [] else encode_lists info in
    rw
      (
        append_assoc sign (num ++ (total ++ lists)) rest,
        append_assoc num (total ++ lists) rest,
        append_assoc total lists rest,
        decode-encode 4 (if info.issigned then 1 else 0) (num ++ (total ++ (lists ++ rest)))
            (sign_fits info.issigned),
        ◌>>=◌,
        decode-encode 8 info.num (total ++ (lists ++ rest)) h.num_fits,
        ◌>>=◌,
        decode-encode 8 info.total_run_length (lists ++ rest) h.total_fits,
        ◌>>=◌,
        sign_lem info.issigned,
      )
      (counts_lem info rest h)
