-- ===== src/Reader/Open/Tail.antt =====
-- src/orcreader/ORCReader.cpp: createReader finds the postscript and the footer.
use tengdb.Common.{ℕ, zero, suc, ◌+◌, ◌-◌, ◌%◌, ◌≤◌, ◌<◌, ◌≡◌, refl, sym, ap, ◌∙◌, arith, min}
use tengdb.Common.{leb, ltb, true, List, [], ◌∷◌, ◌++◌, length, length-append, get_or}
use tengdb.Common.Memory.{Memory, bytes_at}
use tengdb.Common.Run.{ok}
use tengdb.Reader.{StripeInformation}
use tengdb.Reader.Open.{
  FileInputStream, directory_size_guess, tail_bytes, with_footer, with_postscript, create_reader,
}
use mathlib.Core.List.{append_assoc}

-- A file of these bytes.
abbrev pub file_of : List ℕ → FileInputStream
file_of contents = record {
  total_length = length contents;
  read = λ n offset i. get_or contents (offset + i) 0;
}

get_or-append_left :
    (xs ys : List ℕ) (i : ℕ) → i < length xs → get_or (xs ++ ys) i 0 ≡ get_or xs i 0
get_or-append_left [] ys i h = absurd (omega arith)
get_or-append_left (x ∷ xs) ys zero h = refl
get_or-append_left (x ∷ xs) ys (suc i) h = get_or-append_left xs ys i (omega arith)

get_or-append_right : (xs ys : List ℕ) (i : ℕ) → get_or (xs ++ ys) (length xs + i) 0 ≡ get_or ys i 0
get_or-append_right [] ys i = ap (λ (n : ℕ). get_or ys n 0) (omega arith)
get_or-append_right (x ∷ xs) ys i =
    ap (λ (n : ℕ). get_or (x ∷ xs ++ ys) n 0) (next (length xs) i) ∙ get_or-append_right xs ys i
  where
    next : (a b : ℕ) → suc a + b ≡ suc (a + b)
    next a b = omega arith

bytes_at-get_or :
    (m : Memory) (p : ℕ) (xs : List ℕ)
    → ((i : ℕ) → i < length xs → m (p + i) ≡ get_or xs i 0)
    → bytes_at m p (length xs) ≡ xs
bytes_at-get_or m p [] h = refl
bytes_at-get_or m p (x ∷ xs) h =
    let here : p + 0 ≡ p = omega arith in
    let first : m p ≡ x = ap m (sym here) ∙ h 0 (omega arith) in
    rw first (
      ap (λ (l : List ℕ). x ∷ l)
        (bytes_at-get_or m (p + 1) xs (λ i less. ap m (omega arith) ∙ h (suc i) (omega arith))))

-- The bytes of a part of a file, read from an offset before it.
part_lem :
    (before xs behind : List ℕ) (offset p : ℕ)
    → offset + p ≡ length before
    → bytes_at (λ i. get_or (before ++ (xs ++ behind)) (offset + i) 0) p (length xs) ≡ xs
part_lem before xs behind offset p e =
    bytes_at-get_or (λ i. get_or (before ++ (xs ++ behind)) (offset + i) 0) p xs
      (λ i less.
        ap (λ (n : ℕ). get_or (before ++ (xs ++ behind)) n 0) (omega arith)
        ∙ get_or-append_right before (xs ++ behind) i
        ∙ get_or-append_left xs behind i less)

tail_lem :
    (m : Memory) (size back n : ℕ)
    → back ≤ size
    → n ≤ back
    → tail_bytes m size back n ≡ ok (bytes_at m (size - back) n)
unfolding tail_bytes
tail_lem m size back n within short =
    let e₁ : leb back size ≡ true = ground arith in
    let e₂ : leb n back ≡ true = ground arith in rw (e₁, tail_bytes, e₂)

-- A file that ends with a footer, a postscript and a byte that holds the postscript's length: the
-- reader has the stripes of these bytes of the footer, where the parser finds the length of the
-- footer in these bytes of the postscript, and where the three are no longer than the part of the
-- file that is read.
pub create_reader-file_of :
    (footer_length : List ℕ → ℕ) (footer : List ℕ → List StripeInformation) (body foot ps : List ℕ)
    → length ps < 256
    → 1 + length ps + length foot ≤ directory_size_guess
    → footer_length ps ≡ length foot
    → let stream = file_of (body ++ (foot ++ (ps ++ (length ps ∷ [])))) in
      create_reader footer_length footer stream
      ≡ ok (record { stream = stream; stripes = footer foot })
unfolding create_reader with_postscript with_footer
create_reader-file_of footer_length footer body foot ps short fits parsed =
    let last = length ps ∷ [] in
    let contents = body ++ (foot ++ (ps ++ last)) in
    let stream = file_of contents in
    let a = length body in
    let b = length foot in
    let c = length ps in
    let long : length contents ≡ a + (b + (c + 1)) =
      length-append body (foot ++ (ps ++ last))
      ∙ ap (λ (n : ℕ). a + n)
          (length-append foot (ps ++ last) ∙ ap (λ (n : ℕ). b + n) (length-append ps last)) in
    let size = min (length contents) directory_size_guess in
    let offset = length contents - size in
    let m = stream.read size offset in
    let last_part : contents ≡ (body ++ (foot ++ ps)) ++ last =
      ap (λ (l : List ℕ). body ++ l) (sym (append_assoc foot ps last))
      ∙ sym (append_assoc body (foot ++ ps) last) in
    let ps_part : contents ≡ (body ++ foot) ++ (ps ++ last) =
      sym (append_assoc body foot (ps ++ last)) in
    let before_ps = length-append body foot in
    let before_last : length (body ++ (foot ++ ps)) ≡ a + (b + c) =
      length-append body (foot ++ ps) ∙ ap (λ (n : ℕ). a + n) (length-append foot ps) in
    let end : m (size - 1) ≡ c =
      ap (λ (l : List ℕ). get_or l (offset + (size - 1)) 0) last_part
      ∙ ap (λ (n : ℕ). get_or ((body ++ (foot ++ ps)) ++ last) n 0)
          (omega (arith, long, before_last))
      ∙ get_or-append_right (body ++ (foot ++ ps)) last 0 in
    let some_bytes : ltb 0 size ≡ true = ground (arith, long) in
    let length_byte : m (size - 1) % 256 ≡ c = omega (arith, end) in
    let ps_bytes : bytes_at m (size - (1 + c)) c ≡ ps =
      ap (λ (l : List ℕ). bytes_at (λ i. get_or l (offset + i) 0) (size - (1 + c)) c) ps_part
      ∙ part_lem (body ++ foot) ps last offset (size - (1 + c)) (omega (arith, long, before_ps)) in
    let foot_bytes : bytes_at m (size - (1 + c + b)) b ≡ foot =
      part_lem body foot (ps ++ last) offset (size - (1 + c + b)) (omega (arith, long)) in
    rw (
      some_bytes,
      create_reader,
      length_byte,
      tail_lem m size (1 + c) c (omega (arith, long)) (omega arith) ∙ ap ok ps_bytes,
      with_postscript,
      parsed,
      length_byte,
      tail_lem m size (1 + c + b) b (omega (arith, long)) (omega arith) ∙ ap ok foot_bytes,
      with_footer,
    )
