-- ===== src/Crockford/RoundTrip.antt =====
-- crates/spl-core/src/crockford.rs: `decode` of what `encode` writes. The two loops run side by
-- side: the reader lags behind the writer by the bits that the writer has not put out yet.
use spl_rust.Base.{
  ℕ, ◌+◌, ◌-◌, ◌*◌, ◌/◌, ◌%◌, ◌^◌, ◌<◌, ◌≡◌, refl, sym, ap, ◌∙◌, arith, bit_and, Bool, true, false,
  not, ◌&&◌, List, [], ◌∷◌, ◌++◌, ok, err, ltb, ◌==◌, if◌then◌else◌, All, append-nil, append_assoc,
}
use spl_rust.Base.Masks.{
  shift_byte, bit_and-zero_below, bit_and-one, bit_and-three, bit_and-seven, bit_and-fifteen,
}
use spl_rust.Crockford.{
  non_zero_padding, decode_symbols, decode, emit_symbols, encode_bytes, encode,
}
use spl_rust.Crockford.Symbols.{symbol, Reads, next_symbol-short, next_symbol-full}

-- The writer has `bits` bits of its buffer left and the reader all the others: the bytes `out`
-- and, when a byte is broken off, its high part.
data Synced : ℕ → ℕ → List ℕ → List ℕ → Type 0 where
  synced0 :
      {writer reader : ℕ} {text out : List ℕ} → Reads text out reader 0 → Synced 0 writer text out
  synced1 :
      {writer reader last : ℕ} {text out : List ℕ}
      → last < 256
      → reader % 128 ≡ last / 2
      → writer % 2 ≡ last % 2
      → Reads text out reader 7
      → Synced 1 writer text (out ++ last ∷ [])
  synced2 :
      {writer reader last : ℕ} {text out : List ℕ}
      → last < 256
      → reader % 64 ≡ last / 4
      → writer % 4 ≡ last % 4
      → Reads text out reader 6
      → Synced 2 writer text (out ++ last ∷ [])
  synced3 :
      {writer reader last : ℕ} {text out : List ℕ}
      → last < 256
      → reader % 32 ≡ last / 8
      → writer % 8 ≡ last % 8
      → Reads text out reader 5
      → Synced 3 writer text (out ++ last ∷ [])
  synced4 :
      {writer reader last : ℕ} {text out : List ℕ}
      → last < 256
      → reader % 16 ≡ last / 16
      → writer % 16 ≡ last % 16
      → Reads text out reader 4
      → Synced 4 writer text (out ++ last ∷ [])

-- `digit` after the low bits of `reader`, as a `u32`.
abbrev joined : ℕ → ℕ → ℕ
joined reader digit = reader % 2 ^ 27 * 32 + digit % 32

-- The writer's buffer with a byte put in.
abbrev fed : ℕ → ℕ → ℕ
fed writer b = writer % 2 ^ 24 * 256 + b

step0 :
    (writer reader b : ℕ) (text out : List ℕ)
    → b < 256
    → Reads text out reader 0
    → Synced 3 (fed writer b) (text ++ symbol (fed writer b / 2 ^ 3) ∷ []) (out ++ b ∷ [])
step0 writer reader b text out h r =
    let w = fed writer b in
    synced3 h (omega arith) (omega arith) (next_symbol-short text out reader 0 (w / 2 ^ 3) refl r)

step1 :
    (writer reader last b : ℕ) (text out : List ℕ)
    → last < 256
    → b < 256
    → reader % 128 ≡ last / 2
    → writer % 2 ≡ last % 2
    → Reads text out reader 7
    → Synced 4
        (fed writer b)
        (text ++ symbol (fed writer b / 2 ^ 4) ∷ [])
        ((out ++ last ∷ []) ++ b ∷ [])
step1 writer reader last b text out k h p q r =
    let w = fed writer b in
    synced4 h (omega arith) (omega arith)
      (next_symbol-full text out reader 7 (w / 2 ^ 4) last refl (omega arith) r)

step2 :
    (writer reader last b : ℕ) (text out : List ℕ)
    → last < 256
    → b < 256
    → reader % 64 ≡ last / 4
    → writer % 4 ≡ last % 4
    → Reads text out reader 6
    → Synced 0
        (fed writer b)
        ((text ++ symbol (fed writer b / 2 ^ 5) ∷ []) ++ symbol (fed writer b / 2 ^ 0) ∷ [])
        ((out ++ last ∷ []) ++ b ∷ [])
step2 writer reader last b text out k h p q r =
    let w = fed writer b in
    let d = joined reader (w / 2 ^ 5) in
    synced0 (
      next_symbol-full (text ++ symbol (w / 2 ^ 5) ∷ []) (out ++ last ∷ []) d 3 (w / 2 ^ 0) b refl
        (omega arith) (next_symbol-full text out reader 6 (w / 2 ^ 5) last refl (omega arith) r))

step3 :
    (writer reader last b : ℕ) (text out : List ℕ)
    → last < 256
    → b < 256
    → reader % 32 ≡ last / 8
    → writer % 8 ≡ last % 8
    → Reads text out reader 5
    → Synced 1
        (fed writer b)
        ((text ++ symbol (fed writer b / 2 ^ 6) ∷ []) ++ symbol (fed writer b / 2 ^ 1) ∷ [])
        ((out ++ last ∷ []) ++ b ∷ [])
step3 writer reader last b text out k h p q r =
    let w = fed writer b in
    let d = joined reader (w / 2 ^ 6) in
    synced1 h (omega arith) (omega arith) (
      next_symbol-short (text ++ symbol (w / 2 ^ 6) ∷ []) (out ++ last ∷ []) d 2 (w / 2 ^ 1) refl
        (next_symbol-full text out reader 5 (w / 2 ^ 6) last refl (omega arith) r))

step4 :
    (writer reader last b : ℕ) (text out : List ℕ)
    → last < 256
    → b < 256
    → reader % 16 ≡ last / 16
    → writer % 16 ≡ last % 16
    → Reads text out reader 4
    → Synced 2
        (fed writer b)
        ((text ++ symbol (fed writer b / 2 ^ 7) ∷ []) ++ symbol (fed writer b / 2 ^ 2) ∷ [])
        ((out ++ last ∷ []) ++ b ∷ [])
step4 writer reader last b text out k h p q r =
    let w = fed writer b in
    let d = joined reader (w / 2 ^ 7) in
    synced2 h (omega arith) (omega arith) (
      next_symbol-short (text ++ symbol (w / 2 ^ 7) ∷ []) (out ++ last ∷ []) d 1 (w / 2 ^ 2) refl
        (next_symbol-full text out reader 4 (w / 2 ^ 7) last refl (omega arith) r))

-- One turn of the loop of `encode`.
next_byte :
    {bits writer b : ℕ} {text out : List ℕ}
    → b < 256
    → Synced bits writer text out
    → let (text', bits') = emit_symbols (bits + 8) (fed writer b) (bits + 8) text in
      Synced bits' (fed writer b) text' (out ++ b ∷ [])
unfolding emit_symbols
next_byte {writer} {b} {text} {out} h (synced0 {reader} r) = step0 writer reader b text out h r
next_byte {writer} {b} {text} h (synced1 {reader} {last} {out} k p q r) =
    step1 writer reader last b text out k h p q r
next_byte {writer} {b} {text} h (synced2 {reader} {last} {out} k p q r) =
    step2 writer reader last b text out k h p q r
next_byte {writer} {b} {text} h (synced3 {reader} {last} {out} k p q r) =
    step3 writer reader last b text out k h p q r
next_byte {writer} {b} {text} h (synced4 {reader} {last} {out} k p q r) =
    step4 writer reader last b text out k h p q r

unpadded {ℓ} : {A : Type ℓ} (left : Bool) (x y : A) → (if left && not (0 == 0) then x else y) ≡ y
unpadded true x y = refl
unpadded false x y = refl

-- A text whose bits left over are zero is read to its end.
decode-Reads :
    (text out : List ℕ) (buffer bits : ℕ)
    → bit_and buffer (2 ^ bits - 1) ≡ 0
    → Reads text out buffer bits
    → decode text ≡ ok out
unfolding decode
decode-Reads text out buffer bits zeros h =
    rw (h, decode) (rw zeros (unpadded (ltb 0 bits) (err non_zero_padding) (ok out)))

-- The padding that `encode` puts after the last byte.
padded_end :
    {bits writer : ℕ} {text out : List ℕ}
    → Synced bits writer text out
    → decode (encode_bytes [] writer bits text) ≡ ok out
unfolding encode_bytes
padded_end {text} {out} (synced0 {reader} r) =
    decode-Reads text out reader 0 (bit_and-zero_below reader reader (omega arith)) r
padded_end {writer} {text} (synced1 {reader} {last} {out} k p q r) =
    let pad = writer * 2 ^ 4 % 2 ^ 32 in
    decode-Reads (text ++ symbol pad ∷ []) (out ++ last ∷ []) (joined reader pad) 4
      (omega (arith, bit_and-fifteen (joined reader pad)))
      (next_symbol-full text out reader 7 pad last refl (omega arith) r)
padded_end {writer} {text} (synced2 {reader} {last} {out} k p q r) =
    let pad = writer * 2 ^ 3 % 2 ^ 32 in
    decode-Reads (text ++ symbol pad ∷ []) (out ++ last ∷ []) (joined reader pad) 3
      (omega (arith, bit_and-seven (joined reader pad)))
      (next_symbol-full text out reader 6 pad last refl (omega arith) r)
padded_end {writer} {text} (synced3 {reader} {last} {out} k p q r) =
    let pad = writer * 2 ^ 2 % 2 ^ 32 in
    decode-Reads (text ++ symbol pad ∷ []) (out ++ last ∷ []) (joined reader pad) 2
      (omega (arith, bit_and-three (joined reader pad)))
      (next_symbol-full text out reader 5 pad last refl (omega arith) r)
padded_end {writer} {text} (synced4 {reader} {last} {out} k p q r) =
    let pad = writer * 2 ^ 1 % 2 ^ 32 in
    decode-Reads (text ++ symbol pad ∷ []) (out ++ last ∷ []) (joined reader pad) 1
      (omega (arith, bit_and-one (joined reader pad)))
      (next_symbol-full text out reader 4 pad last refl (omega arith) r)

decode-encode_bytes :
    (bytes : List ℕ) {bits writer : ℕ} {text out : List ℕ}
    → All (λ b. b < 256) bytes
    → Synced bits writer text out
    → decode (encode_bytes bytes writer bits text) ≡ ok (out ++ bytes)
unfolding encode_bytes
decode-encode_bytes [] {out} hs s = padded_end s ∙ ap ok (sym (append-nil out))
decode-encode_bytes (b ∷ bytes) {bits} {writer} {text} {out} (h, hs) s =
    rw (shift_byte writer b h)
      (decode-encode_bytes bytes hs (next_byte h s) ∙ ap ok (append_assoc out (b ∷ []) bytes))

-- What `encode` writes for a list of bytes, `decode` reads back as that list.
pub decode-encode : (bytes : List ℕ) → All (λ b. b < 256) bytes → decode (encode bytes) ≡ ok bytes
unfolding encode decode_symbols
decode-encode bytes hs = decode-encode_bytes bytes hs (synced0 {writer = 0} {reader = 0} refl)
