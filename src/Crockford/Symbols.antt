-- ===== src/Crockford/Symbols.antt =====
-- crates/spl-core/src/crockford.rs: what one symbol that `encode` writes does to a reader that has
-- read the symbols before it.
use spl_rust.Base.{
  ℕ, ◌+◌, ◌-◌, ◌*◌, ◌/◌, ◌%◌, ◌^◌, ◌≡◌, refl, ap, ◌∙◌, arith, bit_and, Bool, true, false, not, List,
  [], ◌∷◌, ◌++◌, Result, ok, err, leb, ◌==◌, get_or, if◌then◌else◌, ==_iff,
}
use spl_rust.Base.Bits.{passes, passes_at}
use spl_rust.Base.Masks.{bit_and-mask5, shift_symbol}
use spl_rust.Crockford.{
  alphabet, CrockfordError, symbol_value, symbol_value-alphabet, reads_as, DecodeState, new_decode,
  take_symbol, decode_symbols,
}

-- The symbol of five bits.
abbrev pub symbol : ℕ → ℕ
symbol x = get_or alphabet (bit_and x 0x1f) 0

value_of : (r : Result CrockfordError ℕ) (v : ℕ) → reads_as r v ≡ true → r ≡ ok v
unfolding reads_as
value_of (ok w) v h = ap ok ((==_iff w v).0 h)
value_of (err e) v h = ground arith

symbol_value-symbol : (x : ℕ) → symbol_value (symbol x) ≡ ok (x % 32)
symbol_value-symbol x =
    ap (λ (v : ℕ). symbol_value (get_or alphabet v 0)) (bit_and-mask5 x)
    ∙ value_of (symbol_value (get_or alphabet (x % 32) 0)) (x % 32)
        (symbol_value-alphabet (x % 32) (omega arith)).0

is_false : (b : Bool) → not b ≡ true → b ≡ false
is_false true h = ground arith
is_false false h = refl

-- No symbol is the hyphen that `decode` skips.
symbol_kept : (x : ℕ) → (symbol x == 45) ≡ false
unfolding passes
symbol_kept x =
    ap (λ (v : ℕ). get_or alphabet v 0 == 45) (bit_and-mask5 x)
    ∙ is_false (get_or alphabet (x % 32) 0 == 45)
        (passes_at (λ v. not (get_or alphabet v 0 == 45)) 32 {n = x % 32} (omega arith) refl)

after_symbol :
    (hyphen : Bool) (read : Result CrockfordError ℕ) (s t : DecodeState) (xs ys : List ℕ)
    → ((s' : DecodeState)
        → decode_symbols s' xs ≡ ok t
        → decode_symbols s' (xs ++ ys) ≡ decode_symbols t ys)
    → (if hyphen
        then decode_symbols s xs
        else elim read [ ok value ↦ decode_symbols (take_symbol s value) xs | err e ↦ err e ])
      ≡ ok t
    → (if hyphen then decode_symbols s (xs ++ ys) else elim read [
      | ok value ↦ decode_symbols (take_symbol s value) (xs ++ ys)
      | err e ↦ err e
    ])
      ≡ decode_symbols t ys
after_symbol true read s t xs ys later h = later s h
after_symbol false (ok value) s t xs ys later h = later (take_symbol s value) h
after_symbol false (err e) s t xs ys later h = ground arith

-- A reader that got through `xs` reads what follows from where it stands.
decode_symbols-append :
    (s t : DecodeState) (xs ys : List ℕ)
    → decode_symbols s xs ≡ ok t
    → decode_symbols s (xs ++ ys) ≡ decode_symbols t ys
unfolding decode_symbols
decode_symbols-append s t [] ys h =
    ap
      (λ (r : Result CrockfordError DecodeState). elim r [
        | ok u ↦ decode_symbols u ys
        | err e ↦ err e
      ])
      h
decode_symbols-append s t (x ∷ xs) ys h =
    after_symbol (x == 45) (symbol_value x) s t xs ys (λ s' g. decode_symbols-append s' t xs ys g) h

-- The text `text` is read so far as the bytes `out`, with `bits` low bits of `buffer` to come.
abbrev pub Reads : List ℕ → List ℕ → ℕ → ℕ → Type 0
Reads text out buffer bits =
    decode_symbols new_decode text ≡ ok (record { out = out; buffer = buffer; bits = bits })

one_symbol :
    (s : DecodeState) (x : ℕ) → decode_symbols s (symbol x ∷ []) ≡ ok (take_symbol s (x % 32))
unfolding decode_symbols
one_symbol s x = rw (symbol_kept x, symbol_value-symbol x) refl

next_symbol :
    (text : List ℕ) (s : DecodeState) (x : ℕ)
    → decode_symbols new_decode text ≡ ok s
    → decode_symbols new_decode (text ++ symbol x ∷ []) ≡ ok (take_symbol s (x % 32))
next_symbol text s x h = decode_symbols-append new_decode s text (symbol x ∷ []) h ∙ one_symbol s x

-- A symbol that does not fill a byte.
pub next_symbol-short :
    (text out : List ℕ) (buffer bits x : ℕ)
    → leb 8 (bits + 5) ≡ false
    → Reads text out buffer bits
    → Reads (text ++ symbol x ∷ []) out (buffer % 2 ^ 27 * 32 + x % 32) (bits + 5)
unfolding take_symbol
next_symbol-short text out buffer bits x short h =
    next_symbol text (record { out = out; buffer = buffer; bits = bits }) x h
    ∙ rw (short, shift_symbol buffer (x % 32) (omega arith)) refl

-- A symbol that fills the byte `last`.
pub next_symbol-full :
    (text out : List ℕ) (buffer bits x last : ℕ)
    → leb 8 (bits + 5) ≡ true
    → (buffer % 2 ^ 27 * 32 + x % 32) / 2 ^ (bits + 5 - 8) % 256 ≡ last
    → Reads text out buffer bits
    → Reads
        (text ++ symbol x ∷ [])
        (out ++ last ∷ [])
        (buffer % 2 ^ 27 * 32 + x % 32)
        (bits + 5 - 8)
unfolding take_symbol
next_symbol-full text out buffer bits x last full byte h =
    next_symbol text (record { out = out; buffer = buffer; bits = bits }) x h
    ∙ rw (full, shift_symbol buffer (x % 32) (omega arith), byte) refl
