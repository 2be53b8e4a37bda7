-- ===== src/Home/Boundary.antt =====
-- A reader of frame boundaries that knows only headers, and how the acceptor of
-- crates/spl-home/src/mux.rs stands beside it while its decoder is drained.
use spl_rust.Base.{
  ℕ, zero, suc, ◌+◌, ◌-◌, ◌<◌, ◌≡◌, refl, inl, inr, arith, List, [], ◌∷◌, ◌++◌, Option, none, some,
  Bool-cases, Option-cases, Result-cases, ltb, ◌==◌, length, if◌then◌else◌,
}
use spl_rust.Base.Maybe.{checked_sub}
use spl_rust.Frame.{Frame, header_len, header_length, next_frame}
use spl_rust.Home.Types.{MuxOutput}
use spl_rust.Home.State.{MuxAcceptor}
use spl_rust.Home.Dispatch.{handle_frame}
use spl_rust.Home.Feed.{
  Pass, going, failed, one_less, some_if_pos, handle_drained, drain_rounds, drain_decoder,
}
use spl_rust.Home.Framing.{SameFraming, handle_frame-SameFraming}

-- Where a reader of the carrier stands: the bytes so far of a header, and how many payload bytes of
-- the frame before it are still to come.
pub record Position : Type 0 where
  pub header : List ℕ
  pub left : ℕ

-- A payload byte is skipped, whatever becomes of its frame; eight other bytes are a header.
unfoldable pub advance_on : List ℕ → ℕ → ℕ → Position
advance_on header byte (suc left) = record { header = header; left = left }
advance_on header byte zero =
    let longer = header ++ byte ∷ [] in
    if length longer == 8
    then record { header = []; left = header_length longer }
    else record { header = longer; left = 0 }

unfoldable pub advance : Position → List ℕ → Position
unfolding advance_on
advance p [] = p
advance p (byte ∷ bytes) = advance (advance_on p.header byte p.left) bytes

abbrev pub amount : Option ℕ → ℕ
amount none = 0
amount (some n) = n

abbrev pub IsPositive : Option ℕ → Type 0
IsPositive none = Unit {0}
IsPositive (some n) = 0 < n

-- An acceptor that stands there: what it keeps for itself of a payload and what it discards are the
-- bytes to come.
pub record IsAt (p : Position) (a : MuxAcceptor) : Type 0 where
  pub header : a.header_buffer ≡ p.header
  pub left : amount a.discarded_payload_remaining + amount a.payload_remaining ≡ p.left
  pub discards : IsPositive a.discarded_payload_remaining
  pub awaits : IsPositive a.payload_remaining

abbrev pub InStep : Position → Pass → Type 0
InStep p (going a out) = IsAt p a
InStep p (failed e a) = Unit

pub SameFraming-IsAt : (p : Position) {a b : MuxAcceptor} → SameFraming a b → IsAt p a → IsAt p b
SameFraming-IsAt p (_, _, _, hdr, pay, dis) v = record {
  header = rw hdr v.header;
  left = rw (pay, dis) v.left;
  discards = rw dis v.discards;
  awaits = rw pay v.awaits;
}

handle_drained-InStep :
    (p : Position) (a : MuxAcceptor) (out : MuxOutput) (f : Frame)
    → IsAt p a
    → InStep p (handle_drained a out f)
unfolding handle_drained
handle_drained-InStep p a out f v =
    elim (Option-cases (checked_sub a.decoder_buffered_bytes (header_len + length f.payload))) [
      | inl e ↦ rw (e, handle_drained) tt
      | inr (left, e) ↦
          let b : MuxAcceptor = record a { decoder_buffered_bytes = left } in
          elim (Result-cases (handle_frame b out f)) [
            | inr (fault, h) ↦ rw (e, handle_drained, h) tt
            | inl ((a', out'), h) ↦
                rw (e, handle_drained, h)
                  (SameFraming-IsAt p {a = b} (handle_frame-SameFraming b out f h) (record {
                    header = v.header;
                    left = v.left;
                    discards = v.discards;
                    awaits = v.awaits;
                  }))
          ]
    ]

drain_rounds-InStep :
    (n : ℕ) (p : Position) (a : MuxAcceptor) (out : MuxOutput)
    → IsAt p a
    → InStep p (drain_rounds n a out)
unfolding drain_rounds
drain_rounds-InStep zero p a out v = v
drain_rounds-InStep (suc n) p a out v = elim (Result-cases (next_frame a.decoder).0) [
  | inr (e, h) ↦ rw (h, drain_rounds) tt
  | inl (none, h) ↦ rw (h, drain_rounds) moved
  | inl (some f, h) ↦
      rw (h, drain_rounds)
        (go (λ a' out' v'. drain_rounds-InStep n p a' out' v') (handle_drained b out f)
          (handle_drained-InStep p b out f moved))
]
  where
    b : MuxAcceptor
    b = record a { decoder = (next_frame a.decoder).1 }

    moved : IsAt p b
    moved = record { header = v.header; left = v.left; discards = v.discards; awaits = v.awaits }

    go :
        ((a' : MuxAcceptor) (out' : MuxOutput) → IsAt p a' → InStep p (drain_rounds n a' out'))
        → (r : Pass) → InStep p r
        → InStep p
            (elim r [ going a'' out' ↦ drain_rounds n a'' out' | failed e a'' ↦ failed e a'' ])
    go rest (going a' out') s = rest a' out' s
    go rest (failed e a') s = tt

pub drain_decoder-InStep :
    (p : Position) (a : MuxAcceptor) (out : MuxOutput) → IsAt p a → InStep p (drain_decoder a out)
unfolding drain_decoder
drain_decoder-InStep p a out v = drain_rounds-InStep (suc (length a.decoder.buf)) p a out v

pub amount-some_if_pos : (n : ℕ) → (amount (some_if_pos n) ≡ n) × IsPositive (some_if_pos n)
amount-some_if_pos n = elim (Bool-cases (ltb 0 n)) [
  | inl pos ↦ rw pos (refl, ground arith)
  | inr none_left ↦ rw none_left (ground arith, tt)
]

pub amount-one_less : (n : ℕ) → 0 < n → (amount (one_less n) ≡ n - 1) × IsPositive (one_less n)
amount-one_less n h = elim (Bool-cases (ltb 1 n)) [
  | inl more ↦ rw more (refl, ground arith)
  | inr last ↦ rw last (ground arith, tt)
]
