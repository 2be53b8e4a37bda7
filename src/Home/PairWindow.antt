-- ===== src/Home/PairWindow.antt =====
-- crates/spl-home/src/pair_window.rs: admission to a single-use pairing window. The derived key and
-- identity are given; the TLS handshake, with the mux behind it, is the parameter `accepted`, its
-- answer when it is reached.
pub mod Key
use spl_rust.Base.{
  ℕ, ◌+◌, ◌/◌, ◌^◌, ◌<◌, ◌≡◌, refl, ◌⊎◌, inl, inr, arith, bit_and, bit_or, bit_xor, Bool, true,
  false, not, List, [], ◌∷◌, Result, ok, err, leb, ◌==◌, length, if◌then◌else◌, Bool-cases,
  Result-cases,
}
use spl_rust.Home.Types.{
  HomeError, pair_window_refused, PairWindowRefusal, wrong_relay_key, consumed, expired,
}

pub record PairWindow : Type 0 where
  pub relay_key : List ℕ
  pub expires_at : ℕ
  pub is_consumed : Bool

-- `HEX[..]`
unfoldable pub hex_symbol : ℕ → ℕ
hex_symbol n = if leb n 9 then 48 + n else 87 + n

unfoldable pub hex_lower : List ℕ → List ℕ
hex_lower [] = []
hex_lower (byte ∷ bytes) =
    hex_symbol (byte / 2 ^ 4) ∷ hex_symbol (bit_and byte 0x0f) ∷ hex_lower bytes

-- `PairWindow::open` with the derived relay key.
unfoldable pub open_window : List ℕ → ℕ → PairWindow
open_window derived_key expires_at = record {
  relay_key = hex_lower derived_key;
  expires_at = expires_at;
  is_consumed = false;
}

-- The loop of `relay_key_matches` over the expected key.
unfoldable pub difference_of : ℕ → List ℕ → List ℕ → ℕ
difference_of difference presented [] = difference
difference_of difference [] (e ∷ es) = difference_of (bit_or difference (bit_xor 0 e)) [] es
difference_of difference (p ∷ ps) (e ∷ es) = difference_of (bit_or difference (bit_xor p e)) ps es

unfoldable pub relay_key_matches : List ℕ → List ℕ → Bool
relay_key_matches presented expected =
    difference_of (bit_xor (length presented) (length expected)) presented expected == 0

unfoldable pub admit {ℓ} :
    {C : Type ℓ} → PairWindow → List ℕ → ℕ → Result HomeError C → Result HomeError C × PairWindow
admit w presented now accepted =
    if not (relay_key_matches presented w.relay_key)
    then (err (pair_window_refused wrong_relay_key), w)
    else if leb w.expires_at now
    then (err (pair_window_refused expired), w)
    else if w.is_consumed
    then (err (pair_window_refused consumed), w)
    else elim accepted [
      | ok connection ↦ (ok connection, record w { is_consumed = true })
      | err e ↦ (err e, w)
    ]

-- A consumed window is refused, whatever is presented and however the handshake would end, and stays
-- as it is.
pub admit-consumed {ℓ} :
    {C : Type ℓ} (w : PairWindow) (presented : List ℕ) (now : ℕ) (accepted : Result HomeError C)
    → w.is_consumed ≡ true
    → (r : PairWindowRefusal) × (admit w presented now accepted ≡ (err (pair_window_refused r), w))
unfolding admit
admit-consumed w presented now accepted spent =
    elim (Bool-cases (relay_key_matches presented w.relay_key)) [
      | inr wrong ↦ (wrong_relay_key, rw wrong refl)
      | inl right ↦ elim (Bool-cases (leb w.expires_at now)) [
        | inl late ↦ (expired, rw (right, late) refl)
        | inr early ↦ (consumed, rw (right, early, spent) refl)
      ]
    ]

admit_cases {ℓ} :
    {C : Type ℓ} (w : PairWindow) (presented : List ℕ) (now : ℕ) (accepted : Result HomeError C)
    → ((e : HomeError) × (admit w presented now accepted ≡ (err e, w)))
      ⊎ ((c : C) × (admit w presented now accepted ≡ (ok c, record w { is_consumed = true }))
          × (accepted ≡ ok c)
          × (relay_key_matches presented w.relay_key ≡ true)
          × (now < w.expires_at))
unfolding admit
admit_cases w presented now accepted = elim (Bool-cases (relay_key_matches presented w.relay_key)) [
  | inr wrong ↦ inl (pair_window_refused wrong_relay_key, rw wrong refl)
  | inl right ↦ elim (Bool-cases (leb w.expires_at now)) [
    | inl late ↦ inl (pair_window_refused expired, rw (right, late) refl)
    | inr early ↦ elim (Bool-cases w.is_consumed) [
      | inl spent ↦ inl (pair_window_refused consumed, rw (right, early, spent) refl)
      | inr fresh ↦ elim (Result-cases accepted) [
        | inl (c, given) ↦ inr (c, rw (right, early, fresh, given) refl, given, right, ground arith)
        | inr (e, given) ↦ inl (e, simp (right, early, fresh, given))
      ]
    ]
  ]
]

-- A window admits only the key it was opened for, before it expires, and only once: after an
-- admission every other one is refused. Any failure leaves the window as it was.
pub admit_once {ℓ} :
    {C : Type ℓ} (w : PairWindow) (presented : List ℕ) (now : ℕ) (accepted : Result HomeError C)
    (presented' : List ℕ) (now' : ℕ) (accepted' : Result HomeError C)
    → ((e : HomeError) × (admit w presented now accepted ≡ (err e, w)))
      ⊎ ((c : C) × (w' : PairWindow) × (admit w presented now accepted ≡ (ok c, w'))
          × (accepted ≡ ok c)
          × (relay_key_matches presented w.relay_key ≡ true)
          × (now < w.expires_at)
          × (r : PairWindowRefusal) × (admit w' presented' now' accepted'
              ≡ (err (pair_window_refused r), w')))
admit_once w presented now accepted presented' now' accepted' =
    elim (admit_cases w presented now accepted) [
      | inl failed ↦ inl failed
      | inr (c, answer, given, right, early) ↦
          let refused =
            admit-consumed (record w { is_consumed = true }) presented' now' accepted' refl in
          inr
            (c, record w { is_consumed = true }, answer, given, right, early, refused.0, refused.1)
    ]
