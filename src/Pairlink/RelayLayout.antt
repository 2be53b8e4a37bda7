-- ===== src/Pairlink/RelayLayout.antt =====
-- Relay pair-links written field by field, through `parse_blob` of crates/spl-core/src/pairlink.rs.
use spl_rust.Base.{
  ℕ, ◌+◌, ◌≡◌, refl, sym, ap, ◌∙◌, inl, inr, Bool-cases, arith, List, [], ◌∷◌, ◌++◌, append-nil,
  Option, some, Result, ok, ◌==◌, length, length-append, get_or, take, drop, take-length-append,
  drop-length-append, drop-add, if◌then◌else◌,
}
use spl_rust.Pairlink.{
  relay, PairLinkError, default_relay_origin, require, require_exact, slice, map_relay,
  relay_origin_of, parse_v06, parse_blob,
}
use spl_rust.Pairlink.Layout.{get_or-drop, require_enough}

-- The fields of a relay link, in the order of the wire; no origin stands for the default one.
unfoldable pub relay_blob : List ℕ → List ℕ → List ℕ → List ℕ
relay_blob s ca_fp origin = (0x06 ∷ s) ++ (0x01 ∷ (ca_fp ++ (length origin ∷ origin)))

module _ (s ca_fp origin : List ℕ) (hs : length s ≡ 8) (hc : length ca_fp ≡ 16) where
  length-relay_blob : length (relay_blob s ca_fp origin) ≡ 27 + length origin
  unfolding relay_blob
  length-relay_blob = omega (
    arith,
    hs,
    hc,
    length-append s (0x01 ∷ (ca_fp ++ (length origin ∷ origin))),
    length-append ca_fp (length origin ∷ origin),
  )

  behind_secret : drop 9 (relay_blob s ca_fp origin) ≡ 0x01 ∷ (ca_fp ++ (length origin ∷ origin))
  unfolding relay_blob
  behind_secret = rw hs at (drop-length-append s (0x01 ∷ (ca_fp ++ (length origin ∷ origin))))

  behind_pin : drop 26 (relay_blob s ca_fp origin) ≡ length origin ∷ origin
  behind_pin =
      drop-add 9 17 (relay_blob s ca_fp origin)
      ∙ ap (drop 17) behind_secret
      ∙ (rw hc at (drop-length-append ca_fp (length origin ∷ origin)))

  secret : slice (relay_blob s ca_fp origin) 1 8 ≡ s
  unfolding relay_blob
  secret = rw hs at (take-length-append s (0x01 ∷ (ca_fp ++ (length origin ∷ origin))))

  pin : slice (relay_blob s ca_fp origin) 10 16 ≡ ca_fp
  pin =
      ap (take 16) (drop-add 9 1 (relay_blob s ca_fp origin) ∙ ap (drop 1) behind_secret)
      ∙ (rw hc at (take-length-append ca_fp (length origin ∷ origin)))

  tag : get_or (relay_blob s ca_fp origin) 9 0 ≡ 0x01
  tag = get_or-drop (relay_blob s ca_fp origin) 9 0 0 ∙ rw behind_secret refl

  selector : get_or (relay_blob s ca_fp origin) 26 0 ≡ length origin
  selector = get_or-drop (relay_blob s ca_fp origin) 26 0 0 ∙ rw behind_pin refl

  text : slice (relay_blob s ca_fp origin) 27 (length origin) ≡ origin
  text =
      ap (take (length origin)) (drop-add 26 1 (relay_blob s ca_fp origin) ∙ ap (drop 1) behind_pin)
      ∙ (ap (take (length origin)) (sym (append-nil origin)) ∙ take-length-append origin [])

require_exactly :
    {A : Type 0} (blob : List ℕ) (expected : ℕ) (rest : Result PairLinkError A)
    → length blob ≡ expected
    → require_exact blob expected rest ≡ rest
unfolding require_exact require
require_exactly blob expected rest h = ground arith

abbrev origin_of : List ℕ → List ℕ → List ℕ
origin_of origin named = if length origin == 0 then default_relay_origin else named

relay_origin_of-relay_blob :
    (from_utf8 : List ℕ → Option (List ℕ)) (s ca_fp origin : List ℕ) {named : List ℕ}
    → length s ≡ 8
    → length ca_fp ≡ 16
    → from_utf8 origin ≡ some named
    → relay_origin_of from_utf8 (relay_blob s ca_fp origin) (length origin)
      ≡ ok (origin_of origin named)
unfolding relay_origin_of
relay_origin_of-relay_blob from_utf8 s ca_fp origin hs hc e =
    let whole = length-relay_blob s ca_fp origin hs hc in
    elim (Bool-cases (length origin == 0)) [
      | inl empty ↦
          rw empty (require_exactly (relay_blob s ca_fp origin) 27 _ (ground (arith, whole, empty)))
      | inr named_one ↦ rw named_one (
          require_exactly (relay_blob s ca_fp origin) (27 + length origin) _ whole
          ∙ rw (text s ca_fp origin hs hc, e) refl)
    ]

parse_v06-relay_blob :
    (from_utf8 : List ℕ → Option (List ℕ)) (s ca_fp origin : List ℕ) {named : List ℕ}
    → length s ≡ 8
    → length ca_fp ≡ 16
    → from_utf8 origin ≡ some named
    → parse_v06 from_utf8 (relay_blob s ca_fp origin)
      ≡ ok (record { s = s; ca_fp_spki = ca_fp; relay_origin = origin_of origin named })
unfolding parse_v06
parse_v06-relay_blob from_utf8 s ca_fp origin hs hc e =
    require_enough (relay_blob s ca_fp origin) 27 _
      (omega (arith, length-relay_blob s ca_fp origin hs hc))
    ∙ rw
        (
          tag s ca_fp origin hs hc,
          selector s ca_fp origin hs hc,
          relay_origin_of-relay_blob from_utf8 s ca_fp origin hs hc e,
          secret s ca_fp origin hs hc,
          pin s ca_fp origin hs hc,
        )
        refl

-- A relay link written field by field, with a secret of 8 bytes, a pin of 16 bytes and an origin
-- that is text, is read back: the secret, the pin, and the origin or, when it is empty, the default
-- one.
pub parse_blob-relay_blob :
    (from_utf8 : List ℕ → Option (List ℕ)) (s ca_fp origin : List ℕ) {named : List ℕ}
    → length s ≡ 8
    → length ca_fp ≡ 16
    → from_utf8 origin ≡ some named
    → parse_blob from_utf8 (relay_blob s ca_fp origin)
      ≡ ok (
          relay (record {
            s = s;
            ca_fp_spki = ca_fp;
            relay_origin = if length origin == 0 then default_relay_origin else named;
          }))
unfolding parse_blob relay_blob
parse_blob-relay_blob from_utf8 s ca_fp origin hs hc e =
    ap map_relay (parse_v06-relay_blob from_utf8 s ca_fp origin hs hc e)
