-- ===== src/Pairlink/Admitted.antt =====
-- The links that `parse_blob` of crates/spl-core/src/pairlink.rs accepts.
use spl_rust.Base.{
  ℕ, ◌≤◌, ◌<◌, ◌≡◌, ◌≢◌, refl, arith, true, false, ◌||◌, List, [], ◌∷◌, Option, Result, ok, err,
  ◌==◌, length, if_intro, All,
}
use spl_rust.Http.Message.{same_text}
use spl_rust.Frame.Sound.{IsByte}
use spl_rust.Pairlink.{
  Endpoint, PairLink, RelayPairLink, ParsedPairLink, direct, PairLinkError, Ipv4, ipv4_string,
  is_allowed_direct_ipv4, same_endpoint, is_listed, parse_v04, parse_v05, map_direct, map_relay,
  parse_v06, parse_blob,
}
use spl_rust.Pairlink.Digits.{IsHexDigit}
use spl_rust.Pairlink.Accepted.{
  IsAdmitted, IsDistinct, IsAccepted, Accepts, parse_v04-Accepts, parse_v05-Accepts,
}

-- An endpoint that may be dialled: the text of an address of which the first octet is from 1 to 223,
-- and a port other than zero.
abbrev pub IsUnicast : Endpoint → Type 0
IsUnicast e = (o : Ipv4) × (e.host ≡ ipv4_string o) × (0 < o.a) × (o.a < 224) × (e.port ≢ 0)

-- No endpoint equals one that comes later.
abbrev pub HasNoRepeat : List Endpoint → Type 0
HasNoRepeat [] = Unit {0}
HasNoRepeat (e ∷ es) = All (λ (x : Endpoint). x ≢ e) es × HasNoRepeat es

pub record IsDialable (link : PairLink) : Type 0 where
  pub present : 0 < length link.candidates
  pub few : length link.candidates ≤ 4
  pub unicast : All IsUnicast link.candidates
  pub no_repeat : HasNoRepeat link.candidates
  pub nonce : length link.nonce_hex ≡ 32
  pub digits : All IsHexDigit link.nonce_hex
  pub pin : length link.ca_fp_prefix ≡ 16

allowed-IsUnicast : (es : List Endpoint) → All IsAdmitted es → All IsUnicast es
unfolding is_allowed_direct_ipv4
allowed-IsUnicast [] h = tt
allowed-IsUnicast (e ∷ es) ((o, host, allowed, port), h) =
    ((o, host, ground arith, ground arith, port), allowed-IsUnicast es h)

same_text_refl : (xs : List ℕ) → same_text xs xs ≡ true
unfolding same_text
same_text_refl [] = refl
same_text_refl (x ∷ xs) = ground (arith, same_text_refl xs)

same_endpoint_refl : (e : Endpoint) → same_endpoint e e ≡ true
unfolding same_endpoint
same_endpoint_refl e = ground (arith, same_text_refl e.host)

unlisted-ne :
    (e : Endpoint) (es : List Endpoint) → is_listed e es ≡ false → All (λ (x : Endpoint). x ≢ e) es
unfolding is_listed
unlisted-ne e [] h = tt
unlisted-ne e (c ∷ cs) h =
    (λ same. cc (rw same at (differs h), same_endpoint_refl e), unlisted-ne e cs (ground arith))
  where
    differs : (same_endpoint c e || is_listed e cs) ≡ false → same_endpoint c e ≡ false
    differs k = ground arith

distinct-HasNoRepeat : (es : List Endpoint) → IsDistinct es → HasNoRepeat es
distinct-HasNoRepeat [] h = tt
distinct-HasNoRepeat (e ∷ es) h = (unlisted-ne e es h.0, distinct-HasNoRepeat es h.1)

IsAccepted-IsDialable : (link : PairLink) → IsAccepted link → IsDialable link
IsAccepted-IsDialable link v = record {
  present = v.present;
  few = v.few;
  unicast = allowed-IsUnicast link.candidates v.admitted;
  no_repeat = distinct-HasNoRepeat link.candidates v.distinct;
  nonce = v.nonce;
  digits = v.digits;
  pin = v.pin;
}

map_direct-Accepts :
    (r : Result PairLinkError PairLink) (link : PairLink)
    → Accepts r
    → map_direct r ≡ ok (direct link)
    → IsDialable link
map_direct-Accepts (ok l) link h e =
    let same : l ≡ link = cc in rw (← same) (IsAccepted-IsDialable l h)
map_direct-Accepts (err x) link h e = cc

-- `ok (relay _)` is not `ok (direct _)`.
map_relay_apart :
    (r : Result PairLinkError RelayPairLink) (link : PairLink) → map_relay r ≢ ok (direct link)
map_relay_apart (ok l) link e = cc
map_relay_apart (err x) link e = cc

-- Whatever blob of bytes is parsed, a direct link that is accepted has one to four candidates, no
-- two of them equal, each the text of an address whose first octet is from 1 to 223 with a port
-- other than zero, a nonce of 32 digits, each `0` to `9` or `a` to `f`, and a pin of 16 bytes.
pub parse_blob-IsDialable :
    (from_utf8 : List ℕ → Option (List ℕ)) (blob : List ℕ) (link : PairLink)
    → All IsByte blob
    → parse_blob from_utf8 blob ≡ ok (direct link)
    → IsDialable link
unfolding parse_blob
parse_blob-IsDialable from_utf8 [] link _ = λ e. cc
parse_blob-IsDialable from_utf8 (version ∷ rest) link bytes =
    if_intro P (version == 0x04)
      (λ _.
        map_direct-Accepts (parse_v04 (version ∷ rest)) link
          (parse_v04-Accepts (version ∷ rest) bytes))
      (λ _.
        if_intro P (version == 0x05)
          (λ _.
            map_direct-Accepts (parse_v05 (version ∷ rest)) link
              (parse_v05-Accepts (version ∷ rest) bytes))
          (λ _.
            if_intro P (version == 0x06)
              (λ _ e.
                let never = map_relay_apart (parse_v06 from_utf8 (version ∷ rest)) link e in
                elim never [ ])
              (λ _ e. cc)))
  where
    P : Result PairLinkError ParsedPairLink → Type 0
    P r = r ≡ ok (direct link) → IsDialable link
