-- ===== src/Pairlink/Accepted.antt =====
-- What the tests of `parse_blob` of crates/spl-core/src/pairlink.rs leave of a direct link.
use spl_rust.Base.{
  ℕ, zero, suc, ◌+◌, ◌*◌, ◌≤◌, ◌<◌, ◌≡◌, ◌≢◌, refl, arith, true, false, not, ◌||◌, List, [], ◌∷◌,
  ◌++◌, Result, ok, err, ltb, ◌==◌, length, length-append, length-take, length-drop, get_or, drop,
  if_intro, All, All-append,
}
use spl_rust.Http.Message.{same_text}
use spl_rust.Frame.Sound.{IsByte}
use spl_rust.Pairlink.{
  Endpoint, PairLink, PairLinkError, addr_type_ipv4, max_direct_candidates, Ipv4, ipv4_string,
  is_allowed_direct_ipv4, normalize_port, require, slice, octets_at, octets_from, port_at,
  same_endpoint, is_listed, check_candidates, push_candidates, parse_v04, parse_candidates,
  parse_v05,
}
use spl_rust.Pairlink.Digits.{IsHexDigit, length-hex_lower, hex_lower-IsHexDigit, slice-IsByte}

-- An endpoint that passed the tests of the parser: the text of an allowed address, and a port.
abbrev pub IsAdmitted : Endpoint → Type 0
IsAdmitted e =
    (o : Ipv4) × (e.host ≡ ipv4_string o) × (is_allowed_direct_ipv4 o ≡ true) × (e.port ≢ 0)

-- No endpoint passes for one that comes later.
abbrev pub IsDistinct : List Endpoint → Type 0
IsDistinct [] = Unit {0}
IsDistinct (e ∷ es) = (is_listed e es ≡ false) × IsDistinct es

-- What the parser's own tests say of a link that it accepts.
pub record IsAccepted (link : PairLink) : Type 0 where
  pub present : 0 < length link.candidates
  pub few : length link.candidates ≤ max_direct_candidates
  pub admitted : All IsAdmitted link.candidates
  pub distinct : IsDistinct link.candidates
  pub nonce : length link.nonce_hex ≡ 32
  pub digits : All IsHexDigit link.nonce_hex
  pub pin : length link.ca_fp_prefix ≡ 16

abbrev pub Accepts : Result PairLinkError PairLink → Type 0
Accepts (ok link) = IsAccepted link
Accepts (err e) = Unit

require_intro :
    (blob : List ℕ) (end : ℕ) (rest : Result PairLinkError PairLink)
    → (end ≤ length blob → Accepts rest)
    → Accepts (require blob end rest)
unfolding require
require_intro blob end rest h =
    if_intro Accepts (ltb (length blob) end) (λ _. tt) (λ e. h (ground arith))

length-slice :
    (blob : List ℕ) (start len : ℕ)
    → start + len ≤ length blob
    → length (slice blob start len) ≡ len
length-slice blob start len h =
    omega (arith, length-take len (drop start blob), length-drop start blob)

normalize_port_pos : (raw : ℕ) → normalize_port raw ≢ 0
unfolding normalize_port
normalize_port_pos raw = ground arith

same_text_sym : (xs ys : List ℕ) → same_text xs ys ≡ same_text ys xs
unfolding same_text
same_text_sym [] [] = refl
same_text_sym [] (y ∷ ys) = refl
same_text_sym (x ∷ xs) [] = refl
same_text_sym (x ∷ xs) (y ∷ ys) = ground (arith, same_text_sym xs ys)

pub same_endpoint_sym : (x y : Endpoint) → same_endpoint x y ≡ same_endpoint y x
unfolding same_endpoint
same_endpoint_sym x y = ground (arith, same_text_sym x.host y.host)

is_listed-snoc :
    (x e : Endpoint) (es : List Endpoint)
    → is_listed x es ≡ false
    → same_endpoint e x ≡ false
    → is_listed x (es ++ e ∷ []) ≡ false
unfolding is_listed
is_listed-snoc x e [] h k = rw k refl
is_listed-snoc x e (c ∷ cs) h k = ground (arith, is_listed-snoc x e cs)

IsDistinct-snoc :
    (e : Endpoint) (es : List Endpoint)
    → IsDistinct es
    → is_listed e es ≡ false
    → IsDistinct (es ++ e ∷ [])
unfolding is_listed
IsDistinct-snoc e [] d h = (refl, tt)
IsDistinct-snoc e (c ∷ cs) d h =
    let other : same_endpoint c e ≡ false = ground arith in
    let later : is_listed e cs ≡ false = ground arith in
    (is_listed-snoc c e cs d.0 (rw (same_endpoint_sym e c) other), IsDistinct-snoc e cs d.1 later)

-- What the second loop makes of the candidates so far.
record IsListing (most : ℕ) (candidates : List Endpoint) : Type 0 where
  few : length candidates ≤ most
  admitted : All IsAdmitted candidates
  distinct : IsDistinct candidates

push_candidates-IsListing :
    (port : ℕ) (candidates : List Endpoint) (os : List Ipv4) (most : ℕ)
    → port ≢ 0
    → All (λ (o : Ipv4). is_allowed_direct_ipv4 o ≡ true) os
    → IsListing most candidates
    → IsListing (most + length os) (push_candidates port candidates os)
      × (length candidates ≤ length (push_candidates port candidates os))
unfolding push_candidates
push_candidates-IsListing port candidates [] most p h v = (
  record { few = omega (arith, v.few); admitted = v.admitted; distinct = v.distinct },
  omega arith,
)
push_candidates-IsListing port candidates (o ∷ os) most p h v =
    if_intro
      (λ (c : List Endpoint).
        IsListing (most + length (o ∷ os)) (push_candidates port c os)
        × (length candidates ≤ length (push_candidates port c os)))
      (is_listed e candidates)
      (λ _.
        let (w, more) = push_candidates-IsListing port candidates os most p h.1 v in
        (record { few = omega (arith, w.few); admitted = w.admitted; distinct = w.distinct }, more))
      (λ fresh.
        let longer = length-append candidates (e ∷ []) in
        let (w, more) =
          push_candidates-IsListing port (candidates ++ e ∷ []) os (suc most) p h.1 (record {
            few = omega (arith, longer, v.few);
            admitted = All-append IsAdmitted candidates (e ∷ []) v.admitted ((o, refl, h.0, p), tt);
            distinct = IsDistinct-snoc e candidates v.distinct fresh;
          }) in
        (
          record { few = omega (arith, w.few); admitted = w.admitted; distinct = w.distinct },
          omega (arith, more, longer),
        ))
  where
    e : Endpoint
    e = record { host = ipv4_string o; port = port }

check_candidates_intro :
    (os : List Ipv4) (rest : Result PairLinkError PairLink)
    → (All (λ (o : Ipv4). is_allowed_direct_ipv4 o ≡ true) os → Accepts rest)
    → Accepts (check_candidates os rest)
unfolding check_candidates
check_candidates_intro [] rest h = h tt
check_candidates_intro (o ∷ os) rest h =
    if_intro Accepts (is_allowed_direct_ipv4 o)
      (λ allowed. check_candidates_intro os rest (λ others. h (allowed, others))) (λ _. tt)

length-octets_from :
    (blob : List ℕ) (offset count : ℕ) → length (octets_from blob offset count) ≡ count
unfolding octets_from
length-octets_from blob offset zero = refl
length-octets_from blob offset (suc count) =
    omega (arith, length-octets_from blob (offset + 4) count)

-- One address at least gives one candidate at least.
push_candidates_present :
    (port : ℕ) (os : List Ipv4)
    → port ≢ 0
    → All (λ (o : Ipv4). is_allowed_direct_ipv4 o ≡ true) os
    → 0 < length os
    → 0 < length (push_candidates port [] os)
unfolding push_candidates is_listed
push_candidates_present port [] p h some_left = elim some_left [ ]
push_candidates_present port (o ∷ os) p h some_left =
    let (_, more) =
      push_candidates-IsListing port (record { host = ipv4_string o; port = port } ∷ []) os 1 p h.1
        (record { few = omega arith; admitted = ((o, refl, h.0, p), tt); distinct = (refl, tt) }) in
    omega (arith, more)

parse_candidates-Accepts :
    (blob : List ℕ) (count : ℕ)
    → All IsByte blob
    → 0 < count
    → count ≤ max_direct_candidates
    → Accepts (parse_candidates blob count)
unfolding parse_candidates port_at
parse_candidates-Accepts blob count bytes least most = require_intro blob 5 _ (λ _.
    require_intro blob (5 + 4 * count + 16 + 16) _ (λ whole.
      check_candidates_intro (octets_from blob 5 count) _ (λ allowed.
        let counted = length-octets_from blob 5 count in
        let (v, _) =
          push_candidates-IsListing (port_at blob 3) [] (octets_from blob 5 count) 0
            (normalize_port_pos _) allowed
            (record { few = omega arith; admitted = tt; distinct = tt }) in
        record {
          present =
              push_candidates_present (port_at blob 3) (octets_from blob 5 count)
                (normalize_port_pos _) allowed (omega (arith, counted, least));
          few = omega (arith, v.few, counted, most);
          admitted = v.admitted;
          distinct = v.distinct;
          nonce = omega (
            arith,
            length-hex_lower (slice blob (5 + 4 * count) 16),
            length-slice blob (5 + 4 * count) 16 (omega (arith, whole)),
          );
          digits = hex_lower-IsHexDigit _ (slice-IsByte blob (5 + 4 * count) 16 bytes);
          pin = length-slice blob (5 + 4 * count + 16) 16 (omega (arith, whole));
        })))

pub parse_v05-Accepts : (blob : List ℕ) → All IsByte blob → Accepts (parse_v05 blob)
unfolding parse_v05
parse_v05-Accepts blob bytes = require_intro blob 3 _ (λ _.
    if_intro Accepts (not (get_or blob 1 0 == addr_type_ipv4)) (λ _. tt)
      (λ _.
        if_intro Accepts (get_or blob 2 0 == 0 || ltb max_direct_candidates (get_or blob 2 0))
          (λ _. tt)
          (λ fits.
            parse_candidates-Accepts blob (get_or blob 2 0) bytes (ground arith) (ground arith))))

pub parse_v04-Accepts : (blob : List ℕ) → All IsByte blob → Accepts (parse_v04 blob)
unfolding parse_v04 port_at is_listed
parse_v04-Accepts blob bytes = require_intro blob 40 _ (λ whole.
    if_intro Accepts (not (get_or blob 1 0 == addr_type_ipv4)) (λ _. tt)
      (λ _.
        if_intro Accepts (not (is_allowed_direct_ipv4 (octets_at blob 2))) (λ _. tt)
          (λ allowed. record {
            present = omega arith;
            few = omega arith;
            admitted = ((octets_at blob 2, refl, ground arith, normalize_port_pos _), tt);
            distinct = (refl, tt);
            nonce = omega (
              arith,
              length-hex_lower (slice blob 8 16),
              length-slice blob 8 16 (omega (arith, whole)),
            );
            digits = hex_lower-IsHexDigit _ (slice-IsByte blob 8 16 bytes);
            pin = length-slice blob 24 16 (omega (arith, whole));
          })))
