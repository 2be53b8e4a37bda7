-- ===== src/Pairlink/Layout.antt =====
-- Pair-link blobs written field by field, through `parse_blob` of crates/spl-core/src/pairlink.rs.
use spl_rust.Base.{
  ℕ, zero, suc, ◌+◌, ◌*◌, ◌/◌, ◌%◌, ◌≤◌, ◌<◌, ◌≡◌, refl, sym, ap, ◌∙◌, arith, true, false, ◌||◌,
  List, [], ◌∷◌, ◌++◌, append_assoc, append-nil, map, Option, Result, ok, ltb, ◌==◌, length,
  length-append, get_or, take, drop, take-length-append, drop-length-append, drop-add, All,
}
use spl_rust.Pairlink.{
  Endpoint, direct, PairLinkError, max_direct_candidates, hex_lower, Ipv4, ipv4_string,
  is_allowed_direct_ipv4, normalize_port, require, slice, octets_at, octets_from, port_at,
  same_endpoint, is_listed, check_candidates, push_candidates, parse_candidates, parse_v05,
  parse_blob,
}
use spl_rust.Pairlink.Accepted.{IsDistinct, same_endpoint_sym}

unfoldable pub address_bytes : List Ipv4 → List ℕ
address_bytes [] = []
address_bytes (o ∷ os) = o.a ∷ o.b ∷ o.c ∷ o.d ∷ address_bytes os

-- The fields of a direct link with several addresses, in the order of the wire.
unfoldable pub direct_blob : ℕ → List Ipv4 → List ℕ → List ℕ → List ℕ
direct_blob port os nonce ca_fp =
    (0x05 ∷ 0x01 ∷ length os ∷ port / 256 ∷ port % 256 ∷ address_bytes os) ++ (nonce ++ ca_fp)

abbrev pub endpoint : ℕ → Ipv4 → Endpoint
endpoint port o = record { host = ipv4_string o; port = port }

pub length-address_bytes : (os : List Ipv4) → length (address_bytes os) ≡ 4 * length os
unfolding address_bytes
length-address_bytes [] = omega arith
length-address_bytes (o ∷ os) = omega (arith, length-address_bytes os)

pub get_or-drop : (xs : List ℕ) (n i d : ℕ) → get_or xs (n + i) d ≡ get_or (drop n xs) i d
get_or-drop xs zero i d = ap (λ (k : ℕ). get_or xs k d) (omega arith)
get_or-drop [] (suc n) i d = refl
get_or-drop (x ∷ xs) (suc n) i d =
    let same : suc n + i ≡ suc (n + i) = omega arith in
    ap (λ (k : ℕ). get_or (x ∷ xs) k d) same ∙ get_or-drop xs n i d

-- Four bytes at an offset are read as an address.
octets_at-drop :
    (xs rest : List ℕ) (offset : ℕ) (o : Ipv4)
    → drop offset xs ≡ o.a ∷ o.b ∷ o.c ∷ o.d ∷ rest
    → octets_at xs offset ≡ o
unfolding octets_at
octets_at-drop xs rest offset o e =
    let first : get_or xs offset 0 ≡ o.a =
      ap (λ (k : ℕ). get_or xs k 0) (omega arith) ∙ get_or-drop xs offset 0 0 ∙ rw e refl in
    let second : get_or xs (offset + 1) 0 ≡ o.b = get_or-drop xs offset 1 0 ∙ rw e refl in
    let third : get_or xs (offset + 2) 0 ≡ o.c = get_or-drop xs offset 2 0 ∙ rw e refl in
    let fourth : get_or xs (offset + 3) 0 ≡ o.d = get_or-drop xs offset 3 0 ∙ rw e refl in
    rw (first, second, third, fourth) refl

octets_from-address_bytes :
    (os : List Ipv4) (xs rest : List ℕ) (offset : ℕ)
    → drop offset xs ≡ address_bytes os ++ rest
    → octets_from xs offset (length os) ≡ os
unfolding octets_from address_bytes
octets_from-address_bytes [] xs rest offset e = refl
octets_from-address_bytes (o ∷ os) xs rest offset e =
    let further : drop (offset + 4) xs ≡ address_bytes os ++ rest =
      drop-add offset 4 xs ∙ ap (drop 4) e in
    rw
      (
        octets_at-drop xs (address_bytes os ++ rest) offset o e,
        octets_from-address_bytes os xs rest (offset + 4) further,
      )
      refl

-- An endpoint in front of which nothing is listed twice is not listed there.
listed_once :
    (e x : Endpoint) (ys rest : List Endpoint)
    → is_listed x (ys ++ e ∷ rest) ≡ false
    → same_endpoint e x ≡ false
unfolding is_listed
listed_once e x [] rest h = ground arith
listed_once e x (y ∷ ys) rest h = listed_once e x ys rest (ground arith)

fresh-IsDistinct :
    (e : Endpoint) (candidates rest : List Endpoint)
    → IsDistinct (candidates ++ e ∷ rest)
    → is_listed e candidates ≡ false
unfolding is_listed
fresh-IsDistinct e [] rest d = refl
fresh-IsDistinct e (x ∷ xs) rest d =
    rw (same_endpoint_sym x e, listed_once e x xs rest d.0) (fresh-IsDistinct e xs rest d.1)

push_candidates-IsDistinct :
    (port : ℕ) (candidates : List Endpoint) (os : List Ipv4)
    → IsDistinct (candidates ++ map (endpoint port) os)
    → push_candidates port candidates os ≡ candidates ++ map (endpoint port) os
unfolding push_candidates
push_candidates-IsDistinct port candidates [] d = sym (append-nil candidates)
push_candidates-IsDistinct port candidates (o ∷ os) d =
    let fresh = fresh-IsDistinct (endpoint port o) candidates (map (endpoint port) os) d in
    rw fresh (
      push_candidates-IsDistinct port (candidates ++ endpoint port o ∷ []) os (rw append_assoc d)
      ∙ append_assoc candidates (endpoint port o ∷ []) (map (endpoint port) os))

check_candidates_all :
    {A : Type 0} (os : List Ipv4) (rest : Result PairLinkError A)
    → All (λ (o : Ipv4). is_allowed_direct_ipv4 o ≡ true) os
    → check_candidates os rest ≡ rest
unfolding check_candidates
check_candidates_all [] rest h = refl
check_candidates_all (o ∷ os) rest h = rw h.0 (check_candidates_all os rest h.1)

pub require_enough :
    {A : Type 0} (blob : List ℕ) (end : ℕ) (rest : Result PairLinkError A)
    → end ≤ length blob
    → require blob end rest ≡ rest
unfolding require
require_enough blob end rest h = ground arith

-- The two halves of what is behind the addresses.
pub slice-front :
    (front nonce ca_fp : List ℕ) (start : ℕ)
    → length front ≡ start
    → slice (front ++ (nonce ++ ca_fp)) start (length nonce) ≡ nonce
slice-front front nonce ca_fp start e =
    rw (← e, drop-length-append front (nonce ++ ca_fp)) (take-length-append nonce ca_fp)

pub slice-back :
    (front nonce ca_fp : List ℕ) (start : ℕ)
    → length front + length nonce ≡ start
    → slice (front ++ (nonce ++ ca_fp)) start (length ca_fp) ≡ ca_fp
slice-back front nonce ca_fp start e =
    rw
      (
        ← e,
        drop-add (length front) (length nonce) (front ++ (nonce ++ ca_fp)),
        drop-length-append front (nonce ++ ca_fp),
        drop-length-append nonce ca_fp,
      )
      (ap (take (length ca_fp)) (sym (append-nil ca_fp)) ∙ take-length-append ca_fp [])

module _ (port : ℕ) (os : List Ipv4) (nonce ca_fp : List ℕ) where
  abbrev direct_front : List ℕ
  direct_front = 0x05 ∷ 0x01 ∷ length os ∷ port / 256 ∷ port % 256 ∷ address_bytes os

  length-direct_front : length direct_front ≡ 5 + 4 * length os
  length-direct_front = omega (arith, length-address_bytes os)

  length-direct_blob :
      length nonce ≡ 16
      → length ca_fp ≡ 16
      → length (direct_blob port os nonce ca_fp) ≡ 37 + 4 * length os
  unfolding direct_blob
  length-direct_blob hn hc = omega (
    arith,
    hn,
    hc,
    length-direct_front,
    length-append direct_front (nonce ++ ca_fp),
    length-append nonce ca_fp,
  )

  parse_candidates-direct_blob :
      All (λ (o : Ipv4). is_allowed_direct_ipv4 o ≡ true) os
      → IsDistinct (map (endpoint (normalize_port port)) os)
      → length nonce ≡ 16
      → length ca_fp ≡ 16
      → parse_candidates (direct_blob port os nonce ca_fp) (length os)
        ≡ ok (record {
          candidates = map (endpoint (normalize_port port)) os;
          nonce_hex = hex_lower nonce;
          ca_fp_prefix = ca_fp;
        })
  unfolding parse_candidates direct_blob port_at
  parse_candidates-direct_blob allowed distinct hn hc =
      let whole = length-direct_blob hn hc in
      let read =
        octets_from-address_bytes os (direct_blob port os nonce ca_fp) (nonce ++ ca_fp) 5 refl in
      let split : port / 256 * 256 + port % 256 ≡ port = omega arith in
      let front : slice (direct_front ++ (nonce ++ ca_fp)) (5 + 4 * length os) 16 ≡ nonce =
        rw hn at (slice-front direct_front nonce ca_fp (5 + 4 * length os) length-direct_front) in
      let back : slice (direct_front ++ (nonce ++ ca_fp)) (5 + 4 * length os + 16) 16 ≡ ca_fp =
        rw hc at (
          slice-back direct_front nonce ca_fp (5 + 4 * length os + 16)
            (omega (arith, hn, length-direct_front))) in
      require_enough (direct_blob port os nonce ca_fp) 5 _ (omega (arith, whole))
      ∙ require_enough (direct_blob port os nonce ca_fp) (5 + 4 * length os + 16 + 16) _
          (omega (arith, whole))
      ∙ rw
          (
            read,
            check_candidates_all os _ allowed,
            split,
            front,
            back,
            push_candidates-IsDistinct (normalize_port port) [] os distinct,
          )
          refl

-- A direct link written field by field, with one to four allowed addresses of which no two give the
-- same endpoint, a nonce of 16 bytes and a pin of 16 bytes, is read back: the addresses in order
-- with the normalized port, the nonce in hexadecimal and the pin.
pub parse_blob-direct_blob :
    (from_utf8 : List ℕ → Option (List ℕ)) (port : ℕ) (os : List Ipv4) (nonce ca_fp : List ℕ)
    → 0 < length os
    → length os ≤ max_direct_candidates
    → All (λ (o : Ipv4). is_allowed_direct_ipv4 o ≡ true) os
    → IsDistinct (map (endpoint (normalize_port port)) os)
    → length nonce ≡ 16
    → length ca_fp ≡ 16
    → parse_blob from_utf8 (direct_blob port os nonce ca_fp)
      ≡ ok (
          direct (record {
            candidates = map (endpoint (normalize_port port)) os;
            nonce_hex = hex_lower nonce;
            ca_fp_prefix = ca_fp;
          }))
unfolding parse_blob parse_v05 direct_blob
parse_blob-direct_blob from_utf8 port os nonce ca_fp least most allowed distinct hn hc =
    let whole = length-direct_blob port os nonce ca_fp hn hc in
    let counted : (length os == 0 || ltb max_direct_candidates (length os)) ≡ false =
      ground arith in
    let read = parse_candidates-direct_blob port os nonce ca_fp allowed distinct hn hc in
    rw (require_enough (direct_blob port os nonce ca_fp) 3 _ (omega (arith, whole)), counted, read)
      refl
