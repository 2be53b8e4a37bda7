-- ===== src/Sni/Rounds.antt =====
-- The loops of crates/spl-bridge/src/sni.rs over the lists inside a ClientHello, on more rounds.
use spl_rust.Base.{
  ℕ, zero, suc, ◌+◌, ◌*◌, ◌≤◌, ◌≡◌, refl, ◌⊎◌, inl, inr, arith, Bool, true, false, ◌||◌, List,
  Option, Result, ok, err, Result-cases, Bool-cases, le_or_lt, length, length-drop, ltb, ◌==◌,
  get_or, take, drop,
}
use spl_rust.Http.Message.{same_text}
use spl_rust.Sni.{
  SniError, malformed_client_hello, Cursor, take_bytes, read_u8, read_u16, acme_protocol,
  alpn_rounds, take_name, name_rounds, Seen, take_extension, extension_rounds,
}

-- A read fails, or takes `n` bytes off the cursor.
abbrev Reads {ℓ} : {A : Type ℓ} → Cursor → ℕ → Result SniError (A × Cursor) → Type ℓ
Reads {A = A} c n r =
    ((e : SniError) × (r ≡ err e))
    ⊎ ((a : A) × (c' : Cursor) × (r ≡ ok (a, c')) × (length c'.unread + n ≡ length c.unread))

take_bytes-Reads : (c : Cursor) (n : ℕ) → Reads c n (take_bytes c n)
unfolding take_bytes
take_bytes-Reads c n = elim (le_or_lt n (length c.unread)) [
  | inr over ↦
      let short : ltb (length c.unread) n ≡ true = ground arith in
      inl (malformed_client_hello, rw short refl)
  | inl fits ↦
      let whole : ltb (length c.unread) n ≡ false = ground arith in
      inr (
        take n c.unread,
        record { unread = drop n c.unread },
        rw whole refl,
        omega (arith, length-drop n c.unread, fits),
      )
]

read_u8-Reads : (c : Cursor) → Reads c 1 (read_u8 c)
unfolding read_u8
read_u8-Reads c = elim (take_bytes-Reads c 1) [
  | inl (e, failed) ↦ inl (e, rw (failed, read_u8) refl)
  | inr (bytes, c', took, left) ↦ inr (get_or bytes 0 0, c', rw (took, read_u8) refl, left)
]

read_u16-Reads : (c : Cursor) → Reads c 2 (read_u16 c)
unfolding read_u16
read_u16-Reads c = elim (take_bytes-Reads c 2) [
  | inl (e, failed) ↦ inl (e, rw (failed, read_u16) refl)
  | inr (bytes, c', took, left) ↦
      inr (get_or bytes 0 0 * 256 + get_or bytes 1 0, c', rw (took, read_u16) refl, left)
]

alpn_rounds_enough :
    (n m : ℕ) (c : Cursor) (has_acme : Bool)
    → length c.unread ≤ n
    → length c.unread ≤ m
    → alpn_rounds n c has_acme ≡ alpn_rounds m c has_acme
unfolding alpn_rounds
alpn_rounds_enough zero zero c has_acme h k = refl
alpn_rounds_enough zero (suc m) c has_acme h k =
    let nothing : (length c.unread == 0) ≡ true = ground arith in rw nothing refl
alpn_rounds_enough (suc n) zero c has_acme h k =
    let nothing : (length c.unread == 0) ≡ true = ground arith in rw nothing refl
alpn_rounds_enough (suc n) (suc m) c has_acme h k = elim (Bool-cases (length c.unread == 0)) [
  | inl nothing ↦ rw nothing refl
  | inr some_left ↦ elim (read_u8-Reads c) [
    | inl (e, failed) ↦ rw (some_left, failed) refl
    | inr (len, c1, read, left1) ↦ elim (take_bytes-Reads c1 len) [
      | inl (e, failed) ↦ rw (some_left, read) (rw failed refl)
      | inr (proto, c2, took, left2) ↦
          rw (some_left, read)
            (rw took (
              alpn_rounds_enough n m c2 (same_text proto acme_protocol || has_acme)
                (omega (arith, h, left1, left2)) (omega (arith, k, left1, left2))))
    ]
  ]
]

extension_rounds_enough :
    (from_utf8 : List ℕ → Option (List ℕ)) (n m : ℕ) (c : Cursor) (seen : Seen)
    → length c.unread ≤ n
    → length c.unread ≤ m
    → extension_rounds from_utf8 n c seen ≡ extension_rounds from_utf8 m c seen
unfolding extension_rounds
extension_rounds_enough from_utf8 zero zero c seen h k = refl
extension_rounds_enough from_utf8 zero (suc m) c seen h k =
    let nothing : (length c.unread == 0) ≡ true = ground arith in rw nothing refl
extension_rounds_enough from_utf8 (suc n) zero c seen h k =
    let nothing : (length c.unread == 0) ≡ true = ground arith in rw nothing refl
extension_rounds_enough from_utf8 (suc n) (suc m) c seen h k =
    elim (Bool-cases (length c.unread == 0)) [
      | inl nothing ↦ rw nothing refl
      | inr some_left ↦ elim (read_u16-Reads c) [
        | inl (e, failed) ↦ rw (some_left, failed) refl
        | inr (kind, c1, read, left1) ↦ elim (read_u16-Reads c1) [
          | inl (e, failed) ↦ rw (some_left, read) (rw failed refl)
          | inr (len, c2, sized, left2) ↦ elim (take_bytes-Reads c2 len) [
            | inl (e, failed) ↦ rw (some_left, read) (rw sized (rw failed refl))
            | inr (bytes, c3, took, left3) ↦
                rw (some_left, read)
                  (rw sized (
                    rw took (elim (Result-cases (take_extension from_utf8 kind bytes seen)) [
                      | inr (e, refused) ↦ rw refused refl
                      | inl (seen', accepted) ↦ rw accepted (
                          extension_rounds_enough from_utf8 n m c3 seen'
                            (omega (arith, h, left1, left2, left3))
                            (omega (arith, k, left1, left2, left3)))
                    ])))
          ]
        ]
      ]
    ]

name_rounds_enough :
    (from_utf8 : List ℕ → Option (List ℕ)) (n m : ℕ) (c : Cursor) (hostname : Option (List ℕ))
    → length c.unread ≤ n
    → length c.unread ≤ m
    → name_rounds from_utf8 n c hostname ≡ name_rounds from_utf8 m c hostname
unfolding name_rounds
name_rounds_enough from_utf8 zero zero c hostname h k = refl
name_rounds_enough from_utf8 zero (suc m) c hostname h k =
    let nothing : (length c.unread == 0) ≡ true = ground arith in rw nothing refl
name_rounds_enough from_utf8 (suc n) zero c hostname h k =
    let nothing : (length c.unread == 0) ≡ true = ground arith in rw nothing refl
name_rounds_enough from_utf8 (suc n) (suc m) c hostname h k =
    elim (Bool-cases (length c.unread == 0)) [
      | inl nothing ↦ rw nothing refl
      | inr some_left ↦ elim (read_u8-Reads c) [
        | inl (e, failed) ↦ rw (some_left, failed) refl
        | inr (kind, c1, read, left1) ↦ elim (read_u16-Reads c1) [
          | inl (e, failed) ↦ rw (some_left, read) (rw failed refl)
          | inr (len, c2, sized, left2) ↦ elim (take_bytes-Reads c2 len) [
            | inl (e, failed) ↦ rw (some_left, read) (rw sized (rw failed refl))
            | inr (name, c3, took, left3) ↦
                rw (some_left, read)
                  (rw sized (
                    rw took (elim (Result-cases (take_name from_utf8 kind name hostname)) [
                      | inr (e, refused) ↦ rw refused refl
                      | inl (found, accepted) ↦ rw accepted (
                          name_rounds_enough from_utf8 n m c3 found
                            (omega (arith, h, left1, left2, left3))
                            (omega (arith, k, left1, left2, left3)))
                    ])))
          ]
        ]
      ]
    ]

-- As many rounds as there are unread bytes are enough for the loops over protocols, names and
-- extensions: more rounds give the same answer.
pub rounds_enough :
    (from_utf8 : List ℕ → Option (List ℕ)) (n m : ℕ) (c : Cursor) (has_acme : Bool)
    (hostname : Option (List ℕ)) (seen : Seen)
    → length c.unread ≤ n
    → length c.unread ≤ m
    → (alpn_rounds n c has_acme ≡ alpn_rounds m c has_acme)
      × (name_rounds from_utf8 n c hostname ≡ name_rounds from_utf8 m c hostname)
      × (extension_rounds from_utf8 n c seen ≡ extension_rounds from_utf8 m c seen)
rounds_enough from_utf8 n m c has_acme hostname seen h k = (
  alpn_rounds_enough n m c has_acme h k,
  name_rounds_enough from_utf8 n m c hostname h k,
  extension_rounds_enough from_utf8 n m c seen h k,
)
