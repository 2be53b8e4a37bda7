-- ===== src/Http/Search.antt =====
-- `find_subsequence` and `starts_with` of crates/spl-core/src/http.rs on longer input.
use spl_rust.Base.{
  ℕ, suc, ◌+◌, ◌≤◌, ◌<◌, ◌≡◌, refl, inl, inr, arith, true, false, ◌||◌, List, [], ◌∷◌, ◌++◌, some,
  Bool-cases, Option-cases, ltb, ◌==◌, length, length-append,
}
use spl_rust.Http.{starts_with, position_of, find_subsequence}

pub starts_with-length : (xs ys : List ℕ) → starts_with xs ys ≡ true → length ys ≤ length xs
unfolding starts_with
starts_with-length xs [] h = omega arith
starts_with-length [] (y ∷ ys) h = cc
starts_with-length (x ∷ xs) (y ∷ ys) h = ground (arith, starts_with-length xs ys)

pub starts_with-append :
    (xs more ys : List ℕ) → length ys ≤ length xs → starts_with (xs ++ more) ys ≡ starts_with xs ys
unfolding starts_with
starts_with-append xs more [] h = refl
starts_with-append [] more (y ∷ ys) h = elim h [ ]
starts_with-append (x ∷ xs) more (y ∷ ys) h = ground (arith, starts_with-append xs more ys)

position_of-append :
    (xs more ys : List ℕ) {p : ℕ}
    → position_of xs ys ≡ some p
    → (position_of (xs ++ more) ys ≡ some p) × (p + length ys ≤ length xs)
unfolding position_of
position_of-append [] more ys e = cc
position_of-append (x ∷ xs) more ys {p} e = elim (Bool-cases (starts_with (x ∷ xs) ys)) [
  | inl here ↦
      let fits = starts_with-length (x ∷ xs) ys here in
      let zero_at : 0 ≡ p = cc (rw here at e) in
      (rw (starts_with-append (x ∷ xs) more ys fits, here, zero_at) refl, omega arith)
  | inr later ↦ elim (Option-cases (position_of xs ys)) [
    | inl never ↦ cc (rw (later, never) at e)
    | inr (q, found) ↦
        let (again, fits) = position_of-append xs more ys found in
        let next : suc q ≡ p = cc (rw (later, found) at e) in
        (
          rw (starts_with-append (x ∷ xs) more ys (omega arith), later, again, next) refl,
          omega arith,
        )
  ]
]

pub find_subsequence-append :
    (xs more ys : List ℕ) {p : ℕ}
    → find_subsequence xs ys ≡ some p
    → (find_subsequence (xs ++ more) ys ≡ some p) × (p + length ys ≤ length xs)
unfolding find_subsequence
find_subsequence-append xs more ys {p} e =
    elim (Bool-cases (length ys == 0 || ltb (length xs) (length ys))) [
      | inl refused ↦ cc (rw refused at e)
      | inr searched ↦
          let (again, fits) = position_of-append xs more ys (rw searched at e) in
          let still : (length ys == 0 || ltb (length (xs ++ more)) (length ys)) ≡ false =
            ground (arith, length-append xs more) in
          (rw still again, fits)
    ]

-- What is found whole within the first part of the input is found in that part.
position_of-prefix :
    (xs more ys : List ℕ) {p : ℕ}
    → 0 < length ys
    → position_of (xs ++ more) ys ≡ some p
    → p + length ys ≤ length xs
    → position_of xs ys ≡ some p
unfolding position_of
position_of-prefix [] more ys h e fits = let never : ⊥ = omega arith in elim never [ ]
position_of-prefix (x ∷ xs) more ys {p} h e fits =
    let same = starts_with-append (x ∷ xs) more ys (omega arith) in
    elim (Bool-cases (starts_with (x ∷ xs) ys)) [
      | inl here ↦ rw here (rw (same, here) at e)
      | inr later ↦ elim (Option-cases (position_of (xs ++ more) ys)) [
        | inl never ↦ cc (rw (same, later, never) at e)
        | inr (q, found) ↦
            let next : suc q ≡ p = cc (rw (same, later, found) at e) in
            let again = position_of-prefix xs more ys h found (omega arith) in
            rw (later, again, next) refl
      ]
    ]

pub find_subsequence-prefix :
    (xs more ys : List ℕ) {p : ℕ}
    → find_subsequence (xs ++ more) ys ≡ some p
    → p + length ys ≤ length xs
    → find_subsequence xs ys ≡ some p
unfolding find_subsequence
find_subsequence-prefix xs more ys {p} e fits =
    elim (Bool-cases (length ys == 0 || ltb (length (xs ++ more)) (length ys))) [
      | inl refused ↦ cc (rw refused at e)
      | inr searched ↦
          let again = position_of-prefix xs more ys (ground arith) (rw searched at e) fits in
          let still : (length ys == 0 || ltb (length xs) (length ys)) ≡ false = ground arith in
          rw still again
    ]
