-- ===== src/Home/PairWindow/Key.antt =====
-- `relay_key_matches` of crates/spl-home/src/pair_window.rs against equality.
use spl_rust.Base.{
  ℕ, ◌≡◌, refl, ap, ◌∙◌, ◌↔◌, arith, bit_or, bit_xor, true, List, [], ◌∷◌, ==_iff, length,
}
use spl_rust.Base.Differ.{bit_xor-zero, bit_xor_same, bit_or-zero}
use spl_rust.Home.PairWindow.{difference_of, relay_key_matches}

difference_of-zero : (d : ℕ) (ps es : List ℕ) → difference_of d ps es ≡ 0 → d ≡ 0
unfolding difference_of
difference_of-zero d ps [] h = h
difference_of-zero d [] (e ∷ es) h =
    (bit_or-zero d (bit_xor 0 e) (difference_of-zero (bit_or d (bit_xor 0 e)) [] es h)).0
difference_of-zero d (p ∷ ps) (e ∷ es) h =
    (bit_or-zero d (bit_xor p e) (difference_of-zero (bit_or d (bit_xor p e)) ps es h)).0

difference_of_same_length :
    (d : ℕ) (ps es : List ℕ) → length ps ≡ length es → difference_of d ps es ≡ 0 → ps ≡ es
unfolding difference_of
difference_of_same_length d [] [] n h = refl
difference_of_same_length d (p ∷ ps) [] n h = absurd (omega arith)
difference_of_same_length d [] (e ∷ es) n h = absurd (omega arith)
difference_of_same_length d (p ∷ ps) (e ∷ es) n h =
    let both = bit_or-zero d (bit_xor p e) (difference_of-zero (bit_or d (bit_xor p e)) ps es h) in
    ap (λ x. x ∷ ps) (bit_xor-zero p e both.1)
    ∙ ap (λ xs. e ∷ xs) (difference_of_same_length (bit_or d (bit_xor p e)) ps es (omega arith) h)

difference_of_same : (es : List ℕ) → difference_of 0 es es ≡ 0
unfolding difference_of
difference_of_same [] = refl
difference_of_same (e ∷ es) = rw (bit_xor_same e) (difference_of_same es)

-- The comparison of relay keys, which reads every byte of the expected key, accepts exactly the
-- expected key.
pub relay_key_matches_iff :
    (presented expected : List ℕ)
    → (relay_key_matches presented expected ≡ true) ↔ (presented ≡ expected)
unfolding relay_key_matches
relay_key_matches_iff presented expected = (
  λ h.
      let none_differs = (==_iff _ 0).0 h in
      difference_of_same_length _ presented expected
        (bit_xor-zero _ _ (difference_of-zero _ presented expected none_differs)) none_differs,
  λ same. rw (same, bit_xor_same (length expected), difference_of_same expected) refl,
)
