-- ===== src/Pairlink/Fragments.antt =====
-- `parse` of crates/spl-core/src/pairlink.rs on the text of a link.
use spl_rust.Base.{ℕ, ◌<◌, ◌≡◌, refl, false, List, [], ◌∷◌, ◌++◌, Option, some, ◌==◌, All}
use spl_rust.Crockford.{encode}
use spl_rust.Crockford.RoundTrip.{decode-encode}
use spl_rust.Pairlink.{after_hash, fragment_of, parse_blob, parse}

after_hash-base :
    (base fragment : List ℕ)
    → All (λ c. (c == 35) ≡ false) base
    → after_hash (base ++ 35 ∷ fragment) ≡ some fragment
unfolding after_hash
after_hash-base [] fragment tt = refl
after_hash-base (c ∷ base) fragment (h, hs) = rw h (after_hash-base base fragment hs)

-- The text of a link, any text without `#` in front, is parsed as the bytes that its fragment
-- encodes.
pub parse-encode :
    (from_utf8 : List ℕ → Option (List ℕ)) (base blob : List ℕ)
    → All (λ c. (c == 35) ≡ false) base
    → All (λ b. b < 256) blob
    → parse from_utf8 (base ++ 35 ∷ encode blob) ≡ parse_blob from_utf8 blob
unfolding parse fragment_of
parse-encode from_utf8 base blob plain bytes =
    rw (after_hash-base base (encode blob) plain, fragment_of, parse)
      (rw (decode-encode blob bytes) refl)
