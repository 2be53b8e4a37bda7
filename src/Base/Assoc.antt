-- ===== src/Base/Assoc.antt =====
-- A `HashMap` with number keys, as an association list: at most one entry for a key, in no
-- particular order.
use Prim.Native.Nat.{ℕ, ◌+◌, ◌≤◌}
use mathlib.Core.Path.{◌≡◌, refl}
use mathlib.Core.Bool.{Bool, true, false}
use mathlib.Core.Option.{Option, none, some}
use mathlib.Core.Logic.{inl, inr}
use mathlib.Core.List.{List, [], ◌∷◌}
use native.Mathlib.Omega.{arith}
use spl_rust.Base.Tests.{◌==◌, ==_iff, Bool-cases, if◌then◌else◌}
use spl_rust.Base.Lists.{length}

module _ {ℓ} {V : Type ℓ} where
  unfoldable pub lookup : ℕ → List (ℕ × V) → Option V
  lookup key [] = none
  lookup key ((found, value) ∷ rest) = if found == key then some value else lookup key rest

  unfoldable pub contains_key : ℕ → List (ℕ × V) → Bool
  contains_key k [] = false
  contains_key k ((j, v) ∷ m) = if j == k then true else contains_key k m

  unfoldable pub insert : ℕ → V → List (ℕ × V) → List (ℕ × V)
  insert key value [] = (key, value) ∷ []
  insert key value (entry ∷ rest) =
      if entry.0 == key then (key, value) ∷ rest else entry ∷ insert key value rest

  unfoldable pub remove : ℕ → List (ℕ × V) → List (ℕ × V)
  remove k [] = []
  remove k ((j, v) ∷ m) = if j == k then remove k m else (j, v) ∷ remove k m

  pub lookup-insert :
      (key other : ℕ) (value : V) (m : List (ℕ × V))
      → lookup other (insert key value m) ≡ (if key == other then some value else lookup other m)
  unfolding insert lookup
  lookup-insert key other value [] = refl
  lookup-insert key other value (entry ∷ rest) = ground (arith, lookup-insert key other value rest)

  pub lookup-remove :
      (k j : ℕ) (m : List (ℕ × V)) → lookup j (remove k m) ≡ (if k == j then none else lookup j m)
  unfolding lookup remove
  lookup-remove k j [] = ground arith
  lookup-remove k j ((i, w) ∷ m) = ground (arith, lookup-remove k j m)

  pub contains_key-none : (k : ℕ) (m : List (ℕ × V)) → contains_key k m ≡ false → lookup k m ≡ none
  unfolding lookup contains_key
  contains_key-none k [] h = refl
  contains_key-none k ((i, w) ∷ m) h = ground (arith, contains_key-none k m)

  pub contains_key-some :
      (k : ℕ) (m : List (ℕ × V)) → contains_key k m ≡ true → (v : V) × (lookup k m ≡ some v)
  unfolding lookup contains_key
  contains_key-some k [] h = cc
  contains_key-some k ((i, w) ∷ m) h = elim (Bool-cases (i == k)) [
    | inl hit ↦ (w, rw hit)
    | inr miss ↦ let (v, e) = contains_key-some k m (rw miss at h) in (v, rw miss e)
  ]

  pub length-insert_absent :
      (k : ℕ) (v : V) (m : List (ℕ × V)) → lookup k m ≡ none → length (insert k v m) ≡ length m + 1
  unfolding lookup insert
  length-insert_absent k v [] h = omega arith
  length-insert_absent k v ((i, w) ∷ m) h = ground (arith, length-insert_absent k v m)

  pub length-insert_present :
      (k : ℕ) (v : V) (m : List (ℕ × V)) {u : V}
      → lookup k m ≡ some u
      → length (insert k v m) ≡ length m
  unfolding lookup insert
  length-insert_present k v [] h = cc
  length-insert_present k v ((i, w) ∷ m) {u} h = ground (arith, length-insert_present k v m {u = u})

  pub length-remove-le : (k : ℕ) (m : List (ℕ × V)) → length (remove k m) ≤ length m
  unfolding remove
  length-remove-le k [] = omega arith
  length-remove-le k ((i, w) ∷ m) = ground (arith, length-remove-le k m)

  pub remove-insert : (k : ℕ) (v : V) (m : List (ℕ × V)) → remove k (insert k v m) ≡ remove k m
  unfolding insert remove
  remove-insert k v [] = ground arith
  remove-insert k v ((i, w) ∷ m) = ground (arith, remove-insert k v m)

  -- One entry at most for each key.
  abbrev pub HasDistinctKeys : List (ℕ × V) → Type ℓ
  HasDistinctKeys [] = Unit {ℓ}
  HasDistinctKeys ((k, v) ∷ m) = (lookup k m ≡ none) × HasDistinctKeys m

  pub insert-HasDistinctKeys :
      (k : ℕ) (v : V) (m : List (ℕ × V)) → HasDistinctKeys m → HasDistinctKeys (insert k v m)
  unfolding insert lookup
  insert-HasDistinctKeys k v [] h = (refl, tt)
  insert-HasDistinctKeys k v ((i, w) ∷ m) h =
      ground (arith, insert-HasDistinctKeys k v m h.1, lookup-insert k i v m)

  pub remove-HasDistinctKeys :
      (k : ℕ) (m : List (ℕ × V)) → HasDistinctKeys m → HasDistinctKeys (remove k m)
  unfolding remove lookup
  remove-HasDistinctKeys k [] h = tt
  remove-HasDistinctKeys k ((i, w) ∷ m) h =
      ground (arith, remove-HasDistinctKeys k m h.1, lookup-remove k i m)

-- A property of every entry.
module _ {ℓ κ} {V : Type ℓ} (P : ℕ → V → Type κ) where
  abbrev pub AllEntries : List (ℕ × V) → Type κ
  AllEntries [] = Unit {κ}
  AllEntries ((k, v) ∷ m) = P k v × AllEntries m

  pub AllEntries-insert :
      (k : ℕ) (v : V) (m : List (ℕ × V)) → P k v → AllEntries m → AllEntries (insert k v m)
  unfolding insert
  AllEntries-insert k v [] p h = (p, tt)
  AllEntries-insert k v ((i, w) ∷ m) p h = ground (arith, AllEntries-insert k v m p h.1)

  pub AllEntries-remove : (k : ℕ) (m : List (ℕ × V)) → AllEntries m → AllEntries (remove k m)
  unfolding remove
  AllEntries-remove k [] h = tt
  AllEntries-remove k ((i, w) ∷ m) h = ground (arith, AllEntries-remove k m h.1)

  pub AllEntries-lookup :
      (k : ℕ) (m : List (ℕ × V)) {v : V} → AllEntries m → lookup k m ≡ some v → P k v
  unfolding lookup
  AllEntries-lookup k [] h e = cc
  AllEntries-lookup k ((i, w) ∷ m) {v} h e = elim (Bool-cases (i == k)) [
    | inl hit ↦
        let same_key : i ≡ k = (==_iff i k).0 hit in
        let same_value : w ≡ v = cc (rw hit at e) in rw (← same_key, ← same_value) h.0
    | inr miss ↦ AllEntries-lookup k m h.1 (rw miss at e)
  ]

-- A property may be weakened entry by entry.
pub AllEntries-mono {ℓ κ μ} :
    {V : Type ℓ} (P : ℕ → V → Type κ) (Q : ℕ → V → Type μ)
    → ((k : ℕ) (v : V) → P k v → Q k v)
    → (m : List (ℕ × V)) → AllEntries P m
    → AllEntries Q m
AllEntries-mono P Q f [] h = tt
AllEntries-mono P Q f ((k, v) ∷ m) h = (f k v h.0, AllEntries-mono P Q f m h.1)
