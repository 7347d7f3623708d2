-- ===== src/Base/Maps.antt =====
-- Go maps with string keys, as association lists: the order of the entries is the order of a
-- `range` loop, and no theorem may depend on which one it is.
use mathlib.Core.Path.{◌≡◌, refl, ap}
use mathlib.Core.Bool.{true, false}
use mathlib.Core.Option.{Option, none, some}
use mathlib.Core.List.{List, [], ◌∷◌, ◌++◌}
use native.Mathlib.Omega.{arith}
use edward.Base.Tests.{if◌then◌else◌, Bool-cases}
use mathlib.Core.Logic.{inl, inr}
use edward.Base.Lists.{length}
use Prim.Native.Nat.{suc}
use edward.Base.Text.{Text, text_eq, text_eq_iff, contains}

abbrev pub Map {ℓ} : Type ℓ → Type ℓ
Map V = List (Text × V)

module _ {ℓ} {V : Type ℓ} where
  unfoldable pub lookup : Text → Map V → Option V
  lookup k [] = none
  lookup k ((j, v) ∷ m) = if text_eq k j then some v else lookup k m

  -- `m[k] = v`
  unfoldable pub put : Text → V → Map V → Map V
  put k v [] = (k, v) ∷ []
  put k v ((j, w) ∷ m) = if text_eq k j then (j, v) ∷ m else (j, w) ∷ put k v m

  -- `delete(m, k)`
  unfoldable pub remove : Text → Map V → Map V
  remove k [] = []
  remove k ((j, w) ∷ m) = if text_eq k j then remove k m else (j, w) ∷ remove k m

  -- `*m[k] = f(*m[k])`, where `m` holds pointers
  unfoldable pub update : Text → (V → V) → Map V → Map V
  update k f [] = []
  update k f ((j, w) ∷ m) = (if text_eq k j then (j, f w) else (j, w)) ∷ update k f m

  abbrev pub keys : Map V → List Text
  keys [] = []
  keys ((j, w) ∷ m) = j ∷ keys m

  pub lookup-put :
      (j k : Text) (v : V) (m : Map V)
      → lookup j (put k v m) ≡ (if text_eq j k then some v else lookup j m)
  unfolding lookup put
  lookup-put j k v [] = refl
  lookup-put j k v ((i, w) ∷ m) =
      ground (arith, text_eq_iff k i, text_eq_iff j i, text_eq_iff j k, lookup-put j k v m)

  pub lookup-remove :
      (j k : Text) (m : Map V) → lookup j (remove k m) ≡ (if text_eq k j then none else lookup j m)
  unfolding lookup remove
  lookup-remove j k [] = ground arith
  lookup-remove j k ((i, w) ∷ m) =
      ground (arith, text_eq_iff k i, text_eq_iff j i, text_eq_iff k j, lookup-remove j k m)

  pub lookup-update :
      (j k : Text) (f : V → V) (m : Map V)
      → lookup j (update k f m) ≡ (
          if text_eq k j
          then elim (lookup j m) [ none ↦ none | some v ↦ some (f v) ]
          else lookup j m)
  unfolding lookup update
  lookup-update j k f [] = ground arith
  lookup-update j k f ((i, w) ∷ m) =
      ground (arith, text_eq_iff k i, text_eq_iff j i, text_eq_iff k j, lookup-update j k f m)

  -- A key is there exactly when it is found.
  pub lookup-none : (k : Text) (m : Map V) → contains k (keys m) ≡ false → lookup k m ≡ none
  unfolding lookup contains
  lookup-none k [] h = refl
  lookup-none k ((i, w) ∷ m) h = ground (arith, lookup-none k m)

  pub contains-keys_of_lookup :
      (k : Text) (m : Map V) {v : V} → lookup k m ≡ some v → contains k (keys m) ≡ true
  unfolding lookup contains
  contains-keys_of_lookup k [] h = cc
  contains-keys_of_lookup k ((i, w) ∷ m) {v = v} h =
      ground (arith, contains-keys_of_lookup k m {v = v})

  pub lookup_of_keys :
      (k : Text) (m : Map V) → contains k (keys m) ≡ true → (v : V) × (lookup k m ≡ some v)
  unfolding lookup contains
  lookup_of_keys k [] h = absurd (cc)
  lookup_of_keys k ((i, w) ∷ m) h = elim (Bool-cases (text_eq k i)) [
    | inl e ↦ (w, rw e refl)
    | inr e ↦ rw e (lookup_of_keys k m (rw e at h))
  ]

  pub put_fresh :
      (k : Text) (v : V) (m : Map V) → contains k (keys m) ≡ false → put k v m ≡ m ++ (k, v) ∷ []
  unfolding put contains
  put_fresh k v [] h = refl
  put_fresh k v ((i, w) ∷ m) h = ground (arith, put_fresh k v m)

  pub keys-append : (m n : Map V) → keys (m ++ n) ≡ keys m ++ keys n
  keys-append [] n = refl
  keys-append ((i, w) ∷ m) n = ap (λ x. i ∷ x) (keys-append m n)

  pub keys-update : (k : Text) (f : V → V) (m : Map V) → keys (update k f m) ≡ keys m
  unfolding update
  keys-update k f [] = refl
  keys-update k f ((i, w) ∷ m) = ground (arith, keys-update k f m)

  pub length-keys : (m : Map V) → length (keys m) ≡ length m
  length-keys [] = refl
  length-keys ((i, w) ∷ m) = ap suc (length-keys m)
