-- ===== src/Base/Sort.antt =====
-- `sort.Strings` and `sort.Sort` by a name: the sorted order, as insertion sort reaches it.
use mathlib.Core.Path.{◌≡◌, refl}
use mathlib.Core.Bool.{Bool, true, false, not, ◌&&◌}
use mathlib.Core.List.{List, [], ◌∷◌, Perm}
use mathlib.Core.List.Perm
use native.Mathlib.Omega.{arith}
use edward.Base.Tests.{if◌then◌else◌, Bool-cases}
use mathlib.Core.Logic.{inl, inr}
use edward.Base.Text.{Text, text_lt}

pub text_lt_asymm : (s t : Text) → text_lt s t ≡ true → text_lt t s ≡ false
unfolding text_lt
text_lt_asymm s [] h = cc
text_lt_asymm [] (y ∷ ys) h = refl
text_lt_asymm (x ∷ xs) (y ∷ ys) h = ground (arith, text_lt_asymm xs ys)

-- `s ≤ t` is transitive.
pub text_le_trans : (s t u : Text) → text_lt t s ≡ false → text_lt u t ≡ false → text_lt u s ≡ false
unfolding text_lt
text_le_trans [] t u p q = elim u as (λ u. text_lt u [] ≡ false) [ [] ↦ refl | _ ∷ _ ↦ refl ]
text_le_trans (x ∷ xs) [] u p q = cc
text_le_trans (x ∷ xs) (y ∷ ys) [] p q = cc
text_le_trans (x ∷ xs) (y ∷ ys) (z ∷ zs) p q = ground (arith, text_le_trans xs ys zs)

module _ {ℓ} {A : Type ℓ} (name : A → Text) where
  unfoldable pub insert_by : A → List A → List A
  insert_by x [] = x ∷ []
  insert_by x (y ∷ ys) = if text_lt (name y) (name x) then y ∷ insert_by x ys else x ∷ y ∷ ys

  unfoldable pub sort_by : List A → List A
  unfolding insert_by
  sort_by [] = []
  sort_by (x ∷ xs) = insert_by x (sort_by xs)

  -- Every element's name is at least `s`.
  abbrev pub from_on : Text → List A → Bool
  from_on s [] = true
  from_on s (y ∷ ys) = not (text_lt (name y) s) && from_on s ys

  abbrev pub is_sorted : List A → Bool
  is_sorted [] = true
  is_sorted (x ∷ xs) = from_on (name x) xs && is_sorted xs

  from_on_trans :
      (s t : Text) (ys : List A) → text_lt t s ≡ false → from_on t ys ≡ true → from_on s ys ≡ true
  from_on_trans s t [] h k = refl
  from_on_trans s t (y ∷ ys) h k =
      ground (arith, from_on_trans s t ys h, text_le_trans s t (name y) h)

  from_on-insert_by :
      (s : Text) (x : A) (ys : List A)
      → text_lt (name x) s ≡ false
      → from_on s ys ≡ true
      → from_on s (insert_by x ys) ≡ true
  unfolding insert_by
  from_on-insert_by s x [] h k = ground arith
  from_on-insert_by s x (y ∷ ys) h k = ground (arith, from_on-insert_by s x ys)

  insert_by-is_sorted :
      (x : A) (ys : List A) → is_sorted ys ≡ true → is_sorted (insert_by x ys) ≡ true
  unfolding insert_by
  insert_by-is_sorted x [] h = refl
  insert_by-is_sorted x (y ∷ ys) h = elim (Bool-cases (text_lt (name y) (name x))) [
    | inl e ↦ rw e (
        ground (
          arith,
          insert_by-is_sorted x ys,
          from_on-insert_by (name y) x ys,
          text_lt_asymm (name y) (name x) e,
        ))
    | inr e ↦ rw e (ground (arith, from_on_trans (name x) (name y) ys e))
  ]

  pub sort_by-is_sorted : (xs : List A) → is_sorted (sort_by xs) ≡ true
  unfolding sort_by
  sort_by-is_sorted [] = refl
  sort_by-is_sorted (x ∷ xs) = insert_by-is_sorted x (sort_by xs) (sort_by-is_sorted xs)

  insert_by-perm : (x : A) (ys : List A) → Perm (insert_by x ys) (x ∷ ys)
  unfolding insert_by
  insert_by-perm x [] = Perm.refl (x ∷ [])
  insert_by-perm x (y ∷ ys) = elim (Bool-cases (text_lt (name y) (name x))) [
    | inl e ↦ rw e (Perm.trans (Perm.cons y (insert_by-perm x ys)) (Perm.swap x y ys))
    | inr e ↦ rw e (Perm.refl (x ∷ y ∷ ys))
  ]

  pub sort_by-perm : (xs : List A) → Perm (sort_by xs) xs
  unfolding sort_by
  sort_by-perm [] = Perm.refl []
  sort_by-perm (x ∷ xs) = Perm.trans (insert_by-perm x (sort_by xs)) (Perm.cons x (sort_by-perm xs))

-- `sort.Strings`
unfoldable pub sort_strings : List Text → List Text
unfolding sort_by
sort_strings = sort_by (λ s. s)
