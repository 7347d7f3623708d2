-- ===== src/Base/Distinct.antt =====
-- Lists of texts without repetition, and how many of them fit into a list.
use Prim.Native.Nat.{suc, ◌≤◌}
use mathlib.Core.Path.{◌≡◌}
use mathlib.Core.Bool.{Bool, true, false, not, ◌&&◌}
use mathlib.Core.List.{List, [], ◌∷◌}
use native.Mathlib.Omega.{arith}
use edward.Base.Tests.{if◌then◌else◌, Bool-cases}
use edward.Base.Lists.{length}
use edward.Base.Text.{Text, text_eq, text_eq_refl, text_eq_iff, eq_of_text_eq, contains}
use mathlib.Core.Logic.{◌⊎◌, inl, inr}

-- Every member of the first list is one of the second.
abbrev pub Within : List Text → List Text → Type 0
Within xs ys = (k : Text) → contains k xs ≡ true → contains k ys ≡ true

abbrev pub is_nodup : List Text → Bool
is_nodup [] = true
is_nodup (x ∷ xs) = not (contains x xs) && is_nodup xs

drop_first : Text → List Text → List Text
drop_first x [] = []
drop_first x (y ∷ ys) = if text_eq x y then ys else y ∷ drop_first x ys

length-drop_first :
    (x : Text) (ys : List Text) → contains x ys ≡ true → suc (length (drop_first x ys)) ≡ length ys
unfolding drop_first contains
length-drop_first x [] h = cc
length-drop_first x (y ∷ ys) h = ground (arith, length-drop_first x ys)

contains-drop_first :
    (k x : Text) (ys : List Text)
    → text_eq k x ≡ false
    → contains k ys ≡ true
    → contains k (drop_first x ys) ≡ true
unfolding drop_first contains
contains-drop_first k x [] h m = cc
contains-drop_first k x (y ∷ ys) h m =
    ground (arith, contains-drop_first k x ys h, text_eq_iff x y, text_eq_iff k y, text_eq_iff k x)

pub contains_self : (x : Text) (xs : List Text) → contains x (x ∷ xs) ≡ true
unfolding contains
contains_self x xs = rw text_eq_refl

pub contains_tail :
    (k x : Text) (xs : List Text) → contains k xs ≡ true → contains k (x ∷ xs) ≡ true
unfolding contains
contains_tail k x xs h = ground arith

pub contains-cases :
    (k x : Text) (xs : List Text) → contains k (x ∷ xs) ≡ true → (k ≡ x) ⊎ (contains k xs ≡ true)
unfolding contains
contains-cases k x xs h = elim (Bool-cases (text_eq k x)) [
  | inl e ↦ inl (eq_of_text_eq k x e)
  | inr e ↦ inr (rw e at h)
]

pub not-contains-nil : (k : Text) → ¬ (contains k [] ≡ true)
unfolding contains
not-contains-nil k h = cc

pub length-le_of_Within :
    (xs ys : List Text) → is_nodup xs ≡ true → Within xs ys → length xs ≤ length ys
length-le_of_Within [] ys d w = omega arith
length-le_of_Within (x ∷ xs) ys d w =
    let absent : contains x xs ≡ false = ground arith in
    let fits : length xs ≤ length (drop_first x ys) =
      length-le_of_Within xs (drop_first x ys) (ground arith)
        (λ k m. contains-drop_first k x ys (ne k m absent) (w k (contains_tail k x xs m))) in
    omega (arith, length-drop_first x ys (w x (contains_self x xs)))
  where
    ne : (k : Text) → contains k xs ≡ true → contains x xs ≡ false → text_eq k x ≡ false
    ne k m a = ground (arith, text_eq_iff k x)
