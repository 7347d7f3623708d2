-- ===== src/Updates/Greatest.antt =====
-- The tag that findLatestVersionTag of updates/updates.go takes.
use edward.Base.{
  ◌≡◌, ◌≢◌, refl, sym, ◌∙◌, Bool, true, false, List, [], ◌∷◌, Result, ok, err, bind-ok,
  ok_injective, if◌then◌else◌,
}
use edward.Base.Text.{Text}
use edward.Updates.{
  Versions, match_of, pick, or_match, take_match, take_line, take_lines, find_latest_version_tag,
}

module _ {V : Type 0} (versions : Versions V) where
  -- Both can be read, and the version of `match` is not greater than that of `greatest`.
  abbrev pub AtMost : Text → Text → Type 0
  AtMost greatest match =
      (m : V) × (g : V) × (versions.new_version match ≡ ok m)
      × (versions.new_version greatest ≡ ok g)
      × (versions.greater_than m g ≡ false)

  -- The same, where there is a version in the match.
  abbrev pub AtMostIfAny : Text → Text → Type 0
  AtMostIfAny greatest [] = Unit
  AtMostIfAny greatest (x ∷ match) = AtMost greatest (x ∷ match)

  abbrev pub AllAtMost : Text → List Text → Type 0
  AllAtMost greatest [] = Unit
  AllAtMost greatest (line ∷ lines) =
      AtMostIfAny greatest (match_of versions line) × AllAtMost greatest lines

  module _ (irreflexive : (u : V) → versions.greater_than u u ≡ false)
      (asymmetric : (u v : V)
        → versions.greater_than u v ≡ true
        → versions.greater_than v u ≡ false)
      (transitive : (u v w : V)
        → versions.greater_than u v ≡ false
        → versions.greater_than v w ≡ false
        → versions.greater_than u w ≡ false)
      (empty : (v : V) → versions.new_version [] ≢ ok v) where
    AtMost-trans : (a b c : Text) → AtMost b a → AtMost c b → AtMost c a
    AtMost-trans a b c (u, v, ea, eb, h) (v', w, eb', ec, k) =
        let same : v ≡ v' = ok_injective (sym eb ∙ eb') in
        (u, w, ea, ec, transitive u v w h (rw same k))

    if_any_trans : (a b c : Text) → AtMostIfAny b a → AtMostIfAny c b → AtMostIfAny c a
    if_any_trans [] b c h k = tt
    if_any_trans (x ∷ a) [] c (u, v, ea, eb, h) k = absurd (empty v eb)
    if_any_trans (x ∷ a) (y ∷ b) c h k = AtMost-trans (x ∷ a) (y ∷ b) c h k

    chosen-AtMost :
        (match greatest next : Text) (m g : V) (b : Bool)
        → versions.new_version match ≡ ok m
        → versions.new_version greatest ≡ ok g
        → versions.greater_than m g ≡ b
        → ◌≡◌ {A = Result Text Text} (ok (if b then match else greatest)) (ok next)
        → AtMost next match × AtMost next greatest
    chosen-AtMost match greatest next m g true em eg more h =
        rw⁻¹ (ok_injective h) ((m, m, em, em, irreflexive m), (g, m, eg, em, asymmetric m g more))
    chosen-AtMost match greatest next m g false em eg less h =
        rw⁻¹ (ok_injective h) ((m, g, em, eg, less), (g, g, eg, eg, irreflexive g))

    -- What can be compared can be read.
    readable : (a b : Text) → AtMost b a → AtMostIfAny b b
    readable a [] k = tt
    readable a (x ∷ b) (u, v, ea, eb, h) = (v, v, eb, eb, irreflexive v)

    -- What `pick` takes can be read, and neither of the two is greater.
    pick-AtMost :
        (match greatest next : Text) (m g : Result Text V)
        → versions.new_version match ≡ m
        → versions.new_version greatest ≡ g
        → pick versions match greatest m g ≡ ok next
        → AtMost next match × AtMost next greatest
    pick-AtMost match greatest next (err e) g em eg h = cc
    pick-AtMost match greatest next (ok m) (err e) em eg h = cc
    pick-AtMost match greatest next (ok m) (ok g) em eg h =
        chosen-AtMost match greatest next m g (versions.greater_than m g) em eg refl h

    take_match-AtMost :
        (match greatest next : Text)
        → AtMostIfAny greatest greatest
        → take_match versions match (or_match versions greatest match) ≡ ok next
        → AtMostIfAny next match × AtMostIfAny next greatest × AtMostIfAny next next
    take_match-AtMost [] [] next r h = rw⁻¹ (ok_injective h) (tt, tt, tt)
    take_match-AtMost [] (y ∷ greatest) next r h = rw⁻¹ (ok_injective h) (tt, r, r)
    take_match-AtMost (x ∷ match) [] next r h =
        let (own, again) = pick-AtMost (x ∷ match) (x ∷ match) next _ _ refl refl h in
        (own, tt, readable (x ∷ match) next own)
    take_match-AtMost (x ∷ match) (y ∷ greatest) next r h =
        let (own, before) = pick-AtMost (x ∷ match) (y ∷ greatest) next _ _ refl refl h in
        (own, before, readable (x ∷ match) next own)

    take_lines-AtMost :
        (lines : List Text) (greatest last : Text)
        → AtMostIfAny greatest greatest
        → take_lines versions greatest lines ≡ ok last
        → AtMostIfAny last greatest × AllAtMost last lines
    unfolding take_lines
    take_lines-AtMost [] greatest last r h = rw⁻¹ (ok_injective h) (r, tt)
    take_lines-AtMost (line ∷ lines) greatest last r h =
        let (next, first, rest) =
          bind-ok (take_line versions greatest line) (λ next. take_lines versions next lines) h in
        let (own, before, same) =
          take_match-AtMost (match_of versions line) greatest next r first in
        let (last_next, others) = take_lines-AtMost lines next last same rest in
        (
          if_any_trans greatest next last before last_next,
          (if_any_trans (match_of versions line) next last own last_next, others),
        )

    -- Where findLatestVersionTag returns a tag, it can read the version of every line that has one, and
    -- none of them is greater than the tag, if the order of versions is one and the empty text is none.
    pub find_latest_version_tag-AllAtMost :
        (lines : List Text) (last : Text)
        → find_latest_version_tag versions lines ≡ ok last
        → AllAtMost last lines
    unfolding find_latest_version_tag
    find_latest_version_tag-AllAtMost lines last h = (take_lines-AtMost lines [] last tt h).1
