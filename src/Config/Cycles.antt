-- ===== src/Config/Cycles.antt =====
-- `hasChildCycle` of config/config.go, over the children of each group, and what it decides.
use edward.Base.{
  ℕ, zero, suc, ◌+◌, ◌<◌, ◌≡◌, refl, ◌≢◌, ◌⊎◌, inl, inr, Bool, true, false, Option, none, some,
  List, [], ◌∷◌, arith, length, if◌then◌else◌, Bool-cases,
}
use edward.Base.Text.{Text, text_eq, eq_of_text_eq, ne_of_text_eq, contains}
use edward.Base.Distinct.{
  Within, is_nodup, contains_self, contains_tail, length-le_of_Within, contains-cases,
  not-contains-nil,
}

abbrev pub Links : Type 0
Links = Text → List Text

-- What the loop does after the recursive call: `none` is out of fuel.
unfoldable pub then_rest : Option Bool → Option Bool → Option Bool
then_rest none rest = none
then_rest (some true) rest = some true
then_rest (some false) rest = rest

-- The fuel bounds the depth of the recursion.
unfoldable pub has_child_cycle : Links → ℕ → Text → List Text → Option Bool
unfolding then_rest
has_child_cycle links fuel parent [] = some false
has_child_cycle links zero parent (c ∷ cs) = none
has_child_cycle links (suc fuel) parent (c ∷ cs) =
    let below = has_child_cycle links fuel parent (links c) in
    let rest = has_child_cycle links (suc fuel) parent cs in
    if text_eq parent c then some true else then_rest below rest

-- A walk of one or more steps from a group to a group below it.
pub data Walk (links : Links) : Text → Text → Type 0 where
  child : {a b : Text} → contains b (links a) ≡ true → Walk links a b
  further : {a b c : Text} → contains b (links a) ≡ true → Walk links b c → Walk links a c

abbrev pub IsAcyclic : Links → Type 0
IsAcyclic links = (a : Text) → ¬ Walk links a a

pub Walk-trans : {links : Links} {a b c : Text} → Walk links a b → Walk links b c → Walk links a c
Walk-trans (child h) v = further h v
Walk-trans (further h w) v = further h (Walk-trans w v)

then_rest-true :
    (below rest : Option Bool)
    → then_rest below rest ≡ some true
    → (below ≡ some true) ⊎ (rest ≡ some true)
unfolding then_rest
then_rest-true below rest h = ground arith

pub then_rest-false :
    (below rest : Option Bool)
    → then_rest below rest ≡ some false
    → (below ≡ some false) × (rest ≡ some false)
unfolding then_rest
then_rest-false below rest h = ground arith

then_rest-ne-none :
    (below rest : Option Bool) → below ≢ none → rest ≢ none → then_rest below rest ≢ none
unfolding then_rest
then_rest-ne-none below rest h k = ground arith

pub some-true-ne-some-false : ◌≡◌ {A = Option Bool} (some true) (some false) → ⊥
some-true-ne-some-false h = cc

abbrev pub Clear : Links → Text → List Text → Type 0
Clear links parent cs = (c : Text) → contains c cs ≡ true → (parent ≢ c) × (¬ Walk links c parent)

pub not-Walk_of_Clear : {links : Links} {a b : Text} → Clear links b (links a) → ¬ Walk links a b
not-Walk_of_Clear clear (child m) = (clear _ m).0 refl
not-Walk_of_Clear clear (further m w) = (clear _ m).1 w

module _ (links : Links) (parent : Text) where
  abbrev Found : List Text → Type 0
  Found cs = (c : Text) × (contains c cs ≡ true) × ((parent ≡ c) ⊎ Walk links c parent)

  -- What a call that answers `true` has found.
  pub has_child_cycle-Found :
      (fuel : ℕ) (cs : List Text) → has_child_cycle links fuel parent cs ≡ some true → Found cs
  unfolding has_child_cycle
  has_child_cycle-Found fuel [] h = cc
  has_child_cycle-Found zero (c ∷ cs) h = cc
  has_child_cycle-Found (suc fuel) (c ∷ cs) h = elim (Bool-cases (text_eq parent c)) [
    | inl e ↦ (c, contains_self c cs, inl (eq_of_text_eq parent c e))
    | inr e ↦
        let below = has_child_cycle-Found fuel (links c) in
        let rest = has_child_cycle-Found (suc fuel) cs in
        elim (then_rest-true _ _ (rw e at h)) [
          | inl b ↦ (c, contains_self c cs, inr (walk_of c (below b)))
          | inr r ↦ ((rest r).0, contains_tail (rest r).0 c cs (rest r).1, (rest r).2)
        ]
  ]
    where
      walk_of : (c : Text) → Found (links c) → Walk links c parent
      walk_of c (d, m, inl e) = child (rw e m)
      walk_of c (d, m, inr w) = further m w

  -- What a call that answers `false` has ruled out.
  pub has_child_cycle-absent :
      (fuel : ℕ) (cs : List Text)
      → has_child_cycle links fuel parent cs ≡ some false
      → Clear links parent cs
  unfolding has_child_cycle
  has_child_cycle-absent fuel [] h c m = absurd (not-contains-nil c m)
  has_child_cycle-absent zero (x ∷ cs) h c m = absurd (cc)
  has_child_cycle-absent (suc fuel) (x ∷ cs) h c m = elim (Bool-cases (text_eq parent x)) [
    | inl e ↦ absurd (some-true-ne-some-false (rw e at h))
    | inr e ↦
        let (b, r) = then_rest-false _ _ (rw e at h) in
        elim (contains-cases c x cs m) [
          | inl here ↦ rw here (
            ne_of_text_eq parent x e,
            not-Walk_of_Clear (has_child_cycle-absent fuel (links x) b),
          )
          | inr there ↦ has_child_cycle-absent (suc fuel) cs r c there
        ]
  ]

-- On a graph with no cycle, whose edges start at one of `nodes`, the recursion is never deeper than
-- there are nodes.
module _ (links : Links) (nodes : List Text) (parent : Text)
    (known : (a b : Text) → contains b (links a) ≡ true → contains a nodes ≡ true)
    (acyclic : IsAcyclic links) where
  -- `visited` lies above `cs`, and has no repetition.
  record Above (visited cs : List Text) : Type 0 where
    nodup : is_nodup visited ≡ true
    within : Within visited nodes
    above : (v c : Text) → contains v visited ≡ true → contains c cs ≡ true → Walk links v c

  Above-tail :
      {visited : List Text} {c : Text} {cs : List Text} → Above visited (c ∷ cs) → Above visited cs
  Above-tail {c = c} {cs = cs} a = record {
    nodup = a.nodup;
    within = a.within;
    above = λ v d m n. a.above v d m (contains_tail d c cs n);
  }

  not-visited :
      {visited : List Text} {c : Text} {cs : List Text}
      → Above visited (c ∷ cs)
      → contains c visited ≡ false
  not-visited {visited} {c} {cs} a = elim (Bool-cases (contains c visited)) [
    | inl e ↦ absurd (acyclic c (a.above c c e (contains_self c cs)))
    | inr e ↦ e
  ]

  Above-below :
      {visited : List Text} {c : Text} {cs : List Text} (d : Text)
      → contains d (links c) ≡ true
      → Above visited (c ∷ cs)
      → Above (c ∷ visited) (links c)
  Above-below {visited} {c} {cs} d e a = record {
    nodup = ground (arith, not-visited a, a.nodup);
    within = λ k m. elim (contains-cases k c visited m) [
      | inl same ↦ rw same (known c d e)
      | inr old ↦ a.within k old
    ];
    above = λ v b m n. elim (contains-cases v c visited m) [
      | inl same ↦ rw same (child n)
      | inr old ↦ Walk-trans (a.above v c old (contains_self c cs)) (child n)
    ];
  }

  enough_fuel :
      (fuel : ℕ) (visited cs : List Text)
      → length nodes < length visited + fuel
      → Above visited cs
      → has_child_cycle links fuel parent cs ≢ none
  unfolding has_child_cycle
  enough_fuel fuel visited [] h a = λ e. cc
  enough_fuel zero visited (c ∷ cs) h a =
      absurd (omega (arith, length-le_of_Within visited nodes a.nodup a.within))
  enough_fuel (suc fuel) visited (c ∷ cs) h a =
      let deeper = enough_fuel fuel (c ∷ visited) (links c) (omega arith) in
      let below = below_fuel deeper (links c) refl in
      let rest = enough_fuel (suc fuel) visited cs h (Above-tail a) in
      ground (
        arith,
        then_rest-ne-none (has_child_cycle links fuel parent (links c))
            (has_child_cycle links (suc fuel) parent cs) below rest,
      )
    where
      below_fuel :
          (Above (c ∷ visited) (links c) → has_child_cycle links fuel parent (links c) ≢ none)
          → (ds : List Text) → links c ≡ ds
          → has_child_cycle links fuel parent (links c) ≢ none
      below_fuel ih [] e = rw e (λ r. cc)
      below_fuel ih (d ∷ ds) e = ih (Above-below d (rw e (contains_self d ds)) a)

  -- With more fuel than nodes the search comes to an answer.
  pub has_child_cycle-ne-none :
      (cs : List Text) → has_child_cycle links (suc (length nodes)) parent cs ≢ none
  has_child_cycle-ne-none cs = enough_fuel (suc (length nodes)) [] cs (omega arith) (record {
    nodup = refl;
    within = λ k m. absurd (not-contains-nil k m);
    above = λ v c m n. absurd (not-contains-nil v m);
  })
