-- ===== src/Config/Relink.antt =====
-- Linking one more group to its children, for the second pass over the groups in config/config.go.
use mathlib.Core.Path.{subst}
use edward.Base.{◌≡◌, refl, sym, ◌≢◌, ◌⊎◌, inl, inr, true, false, Bool-cases}
use edward.Base.Text.{Text, text_eq, eq_of_text_eq, text_eq_of_ne, contains}
use edward.Config.Cycles.{
  Links, Walk, child, further, Walk-trans, IsAcyclic, Clear, not-Walk_of_Clear,
}

-- Giving one group new children keeps the graph free of cycles, if none of these children is the
-- group or reaches it.
module _ (old new : Links) (p : Text) (elsewhere : (a : Text) → text_eq a p ≡ false → new a ≡ old a)
    (acyclic : IsAcyclic old) (clear : Clear old p (new p)) where
  step_elsewhere :
      {a : Text} (b : Text) → p ≢ a → contains b (new a) ≡ true → contains b (old a) ≡ true
  step_elsewhere {a} b ne m = rw (← elsewhere a (text_eq_of_ne a p (λ e. ne (sym e)))) m

  not-Walk_to : {c b : Text} → b ≡ p → p ≢ c → ¬ Walk old c p → ¬ Walk new c b
  not-Walk_to e ne no_walk (child m) = no_walk (child (rw (← e) (step_elsewhere _ ne m)))
  not-Walk_to e ne no_walk (further m w) =
      let m' = step_elsewhere _ ne m in
      not-Walk_to e (λ same. no_walk (child (rw same m'))) (λ v. no_walk (further m' v)) w

  not-Walk_round : {a : Text} → a ≡ p → ¬ Walk new a p
  not-Walk_round e w =
      not-Walk_of_Clear
        (λ c m. (
          (clear c (rw (← e) m)).0,
          not-Walk_to refl (clear c (rw (← e) m)).0 (clear c (rw (← e) m)).1,
        ))
        w

  abbrev Through : Text → Text → Type 0
  Through a b = ((a ≡ p) ⊎ Walk new a p) × ((p ≡ b) ⊎ Walk new p b)

  further_cases :
      {a b c : Text}
      → contains b (old a) ≡ true
      → contains b (new a) ≡ true
      → Walk old b c ⊎ Through b c
      → Walk old a c ⊎ Through a c
  further_cases m' m (inl v) = inl (further m' v)
  further_cases m' m (inr (inl same, r)) = inr (inr (child (rw (← same) m)), r)
  further_cases m' m (inr (inr v, r)) = inr (inr (further m v), r)

  Walk-cases : {a b : Text} → Walk new a b → Walk old a b ⊎ Through a b
  Walk-cases (child {a} {b} m) = elim (Bool-cases (text_eq a p)) [
    | inl e ↦
        let same = eq_of_text_eq a p e in
        inr (inl same, inr (subst (λ z. Walk new z b) same (child m)))
    | inr e ↦ inl (child (rw (← elsewhere a e) m))
  ]
  Walk-cases (further {a} {b} {c} m w) = elim (Bool-cases (text_eq a p)) [
    | inl e ↦
        let same = eq_of_text_eq a p e in
        inr (inl same, inr (subst (λ z. Walk new z c) same (further m w)))
    | inr e ↦ further_cases (rw (← elsewhere a e) m) m (Walk-cases w)
  ]

  not-Through_self : {a : Text} → Walk new a a → ¬ Through a a
  not-Through_self {a} w (inl e, r) = not-Walk_round e (subst (λ z. Walk new a z) e w)
  not-Through_self w (inr v, inl e) = not-Walk_round (sym e) v
  not-Through_self w (inr v, inr u) = not-Walk_round refl (Walk-trans u v)

  pub relink-IsAcyclic : IsAcyclic new
  relink-IsAcyclic a w = elim (Walk-cases w) [ inl v ↦ acyclic a v | inr t ↦ not-Through_self w t ]
