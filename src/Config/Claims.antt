-- ===== src/Config/Claims.antt =====
-- The set `namesInUse` of `initMaps` in config/config.go: what a service or group may claim.
use edward.Base.{
  ◌≡◌, refl, ◌∙◌, ◌≢◌, true, false, ◌||◌, List, [], ◌∷◌, arith, ok, if◌then◌else◌, Bool-cases, inl,
  inr,
}
use edward.Base.Text.{Text, text_eq, text_eq_iff, contains, contains-append}
use edward.Base.Sort.{sort_by, insert_by, sort_strings}
use edward.Config.{add_name, add_to_map, among, intersect}
use edward.Config.Init.{refuse_duplicates}

pub contains-add_name :
    (k v : Text) (m : List Text) → contains k (add_name v m) ≡ (contains k m || text_eq k v)
unfolding add_name
contains-add_name k v m = elim (Bool-cases (contains v m)) [
  | inl e ↦ rw e (known e)
  | inr e ↦ rw e (contains-append k m (v ∷ []) ∙ last)
]
  where
    known : contains v m ≡ true → contains k m ≡ (contains k m || text_eq k v)
    known e = ground (arith, text_eq_iff k v)

    last : (contains k m || contains k (v ∷ [])) ≡ (contains k m || text_eq k v)
    last = unfold contains in ground arith

pub contains-add_to_map :
    (k : Text) (m vs : List Text) → contains k (add_to_map m vs) ≡ (contains k m || contains k vs)
unfolding add_to_map contains
contains-add_to_map k m [] = ground arith
contains-add_to_map k m (v ∷ vs) =
    ground (arith, contains-add_to_map k (add_name v m) vs, contains-add_name k v m)

insert_by-ne-nil : (x : Text) (xs : List Text) → insert_by (λ s. s) x xs ≢ []
unfolding insert_by
insert_by-ne-nil x [] = λ e. cc
insert_by-ne-nil x (y ∷ ys) = ground arith

among-nil :
    (m vs : List Text) (n : Text) → among m vs ≡ [] → contains n vs ≡ true → contains n m ≡ false
unfolding among contains
among-nil m [] n h k = cc
among-nil m (v ∷ vs) n h k = ground (arith, among-nil m vs n, text_eq_iff n v)

-- A claim that is not refused names nothing that is in use.
pub refuse_duplicates-ok :
    (m vs : List Text) {u : Unit {0}}
    → refuse_duplicates (intersect m vs) ≡ ok u
    → (n : Text) → contains n vs ≡ true
    → contains n m ≡ false
unfolding refuse_duplicates intersect sort_strings
refuse_duplicates-ok m vs h n = among-nil m vs n (nothing (among m vs) (ground arith))
  where
    nothing : (xs : List Text) → sort_by (λ s. s) xs ≡ [] → xs ≡ []
    nothing [] e = refl
    nothing (x ∷ xs) e = absurd (insert_by-ne-nil x (sort_by (λ s. s) xs) e)

-- `S` and `G` give the names that belong to the service and the group of a key.
pub record Claimed (S G : Text → List Text) (in_use : List Text) : Type 0 where
  pub used_s : (n k : Text) → contains n (S k) ≡ true → contains n in_use ≡ true
  pub used_g : (n k : Text) → contains n (G k) ≡ true → contains n in_use ≡ true
  pub one_s : (n k j : Text) → contains n (S k) ≡ true → contains n (S j) ≡ true → k ≡ j
  pub one_g : (n k j : Text) → contains n (G k) ≡ true → contains n (G j) ≡ true → k ≡ j
  pub apart : (n k j : Text) → contains n (S k) ≡ true → ¬ (contains n (G j) ≡ true)

abbrev pub given : Text → List Text → (Text → List Text) → Text → List Text
given k names F j = if text_eq j k then names else F j

module _ {S G : Text → List Text} {in_use : List Text} (c : Claimed S G in_use) (key : Text)
    (names : List Text)
    (fresh : (n : Text) → contains n names ≡ true → contains n in_use ≡ false) where
  pub Claimed-service : Claimed (given key names S) G (add_to_map in_use names)
  Claimed-service = record {
    used_s = λ n k m. ground (arith, contains-add_to_map n in_use names, c.used_s n k);
    used_g = λ n k m. ground (arith, contains-add_to_map n in_use names, c.used_g n k);
    one_s = λ n k j m m'. ground (
      arith,
      fresh n,
      c.one_s n k j,
      c.used_s n k,
      c.used_s n j,
      text_eq_iff k key,
      text_eq_iff j key,
    );
    one_g = c.one_g;
    apart = λ n k j m m'. ground (arith, fresh n, c.used_g n j, c.apart n k j);
  }

  pub Claimed-group : Claimed S (given key names G) (add_to_map in_use names)
  Claimed-group = record {
    used_s = λ n k m. ground (arith, contains-add_to_map n in_use names, c.used_s n k);
    used_g = λ n k m. ground (arith, contains-add_to_map n in_use names, c.used_g n k);
    one_s = c.one_s;
    one_g = λ n k j m m'. ground (
      arith,
      fresh n,
      c.one_g n k j,
      c.used_g n k,
      c.used_g n j,
      text_eq_iff k key,
      text_eq_iff j key,
    );
    apart = λ n k j m m'. ground (arith, fresh n, c.used_s n k, c.apart n k j);
  }
