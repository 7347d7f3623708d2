-- ===== src/Updates/Samples.antt =====
-- Versions of one digit, and the theorem at them.
use edward.Base.{ℕ, ◌≡◌, refl, true, false, none, List, [], ◌∷◌, Result, ok, err, ltb, arith}
use edward.Base.Text.{Text, codes}
use edward.Updates.{
  Versions, cache_file, find_latest_version_tag, take_lines, take_line, remove_first,
  update_available,
}
use edward.Updates.Greatest.{AllAtMost, find_latest_version_tag-AllAtMost}

abbrev digit : Text → Result Text ℕ
digit [] = err (codes "Malformed version")
digit (x ∷ s) = ok x

abbrev digits : Versions ℕ
digits = record { find_id = λ line. line; new_version = digit; greater_than = λ u v. ltb v u }

abbrev lines : List Text
lines = codes "v1" ∷ [] ∷ codes "V3" ∷ codes "2" ∷ []

program : Unit {0}
unfolding find_latest_version_tag take_lines take_line remove_first update_available
program = tt

-- What was cached an hour ago is not used.
update_available-lines :
    update_available digits (ok lines) (cache_file 1 (ok (codes "1"))) none (codes "2")
    ≡ ok (true, codes "3")
unfolding program
update_available-lines = refl

greater_irreflexive : (u : ℕ) → ltb u u ≡ false
greater_irreflexive u = ground arith

greater_asymmetric : (u v : ℕ) → ltb v u ≡ true → ltb u v ≡ false
greater_asymmetric u v h = ground arith

greater_transitive : (u v w : ℕ) → ltb v u ≡ false → ltb w v ≡ false → ltb w u ≡ false
greater_transitive u v w h k = ground arith

find_latest_version_tag-AllAtMost_example : AllAtMost digits (codes "3") lines
unfolding program
find_latest_version_tag-AllAtMost_example =
    find_latest_version_tag-AllAtMost digits greater_irreflexive greater_asymmetric
      greater_transitive (λ v. λ e. cc) lines (codes "3") refl
