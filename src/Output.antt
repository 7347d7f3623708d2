-- ===== src/Output.antt =====
-- output/rendering_inprogress.go and output/rendering_completion.go: the lines of the tasks in progress, and
-- the durations as they are shown. A line is its label and the width that it is padded to; an `int64` is
-- its residue modulo 2 ^ 64.
pub mod Aligned
pub mod Completion
mod CompletionSamples
pub mod Follower
pub mod Rounding
mod Samples
use edward.Base.{
  ℕ, zero, suc, ◌+◌, ◌-◌, ◌*◌, ◌%◌, Bool, true, false, not, ◌&&◌, ◌||◌, Option, none, some, List,
  [], ◌∷◌, ◌++◌, ltb, leb, ◌==◌, if◌then◌else◌, length,
}
use edward.Base.Text.{Text, codes}
use edward.Services.{is_nonempty}
use edward.Tracker.{TaskState, to_int, in_progress, Task, Tasks, node, nil, cons, info}

-- `extendPrefix`
unfoldable pub extend_prefix : Text → Text → Text
unfolding is_nonempty
extend_prefix prefix name = if is_nonempty prefix then prefix ++ (codes " > " ++ name) else name

-- `getLongestName`, with its loop over the children.
unfoldable mutual
  unfolding extend_prefix

  pub get_longest_name : Text → Task → ℕ
  get_longest_name prefix (node i ts) = longest_among prefix ts (length prefix)

  pub longest_among : Text → Tasks → ℕ → ℕ
  longest_among prefix nil max = max
  longest_among prefix (cons t ts) max =
      let child = get_longest_name (extend_prefix prefix (info t).name) t in
      longest_among prefix ts (if ltb max child then child else max)

pub record Line : Type 0 where
  pub width : ℕ
  pub label : Text

abbrev pub wider : ℕ → ℕ → ℕ
wider width longest = if ltb width longest then longest else width

abbrev pub own_line : Text → ℕ → TaskState → Tasks → List Line
own_line prefix width state nil =
    if to_int state == to_int in_progress
    then record { width = width + 3; label = prefix ++ codes ":" } ∷ []
    else []
own_line prefix width state (cons t ts) = []

-- `doRenderWithPrefix` of the renderer of tasks in progress.
unfoldable mutual
  unfolding extend_prefix get_longest_name

  pub render : Text → ℕ → Task → List Line
  render prefix width (node i ts) =
      let width' = wider width (longest_among prefix ts (length prefix)) in
      render_each prefix width' ts ++ own_line prefix width' i.state ts

  pub render_each : Text → ℕ → Tasks → List Line
  render_each prefix width nil = []
  render_each prefix width (cons t ts) =
      render (extend_prefix prefix (info t).name) width t ++ render_each prefix width ts

abbrev pub modulus : ℕ
modulus = 18446744073709551616

abbrev pub sign_bit : ℕ
sign_bit = 9223372036854775808

-- `a < b` of an `int64`.
unfoldable pub less : ℕ → ℕ → Bool
less a b = ltb ((a + sign_bit) % modulus) ((b + sign_bit) % modulus)

unfoldable pub negated : ℕ → ℕ
negated a = (modulus - a) % modulus

unfoldable pub minus : ℕ → ℕ → ℕ
minus a b = (a + (modulus - b)) % modulus

-- `a % b`, which has the sign of `a`, for a positive `b`.
unfoldable pub remainder : ℕ → ℕ → ℕ
unfolding less negated
remainder a b = if less a 0 then negated (negated a % b) else a % b

-- Down where the remainder `m` is less than half of `r`, else up.
unfoldable pub rounded : ℕ → ℕ → ℕ → ℕ
unfolding less minus
rounded d r m = if less ((m + m) % modulus) r then minus d m else minus ((d + r) % modulus) m

-- `roundTime`
unfoldable pub round_time : ℕ → ℕ → ℕ
unfolding less negated remainder rounded
round_time d r =
    if not (less 0 r)
    then d
    else if less d 0
    then negated (rounded (negated d) r (remainder (negated d) r))
    else rounded d r (remainder d r)

abbrev pub microsecond : ℕ
microsecond = 1000

abbrev pub millisecond : ℕ
millisecond = 1000000

abbrev pub second : ℕ
second = 1000000000

-- `autoRoundTime`
unfoldable pub auto_round_time : ℕ → ℕ
unfolding round_time less
auto_round_time d =
    if less (3600 * second) d
    then round_time d second
    else if less (60 * second) d
    then round_time d second
    else if less second d
    then round_time d millisecond
    else if less millisecond d
    then round_time d microsecond
    else d
