-- ===== src/Output/Rounding.antt =====
-- How far `autoRoundTime` of output/rendering_completion.go is from the duration.
use edward.Base.{
  ℕ, ◌+◌, ◌-◌, ◌*◌, ◌%◌, ◌≤◌, ◌<◌, ◌≡◌, ap, ◌∙◌, true, false, ltb, if◌then◌else◌, arith,
}
use edward.Output.{
  modulus, sign_bit, less, minus, remainder, rounded, round_time, microsecond, millisecond, second,
  auto_round_time,
}

-- The unit to which a duration is rounded.
unfoldable pub unit_of : ℕ → ℕ
unit_of d =
    if ltb (60 * second) d
    then second
    else if ltb second d
    then millisecond
    else if ltb millisecond d
    then microsecond
    else 1

wrap-small : (a : ℕ) → a < modulus → a % modulus ≡ a
wrap-small a h = omega arith

less-positive : (a b : ℕ) → a < sign_bit → b < sign_bit → less a b ≡ ltb a b
unfolding less
less-positive a b h k =
    rw (wrap-small (a + sign_bit) (omega arith))
      (rw (wrap-small (b + sign_bit) (omega arith)) (ground arith))

minus-small : (a b : ℕ) → a < modulus → b ≤ a → minus a b ≡ (a - b)
unfolding minus
minus-small a b h k = omega arith

-- Up to half a unit down, else up.
abbrev nearest : ℕ → ℕ → ℕ → ℕ
nearest d r m = if ltb (m + m) r then d - m else (d + r) - m

rounded-nearest :
    (d r m : ℕ)
    → d + r < sign_bit
    → m + m < sign_bit
    → m ≤ d
    → m ≤ r
    → rounded d r m ≡ nearest d r m
unfolding rounded
rounded-nearest d r m h double below small = rw (wrap-small (m + m) (omega arith)) (
    rw (less-positive (m + m) r double (omega arith)) (
      rw (minus-small d m (omega arith) below) (
        rw (wrap-small (d + r) (omega arith))
          (rw (minus-small (d + r) m (omega arith) (omega arith))))))

remainder-positive : (d r : ℕ) → d < sign_bit → remainder d r ≡ (d % r)
unfolding remainder
remainder-positive d r h = rw (less-positive d 0 h (omega arith)) (ground arith)

round_time-rounded :
    (d r : ℕ) → 0 < r → r < sign_bit → d < sign_bit → round_time d r ≡ rounded d r (remainder d r)
unfolding round_time
round_time-rounded d r positive h k =
    let above : less 0 r ≡ true = rw (less-positive 0 r (omega arith) h) (ground arith) in
    let no_sign : less d 0 ≡ false = rw (less-positive d 0 k (omega arith)) (ground arith) in
    rw above (rw no_sign)

round_time-nearest :
    (d r : ℕ)
    → 0 < r
    → d + r < sign_bit
    → (d % r) + (d % r) < sign_bit
    → d % r ≤ d
    → d % r ≤ r
    → round_time d r ≡ nearest d r (d % r)
round_time-nearest d r positive h double below small =
    round_time-rounded d r positive (omega arith) (omega arith)
    ∙ ap (rounded d r) (remainder-positive d r (omega arith))
    ∙ rounded-nearest d r (d % r) h double below small

-- `res` is a multiple of `unit`, and at most half a unit away from `d`.
abbrev pub IsNearest : ℕ → ℕ → ℕ → Type 0
IsNearest d unit res = (2 * res ≤ 2 * d + unit) × (2 * d ≤ 2 * res + unit) × (res % unit ≡ 0)

round_time-second : (d : ℕ) → d + second < sign_bit → IsNearest d second (round_time d second)
round_time-second d h =
    rw (round_time-nearest d second (omega arith) h (omega arith) (omega arith) (omega arith))
      (ground arith)

round_time-millisecond :
    (d : ℕ) → d + second < sign_bit → IsNearest d millisecond (round_time d millisecond)
round_time-millisecond d h =
    rw
      (round_time-nearest d millisecond (omega arith) (omega arith) (omega arith) (omega arith)
        (omega arith))
      (ground arith)

round_time-microsecond :
    (d : ℕ) → d + second < sign_bit → IsNearest d microsecond (round_time d microsecond)
round_time-microsecond d h =
    rw
      (round_time-nearest d microsecond (omega arith) (omega arith) (omega arith) (omega arith)
        (omega arith))
      (ground arith)

auto_round_time-cases :
    (d : ℕ)
    → d < sign_bit
    → auto_round_time d ≡ (
        if ltb (3600 * second) d
        then round_time d second
        else if ltb (60 * second) d
        then round_time d second
        else if ltb second d
        then round_time d millisecond
        else if ltb millisecond d
        then round_time d microsecond
        else d)
unfolding auto_round_time
auto_round_time-cases d h =
    let hour = less-positive (3600 * second) d (omega arith) h in
    let minute = less-positive (60 * second) d (omega arith) h in
    let seconds = less-positive second d (omega arith) h in
    let milliseconds = less-positive millisecond d (omega arith) h in
    rw hour (rw minute (rw seconds (rw milliseconds)))

-- A duration that is not negative, and more than a second below the largest, is shown as a multiple of
-- its unit, at most half a unit away: the unit is the second above a minute, the millisecond above a
-- second, the microsecond above a millisecond, and the nanosecond below.
pub auto_round_time-IsNearest :
    (d : ℕ) → d + second < sign_bit → IsNearest d (unit_of d) (auto_round_time d)
unfolding unit_of
auto_round_time-IsNearest d h =
    rw (auto_round_time-cases d (omega arith)) (
      ground (arith, round_time-second d h, round_time-millisecond d h, round_time-microsecond d h))
