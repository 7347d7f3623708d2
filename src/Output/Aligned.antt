-- ===== src/Output/Aligned.antt =====
-- The columns of the renderer of tasks in progress, in output/rendering_inprogress.go.
use edward.Base.{
  ℕ, ◌+◌, ◌≤◌, ◌≡◌, refl, Bool, true, ◌&&◌, [], ◌++◌, ltb, ◌==◌, if◌then◌else◌, length,
  length-append, all, all-append, arith,
}
use edward.Base.Text.{Text, codes}
use edward.Tracker.{TaskState, Task, Tasks, node, nil, cons, info}
use edward.Output.{
  extend_prefix, get_longest_name, longest_among, Line, wider, own_line, render, render_each,
}

-- The line has the width `n` and the spacing, and its label fits into it.
abbrev pub is_aligned : ℕ → Line → Bool
is_aligned n line = (line.width == n + 3) && ltb (length line.label) line.width

wider_zero : (longest : ℕ) → wider 0 longest ≡ longest
wider_zero longest = ground arith

pub longest_among-ge : (prefix : Text) (ts : Tasks) (max : ℕ) → max ≤ longest_among prefix ts max
unfolding get_longest_name
longest_among-ge prefix nil max = omega arith
longest_among-ge prefix (cons t ts) max =
    let child = get_longest_name (extend_prefix prefix (info t).name) t in
    ground (arith, longest_among-ge prefix ts (if ltb max child then child else max))

wider-le : (width longest : ℕ) → longest ≤ width → wider width longest ≡ width
wider-le width longest h = ground arith

own_line-aligned :
    (prefix : Text) (width : ℕ) (state : TaskState) (ts : Tasks)
    → length prefix ≤ width
    → all (is_aligned width) (own_line prefix width state ts) ≡ true
own_line-aligned prefix width state nil h =
    let fits : length (prefix ++ codes ":") ≡ length prefix + 1 =
      length-append prefix (codes ":") in
    ground arith
own_line-aligned prefix width state (cons t ts) h = refl

lines-aligned :
    (prefix : Text) (width : ℕ) (state : TaskState) (ts : Tasks)
    → longest_among prefix ts (length prefix) ≤ width
    → all (is_aligned width) (render_each prefix width ts) ≡ true
    → all (is_aligned width) (render_each prefix width ts ++ own_line prefix width state ts) ≡ true
lines-aligned prefix width state ts h k =
    let own = longest_among-ge prefix ts (length prefix) in
    ground (
      arith,
      all-append (is_aligned width) (render_each prefix width ts) (own_line prefix width state ts),
      own_line-aligned prefix width state ts (omega arith),
    )

mutual
  unfolding render get_longest_name

  render_aligned :
      (prefix : Text) (width : ℕ) (t : Task)
      → get_longest_name prefix t ≤ width
      → all (is_aligned width) (render prefix width t) ≡ true
  render_aligned prefix width (node i ts) h =
      rw (wider-le width (longest_among prefix ts (length prefix)) h) (
        lines-aligned prefix width i.state ts h
          (render_each_aligned prefix width (length prefix) ts h))

  render_each_aligned :
      (prefix : Text) (width max : ℕ) (ts : Tasks)
      → longest_among prefix ts max ≤ width
      → all (is_aligned width) (render_each prefix width ts) ≡ true
  render_each_aligned prefix width max nil h = refl
  render_each_aligned prefix width max (cons t ts) h =
      let child = get_longest_name (extend_prefix prefix (info t).name) t in
      let rest = longest_among-ge prefix ts (if ltb max child then child else max) in
      ground (
        arith,
        all-append (is_aligned width) (render (extend_prefix prefix (info t).name) width t)
            (render_each prefix width ts),
        render_aligned (extend_prefix prefix (info t).name) width t (ground arith),
        render_each_aligned prefix width (if ltb max child then child else max) ts h,
      )

-- Every line has the same width, the one of the longest of all names with the spacing, and its label
-- fits into it with room to spare, whatever the tree of tasks.
pub render-is_aligned :
    (root : Task) → all (is_aligned (get_longest_name [] root)) (render [] 0 root) ≡ true
unfolding render get_longest_name
render-is_aligned (node i ts) =
    let longest = longest_among [] ts 0 in
    let le : longest ≤ longest = omega arith in
    rw (wider_zero longest)
      (lines-aligned [] longest i.state ts le (render_each_aligned [] longest 0 ts le))
