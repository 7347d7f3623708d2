-- ===== src/Output/Completion.antt =====
-- The renderer of a task that has ended, in output/rendering_completion.go, which follower.go gives the
-- task of an update. The task is the path of names that leads to it: of two children with one name,
-- the one that `Child` gives. Colours are left out.
use mathlib.Core.Path.{subst}
use edward.Base.{
  ℕ, ◌+◌, ◌≤◌, ◌≡◌, refl, ap, ◌∙◌, Bool, true, false, Option, none, some, List, [], ◌∷◌, ◌++◌,
  append-nil, length, length-append, ◌<◌, if◌then◌else◌, arith,
}
use edward.Base.Text.{Text, codes, text_eq, eq_of_text_eq}
use edward.Tracker.{
  TaskState, pending, in_progress, success, warning, failed, is_open, Task, Tasks, node, nil, cons,
  info, get_state, duration, TaskPath, find_task, find_among,
}
use edward.Output.{extend_prefix, get_longest_name, longest_among, wider, auto_round_time}
use edward.Output.Aligned.{longest_among-ge}

abbrev pub state_text : TaskState → Text
state_text success = codes "OK"
state_text failed = codes "Failed"
state_text warning = codes "Warning"
state_text pending = codes "Pending"
state_text in_progress = codes "In Progress"

abbrev pub has_messages : TaskState → Bool
has_messages failed = true
has_messages warning = true
has_messages _ = false

-- What is written for a task: its label, padded to a width, its state, its rounded duration and the
-- messages below.
pub record Report : Type 0 where
  pub label : Text
  pub width : ℕ
  pub state : Text
  pub time : Option ℕ
  pub messages : List Text

unfoldable pub report : ℕ → Text → ℕ → Task → Report
unfolding get_state duration auto_round_time
report now prefix width t = record {
  label = prefix ++ codes ":";
  width = width + 3;
  state = state_text (get_state t);
  time = if is_open (get_state t) then none else some (auto_round_time (duration now t));
  messages = if has_messages (get_state t) then (info t).messages else [];
}

-- The path that is left of the target's in a child, and in the children after it.
abbrev pub into : Option TaskPath → Text → Option TaskPath
into none name = none
into (some []) name = none
into (some (n ∷ p)) name = if text_eq name n then some p else none

abbrev pub past : Option TaskPath → Text → Option TaskPath
past none name = none
past (some []) name = none
past (some (n ∷ p)) name = if text_eq name n then none else some (n ∷ p)

-- `if task != r.targetTask { return nil }`
abbrev pub own_report : ℕ → Option TaskPath → Text → ℕ → Task → List Report
own_report now none prefix width t = []
own_report now (some []) prefix width t = report now prefix width t ∷ []
own_report now (some (n ∷ p)) prefix width t = []

-- `doRenderWithPrefix`
unfoldable mutual
  unfolding report extend_prefix get_longest_name text_eq

  pub complete : ℕ → Option TaskPath → Text → ℕ → Task → List Report
  complete now target prefix width (node i ts) =
      let width' = wider width (longest_among prefix ts (length prefix)) in
      complete_each now target prefix width' ts ++ own_report now target prefix width' (node i ts)

  pub complete_each : ℕ → Option TaskPath → Text → ℕ → Tasks → List Report
  complete_each now target prefix width nil = []
  complete_each now target prefix width (cons t ts) =
      complete now (into target (info t).name) (extend_prefix prefix (info t).name) width t
      ++ complete_each now (past target (info t).name) prefix width ts

-- `Render`, from the root of the target's tree.
unfoldable pub render_completion : ℕ → TaskPath → Task → List Report
unfolding complete
render_completion now target root = complete now (some target) [] 0 root

-- The names of a path, with `>` between them.
unfoldable pub path_text : Text → TaskPath → Text
unfolding extend_prefix
path_text prefix [] = prefix
path_text prefix (n ∷ p) = path_text (extend_prefix prefix n) p

mutual
  unfolding complete

  complete-none :
      (now : ℕ) (prefix : Text) (width : ℕ) (t : Task) → complete now none prefix width t ≡ []
  complete-none now prefix width (node i ts) =
      ap (λ xs. xs ++ [])
        (complete_each-none now prefix (wider width (longest_among prefix ts (length prefix))) ts)

  complete_each-none :
      (now : ℕ) (prefix : Text) (width : ℕ) (ts : Tasks)
      → complete_each now none prefix width ts ≡ []
  complete_each-none now prefix width nil = refl
  complete_each-none now prefix width (cons t ts) =
      ap (λ xs. xs ++ complete_each now none prefix width ts)
        (complete-none now (extend_prefix prefix (info t).name) width t)
      ∙ complete_each-none now prefix width ts

complete_each-here :
    (now : ℕ) (prefix : Text) (width : ℕ) (ts : Tasks)
    → complete_each now (some []) prefix width ts ≡ []
unfolding complete
complete_each-here now prefix width nil = refl
complete_each-here now prefix width (cons t ts) =
    ap (λ xs. xs ++ complete_each now none prefix width ts)
      (complete-none now (extend_prefix prefix (info t).name) width t)
    ∙ complete_each-none now prefix width ts

wider-ge : (width longest n : ℕ) → n ≤ longest → n ≤ wider width longest
wider-ge width longest n h = ground arith

-- Exactly one report, of the task, under the text of the path, for which the width has room.
IsReported : ℕ → Text → Task → List Report → Type 0
IsReported now label t reports =
    (width : ℕ) × (reports ≡ report now label width t ∷ []) × (length label ≤ width)

some_injective : {t u : Task} → some t ≡ some u → t ≡ u
some_injective h = cc

mutual
  unfolding complete find_task path_text IsReported

  complete-IsReported :
      (now : ℕ) (t : Task) (p : TaskPath) (prefix : Text) (width : ℕ) {u : Task}
      → find_task p t ≡ some u
      → IsReported now (path_text prefix p) u (complete now (some p) prefix width t)
  complete-IsReported now (node i ts) [] prefix width {u} h =
      let width' = wider width (longest_among prefix ts (length prefix)) in
      (
        width',
        ap (λ xs. xs ++ report now prefix width' (node i ts) ∷ [])
              (complete_each-here now prefix width' ts)
            ∙ ap (λ t. report now prefix width' t ∷ []) (some_injective h),
        wider-ge width (longest_among prefix ts (length prefix)) (length prefix)
            (longest_among-ge prefix ts (length prefix)),
      )
  complete-IsReported now (node i ts) (n ∷ p) prefix width {u} h =
      let width' = wider width (longest_among prefix ts (length prefix)) in
      let (w, r, l) = complete_each-IsReported now ts n p prefix width' h in
      (w, append-nil (complete_each now (some (n ∷ p)) prefix width' ts) ∙ r, l)

  complete_each-IsReported :
      (now : ℕ) (ts : Tasks) (n : Text) (p : TaskPath) (prefix : Text) (width : ℕ) {u : Task}
      → find_among n p ts ≡ some u
      → IsReported now
          (path_text prefix (n ∷ p))
          u
          (complete_each now (some (n ∷ p)) prefix width ts)
  complete_each-IsReported now nil n p prefix width {u} h = cc
  complete_each-IsReported now (cons t ts) n p prefix width {u} h =
      let name = (info t).name in
      elim (text_eq name n)
          as (λ b.
            text_eq name n ≡ b
            → (if b then find_task p t else find_among n p ts) ≡ some u
            → IsReported now (path_text (extend_prefix prefix n) p) u (
                complete now (if b then some p else none) (extend_prefix prefix name) width t
                ++ complete_each now (if b then none else some (n ∷ p)) prefix width ts)) [
                  | true ↦ λ e h.
                      let (w, r, l) =
                        complete-IsReported now t p (extend_prefix prefix name) width h in
                      let own = complete now (some p) (extend_prefix prefix name) width t in
                      subst
                        (λ m.
                          IsReported now (path_text (extend_prefix prefix m) p) u
                            (own ++ complete_each now none prefix width ts))
                        (eq_of_text_eq name n e)
                        (
                          w,
                          ap (λ xs. own ++ xs) (complete_each-none now prefix width ts)
                              ∙ (append-nil own ∙ r),
                          l,
                        )
                  | false ↦ λ e h.
                      let (w, r, l) = complete_each-IsReported now ts n p prefix width h in
                      (
                        w,
                        ap (λ xs. xs ++ complete_each now (some (n ∷ p)) prefix width ts)
                              (complete-none now (extend_prefix prefix name) width t)
                            ∙ r,
                        l,
                      )
                ]
        refl h

-- For the task that a path leads to in the tree, the renderer of ended tasks writes one report and no
-- other, that of the task, labelled by the names on the path, in a column that is wider than the
-- label.
pub render_completion-found :
    (now : ℕ) (p : TaskPath) (root : Task) {t : Task}
    → find_task p root ≡ some t
    → (width : ℕ) × (render_completion now p root ≡ report now (path_text [] p) width t ∷ [])
      × (length (path_text [] p ++ codes ":") < width + 3)
unfolding render_completion IsReported
render_completion-found now p root h =
    let (w, r, l) = complete-IsReported now root p [] 0 h in
    let fits : length (path_text [] p ++ codes ":") ≡ length (path_text [] p) + 1 =
      length-append (path_text [] p) (codes ":") in
    (w, r, omega arith)
