-- ===== src/Generators/Matches.antt =====
-- What the generators read out of files: the regular expressions of generators/docker.go,
-- generators/icbm.go and generators/go.go, the lines of generators/procfile.go, and the functions of
-- Go's library that they call. Each expression is written as a function of its own, which says what
-- its first group matches.
use Prim.Native.Nat.{ℕ}
use edward.Base.{
  ◌+◌, ◌*◌, ◌-◌, Bool, not, ◌&&◌, ◌||◌, Option, none, some, List, [], ◌∷◌, ◌++◌, Result, ok, err,
  leb, ◌==◌, if◌then◌else◌, any, length, map,
}
use edward.Base.Text.{Text, codes, has_prefix}

-- The lines between the newlines, of which there is one more than there are newlines.
abbrev pub put : ℕ → List Text → List Text
put b [] = (b ∷ []) ∷ []
put b (line ∷ lines) = (b ∷ line) ∷ lines

unfoldable pub split_lines : Text → List Text
split_lines [] = [] ∷ []
split_lines (b ∷ s) = let rest = split_lines s in if b == 10 then [] ∷ rest else put b rest

-- `bufio.ScanLines` gives no last line without a byte, and drops one carriage return at an end.
unfoldable pub scanned : List Text → List Text
scanned [] = []
scanned ([] ∷ []) = []
scanned (line ∷ lines) = line ∷ scanned lines

unfoldable pub drop_cr : Text → Text
drop_cr [] = []
drop_cr (b ∷ []) = if b == 13 then [] else b ∷ []
drop_cr (b ∷ c ∷ s) = b ∷ drop_cr (c ∷ s)

-- The lines of a `bufio.Scanner`, which refuses one that its buffer of 64 KiB cannot hold.
unfoldable pub scan_lines : Text → Option (List Text)
unfolding split_lines scanned drop_cr
scan_lines s =
    let lines = scanned (split_lines s) in
    if any (λ line. leb 65536 (length line)) lines then none else some (map drop_cr lines)

-- `strings.SplitN(line, ":", 2)`, where the line has a colon.
unfoldable pub split_colon : Text → Option (Text × Text)
split_colon [] = none
split_colon (b ∷ s) =
    let rest = split_colon s in
    if b == 58
    then some ([], s)
    else elim rest [ none ↦ none | some (name, value) ↦ some (b ∷ name, value) ]

-- `strings.TrimSpace`, of ASCII.
abbrev pub is_space : ℕ → Bool
is_space b = (leb 9 b && leb b 13) || (b == 32)

unfoldable pub trim_left : Text → Text
trim_left [] = []
trim_left (b ∷ s) = let rest = trim_left s in if is_space b then rest else b ∷ s

unfoldable pub trim_right : Text → Text
trim_right [] = []
trim_right (b ∷ s) = elim (trim_right s) [
  | [] ↦ if is_space b then [] else b ∷ []
  | c ∷ rest ↦ b ∷ c ∷ rest
]

abbrev pub trim_space : Text → Text
trim_space s = trim_left (trim_right s)

abbrev pub is_digit : ℕ → Bool
is_digit b = leb 48 b && leb b 57

abbrev pub is_letter_or_digit : ℕ → Bool
is_letter_or_digit b = is_digit b || (leb 65 b && leb b 90) || (leb 97 b && leb b 122)

-- The text after a prefix.
unfoldable pub after_prefix : Text → Text → Option Text
after_prefix [] s = some s
after_prefix (p ∷ ps) [] = none
after_prefix (p ∷ ps) (b ∷ s) = let rest = after_prefix ps s in if p == b then rest else none

-- Digits alone, and one at least.
unfoldable pub all_digits : Text → Option Text
all_digits [] = none
all_digits (b ∷ []) = if is_digit b then some (b ∷ []) else none
all_digits (b ∷ c ∷ s) =
    let rest = all_digits (c ∷ s) in
    if is_digit b then elim rest [ none ↦ none | some ds ↦ some (b ∷ ds) ] else none

-- `(?m)^(?:EXPOSE )([0-9]+)$`, which a line matches as a whole.
abbrev pub exposed_in : Text → Option Text
exposed_in line = elim (after_prefix (codes "EXPOSE ") line) [
  | none ↦ none
  | some digits ↦ all_digits digits
]

abbrev pub collect : Option Text → List Text → List Text
collect none found = found
collect (some text) found = text ∷ found

unfoldable pub each_line : (Text → Option Text) → List Text → List Text
each_line matched [] = []
each_line matched (line ∷ lines) = collect (matched line) (each_line matched lines)

unfoldable pub exposed : Text → List Text
unfolding split_lines after_prefix all_digits each_line
exposed s = each_line exposed_in (split_lines s)

-- `strconv.Atoi` of digits, whose range is that of 64 bits.
unfoldable pub digits_value : ℕ → Text → ℕ
digits_value n [] = n
digits_value n (b ∷ s) = digits_value (n * 10 + (b - 48)) s

unfoldable pub atoi : Text → Result Text ℕ
unfolding digits_value
atoi s =
    let n = digits_value 0 s in
    if leb n 9223372036854775807 then ok n else err (codes "value out of range")

-- `name="(.*)_dev`: from the first `name="` of a line to its last `_dev`.
unfoldable pub before_last_dev : Text → Option Text
unfolding has_prefix
before_last_dev [] = none
before_last_dev (b ∷ s) = elim (before_last_dev s) [
  | none ↦ if has_prefix (b ∷ s) (codes "_dev") then some [] else none
  | some name ↦ some (b ∷ name)
]

unfoldable pub play_name : Text → Option Text
unfolding after_prefix before_last_dev
play_name [] = none
play_name (b ∷ s) =
    let rest = play_name s in
    elim (after_prefix (codes "name=\"") (b ∷ s)) [ none ↦ rest | some text ↦ before_last_dev text ]

unfoldable pub play_names : Text → List Text
unfolding split_lines play_name each_line
play_names s = each_line play_name (split_lines s)

-- `name="([A-Za-z0-9]+)"`: the letters and digits up to a quotation mark, one at least.
unfoldable pub up_to_quote : Text → Option Text
up_to_quote [] = none
up_to_quote (b ∷ s) =
    let rest = up_to_quote s in
    if b == 34
    then some []
    else if is_letter_or_digit b
    then elim rest [ none ↦ none | some name ↦ some (b ∷ name) ]
    else none

abbrev pub nonempty_text : Option Text → Option Text
nonempty_text none = none
nonempty_text (some []) = none
nonempty_text (some (b ∷ s)) = some (b ∷ s)

abbrev pub java_name_at : Text → Option Text
java_name_at s = elim (after_prefix (codes "name=\"") s) [
  | none ↦ none
  | some text ↦ nonempty_text (up_to_quote text)
]

-- No two of its matches overlap, since none has an `=` after its own.
unfoldable pub java_names : Text → List Text
unfolding after_prefix up_to_quote
java_names [] = []
java_names (b ∷ s) = collect (java_name_at (b ∷ s)) (java_names s)

-- `filepath.Ext`: from the last dot of the last part of the path.
unfoldable pub ext : Text → Text
ext [] = []
ext (b ∷ s) = elim (ext s) [
  | [] ↦ if (b == 46) && not (any (λ c. c == 47) s) then b ∷ s else []
  | c ∷ rest ↦ c ∷ rest
]

-- `strings.Join`
unfoldable pub join_texts : Text → List Text → Text
join_texts separator [] = []
join_texts separator (s ∷ []) = s
join_texts separator (s ∷ t ∷ ts) = s ++ separator ++ join_texts separator (t ∷ ts)
