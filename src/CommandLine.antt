-- ===== src/CommandLine.antt =====
-- commandline/parse.go: `ParseCommand` splits a command line into an executable and arguments.
-- The loop's variables are a record and `step` is one round of its body; `continue` ends a branch.
pub mod Tokens
pub mod Quotes
mod Samples
use edward.Base.{
  ℕ, ◌+◌, ◌/◌, ◌%◌, Bool, true, false, ◌&&◌, ◌||◌, not, List, [], ◌∷◌, ◌++◌, Result, ok, err, ltb,
  ◌==◌, if◌then◌else◌,
}
use edward.Base.Text.{Text, text_eq}

pub data ScanState : Type 0 where
  start arg quotes : ScanState

pub data ParseError : Type 0 where
  unclosed_quote : Text → ParseError
  empty_command_line : ParseError

pub record Scan : Type 0 where
  pub args : List Text
  pub state : ScanState
  pub current : Text
  pub quote : Text

-- `string(c)` of a byte is the UTF-8 encoding of the code point c.
unfoldable pub string_of_byte : ℕ → Text
string_of_byte c = if ltb c 128 then c ∷ [] else (192 + c / 64) ∷ (128 + c % 64) ∷ []

abbrev pub is_quote : ℕ → Bool
is_quote c = (c == 34) || (c == 39)

abbrev pub is_blank : ℕ → Bool
is_blank c = (c == 32) || (c == 9)

abbrev pub push : Scan → Scan
push s = record s { args = s.args ++ s.current ∷ []; current = []; state = start }

abbrev pub extend : Scan → ℕ → Scan
extend s c = record s { current = s.current ++ string_of_byte c }

abbrev pub open_quote : Scan → ℕ → Scan
open_quote s c = record s { state = quotes; quote = string_of_byte c }

unfoldable pub dispatch : ScanState → Scan → ℕ → Scan
dispatch quotes s c = if text_eq (string_of_byte c) s.quote then push s else extend s c
dispatch arg s c = if is_quote c then open_quote s c else if is_blank c then push s else extend s c
dispatch start s c =
    if is_quote c
    then open_quote s c
    else if not (is_blank c)
    then record (extend s c) { state = arg }
    else s

unfoldable pub step : Scan → ℕ → Scan
unfolding dispatch
step s c = dispatch s.state s c

unfoldable pub scan : Scan → Text → Scan
scan s [] = s
scan s (c ∷ cmd) = scan (step s c) cmd

abbrev pub initial : Scan
initial = record { args = []; state = start; current = []; quote = 34 ∷ [] }

-- `if current != "" { args = append(args, current) }`
unfoldable pub flush : Text → List Text → List Text
flush [] args = args
flush (c ∷ cs) args = args ++ (c ∷ cs) ∷ []

unfoldable pub split_head : List Text → Result ParseError (Text × List Text)
split_head [] = err empty_command_line
split_head (a ∷ rest) = ok (a, rest)

unfoldable pub finish : ScanState → Text → Scan → Result ParseError (Text × List Text)
finish quotes cmd s = err (unclosed_quote cmd)
finish start cmd s = split_head (flush s.current s.args)
finish arg cmd s = split_head (flush s.current s.args)

unfoldable pub parse_command : Text → Result ParseError (Text × List Text)
parse_command cmd = let s = scan initial cmd in finish s.state cmd s
