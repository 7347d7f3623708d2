-- ===== src/CommandLine/Samples.antt =====
-- Command lines, what they are split into, and the theorems at them.
use edward.Base.{◌≡◌, refl, [], ◌∷◌, ok}
use edward.Base.Text.{codes, text_eq}
use edward.CommandLine.{parse_command, scan, step, string_of_byte, flush, split_head, finish}
use edward.CommandLine.Tokens.{word, quoted, parse_command-render}

program : Unit {0}
unfolding parse_command scan step string_of_byte text_eq flush split_head finish
program = tt

split_words : parse_command (codes "run  'a b' c") ≡ ok (codes "run", codes "a b" ∷ codes "c" ∷ [])
unfolding program
split_words = refl

-- A quote inside of a word joins it to what is quoted; a quote's end starts a new argument.
split_inside : parse_command (codes "-n'a b'c") ≡ ok (codes "-na b", codes "c" ∷ [])
unfolding program
split_inside = refl

-- The two bytes of an accented letter come out as four.
split_accent : parse_command (195 ∷ 169 ∷ []) ≡ ok (195 ∷ 131 ∷ 194 ∷ 169 ∷ [], [])
unfolding program
split_accent = refl

parse_command-render_example :
    parse_command (codes "go 'a \"b' x") ≡ ok (codes "go", codes "a \"b" ∷ codes "x" ∷ [])
parse_command-render_example =
    parse_command-render (word b'g' (codes "o")) (quoted b'\'' (codes "a \"b") ∷ word b'x' [] ∷ [])
      refl
