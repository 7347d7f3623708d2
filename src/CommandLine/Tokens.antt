-- ===== src/CommandLine/Tokens.antt =====
-- Command lines written as tokens: plain words, and quoted texts that may hold anything but their
-- own quote.
use edward.Base.{
  ℕ, ◌≡◌, refl, sym, ap, ◌∙◌, Bool, true, ◌&&◌, not, List, [], ◌∷◌, ◌++◌, map, append_assoc,
  append-nil, arith, Result, ok, ltb, ◌==◌, all,
}
use edward.Base.Text.{Text, text_eq}
use edward.CommandLine.{
  ParseError, start, arg, quotes, Scan, string_of_byte, is_quote, is_blank, step, scan, flush,
  split_head, finish, parse_command,
}

pub data Token : Type 0 where
  word : ℕ → Text → Token
  quoted : ℕ → Text → Token

abbrev pub is_ascii : ℕ → Bool
is_ascii c = ltb c 128

abbrev pub is_plain : ℕ → Bool
is_plain c = is_ascii c && not (is_quote c) && not (is_blank c)

-- A word has a first byte; a quote is one of the two quotes.
abbrev pub is_token : Token → Bool
is_token (word c cs) = all is_plain (c ∷ cs)
is_token (quoted q t) = is_quote q && all (λ c. is_ascii c && not (c == q)) t

abbrev pub value : Token → Text
value (word c cs) = c ∷ cs
value (quoted q t) = t

abbrev pub show_token : Token → Text
show_token (word c cs) = c ∷ cs
show_token (quoted q t) = q ∷ (t ++ q ∷ [])

-- The tokens with one blank between them.
abbrev pub render : Token → List Token → Text
render t [] = show_token t
render t (u ∷ us) = show_token t ++ 32 ∷ render u us

pub scan-append : (xs ys : Text) (s : Scan) → scan s (xs ++ ys) ≡ scan (scan s xs) ys
unfolding scan
scan-append [] ys s = refl
scan-append (x ∷ xs) ys s = scan-append xs ys (step s x)

abbrev at_start : List Text → Text → Scan
at_start args q = record { args = args; state = start; current = []; quote = q }

abbrev in_arg : List Text → Text → Text → Scan
in_arg args cur q = record { args = args; state = arg; current = cur; quote = q }

abbrev in_quotes : List Text → Text → ℕ → Scan
in_quotes args cur q = record { args = args; state = quotes; current = cur; quote = q ∷ [] }

step-in_arg :
    (args : List Text) (cur q : Text) (c : ℕ)
    → is_plain c ≡ true
    → step (in_arg args cur q) c ≡ in_arg args (cur ++ c ∷ []) q
unfolding step string_of_byte
step-in_arg args cur q c h = ground arith

scan-in_arg :
    (cs : Text) (args : List Text) (cur q : Text)
    → all is_plain cs ≡ true
    → scan (in_arg args cur q) cs ≡ in_arg args (cur ++ cs) q
unfolding scan
scan-in_arg [] args cur q h = rw append-nil
scan-in_arg (c ∷ cs) args cur q h = rw (step-in_arg args cur q c (ground arith)) (
    scan-in_arg cs args (cur ++ c ∷ []) q (ground arith)
    ∙ ap (λ x. in_arg args x q) (append_assoc cur (c ∷ []) cs))

step-in_quotes :
    (args : List Text) (cur : Text) (q c : ℕ)
    → (is_ascii c && not (c == q)) ≡ true
    → step (in_quotes args cur q) c ≡ in_quotes args (cur ++ c ∷ []) q
unfolding step string_of_byte text_eq
step-in_quotes args cur q c h = ground arith

scan-in_quotes :
    (cs : Text) (args : List Text) (cur : Text) (q : ℕ)
    → all (λ c. is_ascii c && not (c == q)) cs ≡ true
    → scan (in_quotes args cur q) cs ≡ in_quotes args (cur ++ cs) q
unfolding scan
scan-in_quotes [] args cur q h = rw append-nil
scan-in_quotes (c ∷ cs) args cur q h = rw (step-in_quotes args cur q c (ground arith)) (
    scan-in_quotes cs args (cur ++ c ∷ []) q (ground arith)
    ∙ ap (λ x. in_quotes args x q) (append_assoc cur (c ∷ []) cs))

step_close :
    (args : List Text) (cur : Text) (q : ℕ)
    → is_quote q ≡ true
    → step (in_quotes args cur q) q ≡ at_start (args ++ cur ∷ []) (q ∷ [])
unfolding step string_of_byte text_eq
step_close args cur q h = ground arith

step_open :
    (args : List Text) (p : Text) (q : ℕ)
    → is_quote q ≡ true
    → step (at_start args p) q ≡ in_quotes args [] q
unfolding step string_of_byte
step_open args p q h = ground arith

step_first :
    (args : List Text) (p : Text) (c : ℕ)
    → is_plain c ≡ true
    → step (at_start args p) c ≡ in_arg args (c ∷ []) p
unfolding step string_of_byte
step_first args p c h = ground arith

scan-quoted :
    (args : List Text) (p t : Text) (q : ℕ)
    → is_token (quoted q t) ≡ true
    → scan (at_start args p) (show_token (quoted q t)) ≡ at_start (args ++ t ∷ []) (q ∷ [])
unfolding scan
scan-quoted args p t q h =
    ap (λ s. scan s (t ++ q ∷ [])) (step_open args p q (ground arith))
    ∙ scan-append t (q ∷ []) (in_quotes args [] q)
    ∙ ap (λ s. scan s (q ∷ [])) (scan-in_quotes t args [] q (ground arith))
    ∙ step_close args t q (ground arith)

scan-word :
    (args : List Text) (p : Text) (c : ℕ) (cs : Text)
    → is_token (word c cs) ≡ true
    → scan (at_start args p) (c ∷ cs) ≡ in_arg args (c ∷ cs) p
unfolding scan
scan-word args p c cs h =
    ap (λ s. scan s cs) (step_first args p c (ground arith))
    ∙ scan-in_arg cs args (c ∷ []) p (ground arith)

-- A token and a blank take the scanner from `start` to `start` with one more argument.
scan-token :
    (args : List Text) (p : Text) (t : Token)
    → is_token t ≡ true
    → (q : Text) × (scan (at_start args p) (show_token t ++ 32 ∷ [])
        ≡ at_start (args ++ value t ∷ []) q)
unfolding scan step
scan-token args p (word c cs) h =
    (p, scan-append (c ∷ cs) (32 ∷ []) (at_start args p) ∙ rw (scan-word args p c cs h))
scan-token args p (quoted q t) h = (
  q ∷ [],
  scan-append (show_token (quoted q t)) (32 ∷ []) (at_start args p) ∙ rw (scan-quoted args p t q h),
)

abbrev outcome : Text → Scan → Result ParseError (Text × List Text)
outcome cmd s = finish s.state cmd s

outcome-token :
    (cmd : Text) (args : List Text) (p : Text) (t : Token)
    → is_token t ≡ true
    → outcome cmd (scan (at_start args p) (show_token t)) ≡ split_head (args ++ value t ∷ [])
unfolding finish flush
outcome-token cmd args p (word c cs) h = rw (scan-word args p c cs h)
outcome-token cmd args p (quoted q t) h = rw (scan-quoted args p t q h)

outcome-render :
    (cmd : Text) (t : Token) (ts : List Token) (args : List Text) (p : Text)
    → all is_token (t ∷ ts) ≡ true
    → outcome cmd (scan (at_start args p) (render t ts)) ≡ split_head (args ++ map value (t ∷ ts))
outcome-render cmd t [] args p h = outcome-token cmd args p t (ground arith)
outcome-render cmd t (u ∷ us) args p h =
    let (q, e) = scan-token args p t (ground arith) in
    ap (λ x. outcome cmd (scan (at_start args p) x))
      (sym (append_assoc (show_token t) (32 ∷ []) (render u us)))
    ∙ ap (outcome cmd) (scan-append (show_token t ++ 32 ∷ []) (render u us) (at_start args p))
    ∙ ap (λ s. outcome cmd (scan s (render u us))) e
    ∙ outcome-render cmd u us (args ++ value t ∷ []) q (ground arith)
    ∙ ap split_head (append_assoc args (value t ∷ []) (map value (u ∷ us)))

-- A command line of words and quoted texts, with one blank between two of them, is split into
-- exactly their values, with no error: the first is the executable, the rest are the arguments.
pub parse_command-render :
    (t : Token) (ts : List Token)
    → all is_token (t ∷ ts) ≡ true
    → parse_command (render t ts) ≡ ok (value t, map value ts)
unfolding parse_command split_head
parse_command-render t ts h = outcome-render (render t ts) t ts [] (34 ∷ []) h
