-- ===== src/CommandLine/Quotes.antt =====
-- What `ParseCommand` does on any command line at all: when it fails, and which bytes it keeps.
use edward.Base.{
  ℕ, ◌≡◌, refl, sym, ap, ◌∙◌, ◌≢◌, ◌↔◌, Bool, true, false, ◌||◌, not, List, [], ◌∷◌, ◌++◌,
  append_assoc, append-nil, Option, none, some, arith, ok, err, ◌==◌, all, if◌then◌else◌,
}
use edward.Base.Text.{Text, text_eq}
use edward.CommandLine.{
  ScanState, start, arg, quotes, Scan, string_of_byte, is_quote, is_blank, step, scan, initial,
  flush, split_head, finish, parse_command, unclosed_quote, empty_command_line,
}

-- The quote that is open after one more byte, and after a text.
abbrev pub quote_after : Option ℕ → ℕ → Option ℕ
quote_after none c = if is_quote c then some c else none
quote_after (some q) c = if c == q then none else some q

abbrev pub quote_at_end : Option ℕ → Text → Option ℕ
quote_at_end o [] = o
quote_at_end o (c ∷ cmd) = quote_at_end (quote_after o c) cmd

-- The bytes that belong to arguments: not the delimiting quotes, nor blanks outside of quotes.
abbrev pub kept : Option ℕ → ℕ → Text
kept none c = if is_quote c || is_blank c then [] else string_of_byte c
kept (some q) c = if c == q then [] else string_of_byte c

abbrev pub payload : Option ℕ → Text → Text
payload o [] = []
payload o (c ∷ cmd) = kept o c ++ payload (quote_after o c) cmd

abbrev pub join : List Text → Text
join [] = []
join (t ∷ ts) = t ++ join ts

join-append : (xs ys : List Text) → join (xs ++ ys) ≡ join xs ++ join ys
join-append [] ys = refl
join-append (x ∷ xs) ys = rw (join-append xs ys) (sym (append_assoc x (join xs) (join ys)))

-- The scanner's state agrees with the open quote.
abbrev Agrees : Option ℕ → Scan → Type 0
Agrees none s = s.state ≢ quotes
Agrees (some q) s = (s.state ≡ quotes) × (s.quote ≡ q ∷ []) × (is_quote q ≡ true)

string-eq_quote : (c q : ℕ) → is_quote q ≡ true → text_eq (string_of_byte c) (q ∷ []) ≡ (c == q)
unfolding text_eq string_of_byte
string-eq_quote c q h = ground arith

string_of_quote : (c : ℕ) → is_quote c ≡ true → string_of_byte c ≡ c ∷ []
unfolding string_of_byte
string_of_quote c h = ground arith

step-Agrees : (o : Option ℕ) (s : Scan) (c : ℕ) → Agrees o s → Agrees (quote_after o c) (step s c)
unfolding step
step-Agrees none s c h = ground (arith, string_of_quote c)
step-Agrees (some q) s c (e, f, h) = ground (arith, string-eq_quote c q)

abbrev held : Scan → Text
held s = join s.args ++ s.current

held-push :
    (args : List Text) (current : Text) → join (args ++ current ∷ []) ++ [] ≡ join args ++ current
held-push args current =
    append-nil _ ∙ join-append args (current ∷ []) ∙ ap (λ x. join args ++ x) (append-nil current)

step-held : (o : Option ℕ) (s : Scan) (c : ℕ) → Agrees o s → held (step s c) ≡ held s ++ kept o c
unfolding step
step-held none s c h = ground (
  arith,
  held-push s.args s.current,
  append-nil (held s),
  append_assoc (join s.args) s.current (string_of_byte c),
)
step-held (some q) s c (e, f, h) = ground (
  arith,
  string-eq_quote c q,
  held-push s.args s.current,
  append-nil (held s),
  append_assoc (join s.args) s.current (string_of_byte c),
)

scan-Agrees :
    (o : Option ℕ) (s : Scan) (cmd : Text) → Agrees o s → Agrees (quote_at_end o cmd) (scan s cmd)
unfolding scan
scan-Agrees o s [] h = h
scan-Agrees o s (c ∷ cmd) h = scan-Agrees (quote_after o c) (step s c) cmd (step-Agrees o s c h)

scan-held :
    (o : Option ℕ) (s : Scan) (cmd : Text)
    → Agrees o s
    → held (scan s cmd) ≡ held s ++ payload o cmd
unfolding scan
scan-held o s [] h = sym (append-nil (held s))
scan-held o s (c ∷ cmd) h =
    scan-held (quote_after o c) (step s c) cmd (step-Agrees o s c h)
    ∙ ap (λ x. x ++ payload (quote_after o c) cmd) (step-held o s c h)
    ∙ append_assoc (held s) (kept o c) (payload (quote_after o c) cmd)

join-flush : (current : Text) (args : List Text) → join (flush current args) ≡ join args ++ current
unfolding flush
join-flush [] args = sym (append-nil (join args))
join-flush (c ∷ cs) args =
    join-append args ((c ∷ cs) ∷ []) ∙ ap (λ x. join args ++ x) (append-nil (c ∷ cs))

-- The command line is refused for an unclosed quote exactly when a quote is open at its end.
pub parse_command-unclosed_iff :
    (cmd : Text) → (parse_command cmd ≡ err (unclosed_quote cmd)) ↔ (quote_at_end none cmd ≢ none)
unfolding parse_command finish split_head
parse_command-unclosed_iff cmd = ground (arith, scan-Agrees none initial cmd (λ e. cc))

-- What is accepted holds the bytes of the payload and no others, in their order: the executable
-- and the arguments, joined, are the bytes of the command line without its delimiting quotes and
-- without the blanks outside of quotes, each in the form that `string(c)` gives it.
pub parse_command-join :
    (cmd a : Text) (rest : List Text)
    → parse_command cmd ≡ ok (a, rest)
    → join (a ∷ rest) ≡ payload none cmd
unfolding parse_command finish split_head
parse_command-join cmd a rest h = ground (
  arith,
  scan-held none initial cmd (λ e. cc),
  join-flush (scan initial cmd).current (scan initial cmd).args,
)

abbrev is_busy : ScanState → Bool
is_busy start = false
is_busy _ = true

abbrev nonempty {ℓ} : {A : Type ℓ} → List A → Bool
nonempty [] = false
nonempty (x ∷ xs) = true

-- Something other than blanks was read.
abbrev started : Scan → Bool
started s = is_busy s.state || nonempty s.current || nonempty s.args

nonempty-append {ℓ} :
    {A : Type ℓ} (xs ys : List A) → nonempty (xs ++ ys) ≡ (nonempty xs || nonempty ys)
nonempty-append [] ys = refl
nonempty-append (x ∷ xs) ys = refl

nonempty-string_of_byte : (c : ℕ) → nonempty (string_of_byte c) ≡ true
unfolding string_of_byte
nonempty-string_of_byte c = ground arith

started-step : (s : Scan) (c : ℕ) → started (step s c) ≡ (started s || not (is_blank c))
unfolding step
started-step s c = ground (
  arith,
  nonempty-append s.current (string_of_byte c),
  nonempty-string_of_byte c,
  nonempty-append s.args (s.current ∷ []),
)

-- Between two bytes an argument that was begun without a quote is not empty.
step-arg :
    (s : Scan) (c : ℕ)
    → (s.state ≡ arg → nonempty s.current ≡ true)
    → (step s c).state ≡ arg
    → nonempty (step s c).current ≡ true
unfolding step
step-arg s c h e =
    ground (arith, nonempty-append s.current (string_of_byte c), nonempty-string_of_byte c)

scan-arg :
    (s : Scan) (cmd : Text)
    → (s.state ≡ arg → nonempty s.current ≡ true)
    → (scan s cmd).state ≡ arg
    → nonempty (scan s cmd).current ≡ true
unfolding scan
scan-arg s [] h = h
scan-arg s (c ∷ cmd) h = scan-arg (step s c) cmd (step-arg s c h)

started-scan :
    (s : Scan) (cmd : Text) → started (scan s cmd) ≡ (started s || not (all is_blank cmd))
unfolding scan
started-scan s [] = ground arith
started-scan s (c ∷ cmd) = ground (arith, started-scan (step s c) cmd, started-step s c)

nonempty-flush :
    (current : Text) (args : List Text)
    → nonempty (flush current args) ≡ (nonempty current || nonempty args)
unfolding flush
nonempty-flush [] args = refl
nonempty-flush (c ∷ cs) args = ground (arith, nonempty-append args ((c ∷ cs) ∷ []))

-- The command line is refused as empty exactly when it holds nothing but blanks.
pub parse_command-empty_iff :
    (cmd : Text) → (parse_command cmd ≡ err empty_command_line) ↔ (all is_blank cmd ≡ true)
unfolding parse_command finish split_head
parse_command-empty_iff cmd = ground (
  arith,
  started-scan initial cmd,
  scan-arg initial cmd (λ e. cc),
  nonempty-flush (scan initial cmd).current (scan initial cmd).args,
)
