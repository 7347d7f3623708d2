-- ===== src/Client/Followed.antt =====
-- That no line of a log is lost between the lines that `edward log` reads at first and those that it
-- follows, of edward/tail.go, and the order of the services of a group.
use edward.Base.{
  ◌≡◌, refl, sym, ap, ◌∙◌, true, none, List, [], ◌∷◌, ◌++◌, Result, ok, err, ◌>>=◌, length,
  append_assoc, bind-ok, ok_injective,
}
use edward.Base.Text.{Text}
use edward.Services.{ServiceConfig, is_nonempty}
use edward.Groups.{Group, Groups, node, nil, cons}
use edward.Client.Logs.{
  LogLine, Logs, Followed, parse_lines, initial_lines, follow_service_log, send_lines,
  do_follow_service_log, follow_services, follow_group_log, follow_group_logs, and_more,
}

module _ (logs : Logs) where
  parse_lines-cons :
      (text : Text) (texts : List Text) {all : List LogLine}
      → parse_lines logs (text ∷ texts) ≡ ok all
      → (line : LogLine) × (lines : List LogLine) × (logs.parse_log_line text ≡ ok line)
        × (parse_lines logs texts ≡ ok lines)
        × (line ∷ lines ≡ all)
  unfolding parse_lines
  parse_lines-cons text texts h =
      let (line, l, h') =
        bind-ok (logs.parse_log_line text)
          (λ line. parse_lines logs texts >>= (λ lines. ok (line ∷ lines))) h in
      let (lines, ls, h'') = bind-ok (parse_lines logs texts) (λ lines. ok (line ∷ lines)) h' in
      (line, lines, l, ls, ok_injective h'')

  send_lines-parse :
      (texts : List Text) {all : List LogLine}
      → parse_lines logs texts ≡ ok all
      → send_lines logs texts ≡ all
  unfolding send_lines parse_lines
  send_lines-parse [] h = ok_injective h
  send_lines-parse (text ∷ texts) h =
      let (line, lines, l, ls, e) = parse_lines-cons text texts h in
      rw (send_lines, l) (ap (λ t. line ∷ t) (send_lines-parse texts ls) ∙ e)

  do_follow-skip :
      (texts more : List Text)
      → do_follow_service_log logs (length texts) (texts ++ more) ≡ send_lines logs more
  unfolding do_follow_service_log send_lines
  do_follow-skip [] [] = refl
  do_follow-skip [] (text ∷ more) = refl
  do_follow-skip (text ∷ texts) more = do_follow-skip texts more

  parse_lines-append :
      (texts more : List Text) {all : List LogLine}
      → parse_lines logs (texts ++ more) ≡ ok all
      → (before : List LogLine) × (after : List LogLine) × (parse_lines logs texts ≡ ok before)
        × (parse_lines logs more ≡ ok after)
        × (before ++ after ≡ all)
  unfolding parse_lines
  parse_lines-append [] more {all} h = ([], all, refl, h, refl)
  parse_lines-append (text ∷ texts) more h =
      let (line, lines, l, ls, e) = parse_lines-cons text (texts ++ more) h in
      let (before, after, b, a, joined) = parse_lines-append texts more ls in
      (line ∷ before, after, rw (l, b) refl, a, ap (λ t. line ∷ t) joined ∙ e)

  -- Where all lines of a service's log can be decoded, those that were there when it was read and those
  -- that are added to it while it is followed, `edward log` reads the former and starts a follower,
  -- and the lines that it read and those that the follower sends are, in order, all of them.
  pub follow_service_log-all :
      (s : ServiceConfig) (texts more : List Text) {all : List LogLine}
      → is_nonempty s.commands.launch ≡ true
      → logs.scan_log s ≡ ok (texts, none)
      → parse_lines logs (texts ++ more) ≡ ok all
      → (initial : List LogLine) × (follow_service_log logs s
          ≡ ok (initial, record { service = s; skip_lines = length texts } ∷ []))
        × (initial ++ do_follow_service_log logs (length texts) (texts ++ more) ≡ all)
  unfolding follow_service_log initial_lines
  follow_service_log-all s texts more launched scanned h =
      let (before, after, b, a, joined) = parse_lines-append texts more h in
      (
        before,
        rw (launched, scanned, b) refl,
        ap (λ t. before ++ t) (do_follow-skip texts more ∙ send_lines-parse more a) ∙ joined,
      )

  abbrev plus : Result Text Followed → Result Text Followed → Result Text Followed
  plus a b = a >>= (λ x. b >>= (λ y. ok (and_more logs x y)))

  plus_nil : (a : Result Text Followed) → a ≡ plus (ok ([], [])) a
  plus_nil (err e) = refl
  plus_nil (ok (lines, fs)) = refl

  plus_assoc : (a b c : Result Text Followed) → plus a (plus b c) ≡ plus (plus a b) c
  plus_assoc (err e) b c = refl
  plus_assoc (ok x) (err e) c = refl
  plus_assoc (ok x) (ok y) (err e) = refl
  plus_assoc (ok (ls, fs)) (ok (ms, gs)) (ok (ns, hs)) = ap ok (
      ap (λ t. (t, fs ++ (gs ++ hs))) (sym (append_assoc ls ms ns))
      ∙ ap (λ t. ((ls ++ ms) ++ ns, t)) (sym (append_assoc fs gs hs)))

  unfoldable mutual
    pub services_below : Group → List ServiceConfig
    services_below (node i ss gs) = services_of_groups gs ++ ss

    pub services_of_groups : Groups → List ServiceConfig
    services_of_groups nil = []
    services_of_groups (cons g gs) = services_below g ++ services_of_groups gs

  follow_services-append :
      (ss ts : List ServiceConfig)
      → follow_services logs (ss ++ ts) ≡ plus (follow_services logs ss) (follow_services logs ts)
  unfolding follow_services
  follow_services-append [] ts = plus_nil (follow_services logs ts)
  follow_services-append (s ∷ ss) ts =
      ap (plus (follow_service_log logs s)) (follow_services-append ss ts)
      ∙ plus_assoc (follow_service_log logs s) (follow_services logs ss) (follow_services logs ts)

  mutual
    unfolding follow_group_log follow_services services_below

    group-flat : (g : Group) → follow_group_log logs g ≡ follow_services logs (services_below g)
    group-flat (node i ss gs) =
        ap (λ r. plus r (follow_services logs ss)) (groups-flat gs)
        ∙ sym (follow_services-append (services_of_groups gs) ss)

    groups-flat :
        (gs : Groups) → follow_group_logs logs gs ≡ follow_services logs (services_of_groups gs)
    groups-flat nil = refl
    groups-flat (cons g gs) =
        ap (λ r. plus r (follow_group_logs logs gs)) (group-flat g)
        ∙ ap (plus (follow_services logs (services_below g))) (groups-flat gs)
        ∙ sym (follow_services-append (services_below g) (services_of_groups gs))

  -- The log of a group is followed as the logs of the services below it, one after the other, of which
  -- those of its child groups come before its own, and the first error is that of both.
  pub follow_group_log-services :
      (g : Group) → follow_group_log logs g ≡ follow_services logs (services_below g)
  follow_group_log-services = group-flat
