-- ===== src/Client/Lists.antt =====
-- edward/list.go and edward/status.go: the services and groups that are listed, and the rows of the
-- table of `edward status`. The table itself, numbers and times as text are arguments.
use edward.Base.{ℕ, Bool, true, false, List, [], ◌∷◌, ◌++◌, Result, ok, ◌>>=◌, if◌then◌else◌, map}
use edward.Base.Text.{Text, codes}
use edward.Services.{ServiceConfig}
use edward.Groups.{Member, service, Group, group_info}
use edward.Commands.Status.{ServiceStatus, RunState, is_stopped, is_running}
use edward.Generators.Matches.{join_texts}

-- `fmt.Fprintln(c.Output, "\t", name, ": ", description)`, which puts a space between the four.
abbrev pub list_line : Text → Text → Text
list_line name description = 9 ∷ codes " " ++ name ++ codes " :  " ++ description ++ 10 ∷ []

unfoldable pub concat_texts : List Text → Text
concat_texts [] = []
concat_texts (s ∷ ss) = s ++ concat_texts ss

-- `List`, on the groups and services in the order of their names.
unfoldable pub list : List Group → List ServiceConfig → Text
unfolding concat_texts
list groups services =
    codes "Services and groups"
    ++ 10 ∷ codes "Groups:"
    ++ 10
      ∷ concat_texts (map (λ g. list_line (group_info g).name (group_info g).description) groups)
    ++ codes "Services:"
    ++ 10 ∷ concat_texts (map (λ s. list_line s.name s.description) services)

pub record Table : Type 0 where
  pub itoa : ℕ → Text
  pub format_time : ℕ → Text
  pub render : List (List Text) → Text

module _ (table : Table) (status_of : Member → Result Text (List ServiceStatus)) where
  abbrev pub is_off : RunState → Bool
  is_off is_stopped = true
  is_off is_running = false

  -- A service is appended for each of its statuses that is not stopped.
  unfoldable pub append_up : ServiceConfig → List ServiceStatus → List Member
  append_up s [] = []
  append_up s (st ∷ sts) =
      let rest = append_up s sts in if is_off st.status then rest else service s ∷ rest

  unfoldable pub up_members : List ServiceConfig → Result Text (List Member)
  unfolding append_up
  up_members [] = ok []
  up_members (s ∷ ss) = do
    sts ← status_of (service s)
    rest ← up_members ss
    ok (append_up s sts ++ rest)

  abbrev pub state_text : RunState → Text
  state_text is_stopped = codes "STOPPED"
  state_text is_running = codes "RUNNING"

  abbrev pub row : ServiceStatus → List Text
  row st =
      st.service.name
      ∷ state_text st.status
      ∷ table.itoa st.pid
      ∷ join_texts (codes ", ") st.ports
      ∷ (table.itoa st.stdout_count ++ codes " lines")
      ∷ (table.itoa st.stderr_count ++ codes " lines")
      ∷ table.format_time st.start_time
      ∷ []

  unfoldable pub rows : List Member → Result Text (List (List Text))
  unfolding join_texts
  rows [] = ok []
  rows (m ∷ ms) = do sts ← status_of m; rest ← rows ms; ok (map row sts ++ rest)

  abbrev pub header : List Text
  header =
      codes "Name"
      ∷ codes "Status"
      ∷ codes "PID"
      ∷ codes "Ports"
      ∷ codes "Stdout"
      ∷ codes "Stderr"
      ∷ codes "Start Time"
      ∷ []

  unfoldable pub show_table : Text → List Member → Result Text Text
  unfolding rows
  show_table none_found [] = ok none_found
  show_table none_found (m ∷ ms) = do shown ← rows (m ∷ ms); ok (table.render (header ∷ shown))

  -- `Status`
  unfoldable pub status :
      (List Text → Result Text (List Member)) → List ServiceConfig → List Text → Result Text Text
  unfolding up_members show_table
  status get_services_or_groups all_sorted [] =
      up_members all_sorted >>= show_table (codes "No services are running" ++ 10 ∷ [])
  status get_services_or_groups all_sorted (name ∷ names) =
      get_services_or_groups (name ∷ names) >>= show_table (codes "No services found" ++ 10 ∷ [])
