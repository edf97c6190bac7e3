-- ===== src/AddApp.antt =====
-- web/src/AddAppModal.tsx: the form that adds an app, and the source that it submits. `F.parse` is
-- `Number(text)`.
pub mod Submit
pub mod Env
pub mod View
pub mod Shown
pub mod Tests
use marshal_pm.Base.{
  assign, ℕ, zero, suc, Bool, true, false, not, ◌&&◌, ◌||◌, Option, none, some, List, [], ◌∷◌, ◌++◌,
  Text, codes, text_eq, is_blank, is_space, or_else, trim, select, map, length, ◌==◌, Floats,
  if◌then◌else◌, Outcome, returned, threw,
}
use marshal_pm.Api.Types.{
  Agent, Source, command, git, CommandSource, GitSource, AppSource, from_command, from_git,
  ControlResult, CredentialMeta,
}
use marshal_pm.Api.Http.{Fetch, nullish}
use marshal_pm.Api.Apps.{add_app}

pub record EnvRow : Type 0 where
  pub key : Text
  pub value : Text

pub record AddApp : Type 0 where
  pub agent : Text
  pub source_type : Source
  pub name : Text
  pub cmd : Text
  pub args : Text
  pub cwd : Text
  pub repo : Text
  pub git_ref : Text
  pub build : Text
  pub subdir : Text
  pub instances : Text
  pub show_adv : Bool
  pub env : List EnvRow
  pub restart : Text
  pub max_restarts : Text
  pub kill_timeout : Text
  pub max_memory_restart : Text
  pub creds : List CredentialMeta
  pub credential : Text
  pub busy : Bool
  pub error : Text

-- The agents to choose from, and the choice at the start: the only one, if there is one.
unfoldable pub connected_agents : {N : Type 0} → List (Agent N) → List (Agent N)
connected_agents agents = select (λ a. a.connected) agents

unfoldable pub initial_agent : {N : Type 0} → List (Agent N) → Text
initial_agent [] = []
initial_agent (a ∷ []) = a.name
initial_agent (a ∷ b ∷ rest) = []

unfoldable pub opened : {N : Type 0} → List (Agent N) → AddApp
unfolding connected_agents initial_agent
opened agents = record {
  agent = initial_agent (connected_agents agents);
  source_type = command;
  name = [];
  cmd = [];
  args = [];
  cwd = [];
  repo = [];
  git_ref = [];
  build = [];
  subdir = [];
  instances = [];
  show_adv = false;
  env = [];
  restart = codes "always";
  max_restarts = [];
  kill_timeout = [];
  max_memory_restart = [];
  creds = [];
  credential = [];
  busy = false;
  error = [];
}

abbrev pub is_command : Source → Bool
is_command command = true
is_command git = false

-- `s.trim() !== ""`.
abbrev pub filled : Text → Bool
filled s = not (is_blank (trim s))

unfoldable pub can_submit : AddApp → Bool
unfolding trim
can_submit s =
    not (is_blank s.agent)
    && (filled s.name
        && (filled s.cmd && ((is_command s.source_type || filled s.repo) && not s.busy)))

-- Why the button is disabled, if it is.
unfoldable pub disabled_reason : AddApp → Option Text
unfolding trim
disabled_reason s =
    if is_blank s.agent
    then some (codes "Select an agent")
    else if not (filled s.name)
    then some (codes "Enter a name")
    else if not (filled s.cmd)
    then some (codes "Enter a command")
    else if not (is_command s.source_type) && not (filled s.repo)
    then some (codes "Enter a repo URL")
    else if s.busy
    then some (codes "Submitting…")
    else none

-- `args.split(/\s+/).map((s) => s.trim()).filter(Boolean)`: the words between white space. A round
-- adds a character to the first word, or begins a new one; empty words are dropped at the end.
abbrev push_word : ℕ → List Text → List Text
push_word c [] = (c ∷ []) ∷ []
push_word c (w ∷ ws) = (c ∷ w) ∷ ws

split_spaces : Text → List Text
split_spaces [] = [] ∷ []
split_spaces (c ∷ s) =
    let rest = split_spaces s in if is_space c then [] ∷ rest else push_word c rest

unfoldable pub arg_list : Text → List Text
unfolding split_spaces trim is_space
arg_list args = select (λ w. not (is_blank w)) (map trim (split_spaces args))

env_from : List (Text × Text) → List EnvRow → List (Text × Text)
env_from m [] = m
env_from m (row ∷ rows) =
    env_from (if filled row.key then assign (trim row.key) row.value m else m) rows

-- The loop over the rows with a name: it is trimmed, and a later row overrides an earlier one.
unfoldable pub env_map : List EnvRow → List (Text × Text)
unfolding env_from assign trim
env_map rows = env_from [] rows

-- A trimmed field, if it is not empty.
abbrev unless_empty : Text → Option Text
unless_empty [] = none
unless_empty (c ∷ s) = some (c ∷ s)

abbrev unless_nil {ℓ} : {A : Type ℓ} → List A → Option (List A)
unless_nil [] = none
unless_nil (x ∷ xs) = some (x ∷ xs)

-- `restart` is sent unless it is the default.
abbrev restart_of : Text → Option Text
restart_of r = if text_eq r (codes "always") then none else some r

module _ (F : Floats) where
  open F use {Num, of_nat, mul, parse}

  -- `Number(text)`, if the text is not blank.
  number_of : Text → Option Num
  number_of s = if filled s then some (parse s) else none

  -- A limit in megabytes, in bytes.
  bytes_of : Text → Option Num
  bytes_of s = if filled s then some (mul (mul (parse s) (of_nat 1024)) (of_nat 1024)) else none

  unfoldable pub git_source : AddApp → GitSource Num
  unfolding number_of bytes_of arg_list env_map text_eq trim
  git_source s = record {
    name = trim s.name;
    cmd = trim s.cmd;
    repo = trim s.repo;
    args = unless_nil (arg_list s.args);
    instances = number_of s.instances;
    env = unless_nil (env_map s.env);
    restart = restart_of s.restart;
    git_ref = unless_empty (trim s.git_ref);
    build = unless_empty (trim s.build);
    subdir = unless_empty (trim s.subdir);
    credential = unless_empty s.credential;
    max_memory_restart = bytes_of s.max_memory_restart;
  }

  unfoldable pub command_source : AddApp → CommandSource Num
  unfolding number_of bytes_of arg_list env_map text_eq trim
  command_source s = record {
    name = trim s.name;
    cmd = trim s.cmd;
    args = unless_nil (arg_list s.args);
    cwd = unless_empty (trim s.cwd);
    instances = number_of s.instances;
    env = unless_nil (env_map s.env);
    restart = restart_of s.restart;
    max_restarts = number_of s.max_restarts;
    kill_timeout = unless_empty (trim s.kill_timeout);
    max_memory_restart = bytes_of s.max_memory_restart;
  }

  source_for : Source → AddApp → AppSource Num
  source_for git s = from_git (git_source s)
  source_for command s = from_command (command_source s)

  unfoldable pub source_of : AddApp → AppSource Num
  unfolding source_for git_source command_source
  source_of s = source_for s.source_type s

  -- What the form's state becomes, and whether the dialog reports the app and closes.
  unfoldable pub begin_submit : AddApp → AddApp
  begin_submit s = record s { busy = true; error = [] }

  unfoldable pub end_submit : Outcome ControlResult → AddApp → AddApp × Bool
  end_submit (threw e) s = (s, false)
  end_submit (returned res) s = if res.ok then (record s { busy = false }, true) else (
    record s { busy = false; error = or_else (nullish res.error []) (codes "error") },
    false,
  )

  pub submit : Fetch Num ControlResult → AddApp → AddApp × Bool
  submit fetch s =
      if can_submit s
      then end_submit (add_app fetch s.agent (source_of s)) (begin_submit s)
      else (s, false)

-- The rows of the environment: a key or a value is edited, a row is removed, one is added.
map_at : {A : Type 0} → ℕ → (A → A) → List A → List A
map_at i f [] = []
map_at zero f (x ∷ xs) = f x ∷ xs
map_at (suc i) f (x ∷ xs) = x ∷ map_at i f xs

remove_at : {A : Type 0} → ℕ → List A → List A
remove_at i [] = []
remove_at zero (x ∷ xs) = xs
remove_at (suc i) (x ∷ xs) = x ∷ remove_at i xs

unfoldable pub set_env_key : ℕ → Text → AddApp → AddApp
unfolding map_at
set_env_key i k s = record s { env = map_at i (λ (r : EnvRow). record r { key = k }) s.env }

unfoldable pub set_env_value : ℕ → Text → AddApp → AddApp
unfolding map_at
set_env_value i v s = record s { env = map_at i (λ (r : EnvRow). record r { value = v }) s.env }

unfoldable pub remove_env : ℕ → AddApp → AddApp
unfolding remove_at
remove_env i s = record s { env = remove_at i s.env }

unfoldable pub add_env : AddApp → AddApp
add_env s = record s { env = s.env ++ (record { key = []; value = [] } ∷ []) }
