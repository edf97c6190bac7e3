-- ===== src/AddApp/View.antt =====
-- What web/src/AddAppModal.tsx shows: the fields of the chosen source type, those behind
-- `advanced`, and the buttons.
use marshal_pm.Base.{
  Bool, true, false, not, Option, none, some, List, [], ◌∷◌, ◌++◌, Text, codes, is_blank, map,
  if◌then◌else◌,
}
use marshal_pm.Api.Types.{Agent, Source, command, git, CredentialMeta}
use marshal_pm.AddApp.{AddApp, EnvRow, connected_agents, disabled_reason, is_command}
use marshal_pm.Ui.Controls.{FieldView, field_view, segment_view, ButtonView, button_view}

-- An option of a choice: the value, the text, and whether it is disabled.
abbrev pub Choice : Type 0
Choice = Text × Text × Bool

pub data Control : Type 0 where
  hint_line : Text → Control
  chosen : (value : Text) → List Choice → Control
  segments : List (Option Text × Text × Bool) → Control
  typed : (value placeholder : Text) → (numeric : Bool) → Control

abbrev pub FormField : Type 0
FormField = FieldView × Control

abbrev pub plain : Text → Control → FormField
plain label control = (field_view label false none none, control)

abbrev pub hinted : Text → Bool → Text → Control → FormField
hinted label required hint control = (field_view label required none (some hint), control)

abbrev pub agent_choice : {N : Type 0} → List (Agent N) → Text → Control
agent_choice [] agent = hint_line (codes "no agents connected")
agent_choice (a ∷ rest) agent =
    chosen agent ((codes "", codes "select…", true) ∷ map (λ x. (x.name, x.name, false)) (a ∷ rest))

abbrev pub same_source : Source → Source → Bool
same_source command command = true
same_source git git = true
same_source command git = false
same_source git command = false

abbrev pub cred_choices : List CredentialMeta → List Choice
cred_choices creds =
    (codes "", codes "None (public repo / host auth)", false)
    ∷ map (λ c. (c.name, c.name ++ (codes " (" ++ (c.username ++ codes ")")), false)) creds

-- The fields between the name and the start command.
unfoldable pub repo_fields : Source → AddApp → List FormField
repo_fields command s = []
repo_fields git s =
    hinted (codes "repo") true (codes "Full HTTPS or SSH URL of the repository to clone")
      (typed s.repo (codes "https://github.com/user/repo") false)
    ∷ hinted (codes "ref") false
        (codes "Branch, tag, or commit to check out — leave blank for the default branch")
        (typed s.git_ref (codes "default branch") false)
    ∷ hinted (codes "build command") false
        (codes "Runs once after clone to build the project — leave blank to auto-detect")
        (typed s.build (codes "auto-detect") false)
    ∷ plain (codes "credential") (chosen s.credential (cred_choices s.creds))
    ∷ []

unfoldable pub cwd_fields : Source → AddApp → List FormField
cwd_fields git s = []
cwd_fields command s = plain (codes "working dir") (typed s.cwd (codes "/srv/app") false) ∷ []

abbrev pub source_segments : Source → List (Option Text × Text × Bool)
source_segments value =
    segment_view same_source ((command, codes "command") ∷ (git, codes "from git") ∷ []) value

-- The fields above `advanced`.
unfoldable pub basic_fields : {N : Type 0} → List (Agent N) → AddApp → List FormField
unfolding repo_fields cwd_fields connected_agents
basic_fields agents s =
    plain (codes "target agent") (agent_choice (connected_agents agents) s.agent)
    ∷ plain (codes "source") (segments (source_segments s.source_type))
    ∷ plain (codes "name") (typed s.name (codes "web") false)
    ∷ (repo_fields s.source_type s
        ++ (plain (if is_command s.source_type then codes "command" else codes "start command")
              (typed s.cmd (codes "/usr/bin/node") false)
            ∷ plain (codes "args") (typed s.args (codes "server.js --port 3000") false)
            ∷ (cwd_fields s.source_type s
                ++ (plain (codes "instances") (typed s.instances (codes "1") true) ∷ []))))

unfoldable pub subdir_fields : Source → AddApp → List FormField
subdir_fields command s = []
subdir_fields git s = plain (codes "subdir") (typed s.subdir (codes "packages/server") false) ∷ []

unfoldable pub limit_fields : Source → AddApp → List FormField
limit_fields git s = []
limit_fields command s =
    plain (codes "max restarts") (typed s.max_restarts (codes "16") true)
    ∷ plain (codes "kill timeout") (typed s.kill_timeout (codes "5s") false)
    ∷ []

abbrev pub restart_choices : List Choice
restart_choices =
    (codes "always", codes "always", false)
    ∷ (codes "on-failure", codes "on-failure", false)
    ∷ (codes "no", codes "no", false)
    ∷ []

-- The fields behind `advanced`: those above the rows of the environment, these, and those below.
pub record Advanced : Type 0 where
  pub above : List FormField
  pub env : List EnvRow
  pub below : List FormField

unfoldable pub advanced_fields : AddApp → Advanced
unfolding subdir_fields limit_fields
advanced_fields s = record {
  above = subdir_fields s.source_type s;
  env = s.env;
  below =
      plain (codes "restart") (chosen s.restart restart_choices)
      ∷ (limit_fields s.source_type s
          ++ (plain (codes "max memory restart (MB, 0 = off)")
                (typed s.max_memory_restart (codes "0") true)
              ∷ []));
}

unfoldable pub toggle_advanced : AddApp → AddApp
toggle_advanced s = record s { show_adv = not s.show_adv }

-- The form: the error above it, its fields, the button that shows or hides the advanced ones, and
-- these while they are shown.
pub record FormView : Type 0 where
  pub error : Option Text
  pub fields : List FormField
  pub toggle : Text
  pub advanced : Option Advanced

unfoldable pub form_view : {N : Type 0} → List (Agent N) → AddApp → FormView
unfolding basic_fields advanced_fields
form_view agents s = record {
  error = if is_blank s.error then none else some s.error;
  fields = basic_fields agents s;
  toggle = (if s.show_adv then codes "▾" else codes "▸") ++ codes " advanced";
  advanced = if s.show_adv then some (advanced_fields s) else none;
}

unfoldable pub form_footer : AddApp → List ButtonView
unfolding button_view disabled_reason
form_footer s =
    button_view (some (codes "ghost")) none none false none none (codes "cancel")
    ∷ button_view none none none false (disabled_reason s) none
        (if s.busy then codes "adding…" else codes "add app")
    ∷ []
