-- ===== src/AddApp/Tests.antt =====
-- A form that is filled in, for an agent that accepts what it is sent.
use marshal_pm.Base.{
  lookup, ℕ, ◌≡◌, ◌↔◌, refl, true, false, some, none, [], ◌∷◌, codes, returned, trim, text_eq,
}
use marshal_pm.Api.Types.{command, ControlResult}
use marshal_pm.Api.Http.{Fetch}
use marshal_pm.Api.Apps.{add_app}
use marshal_pm.AddApp.{AddApp, disabled_reason, source_of, submit, env_map}
use marshal_pm.AddApp.Submit.{submit_lem}
use marshal_pm.AddApp.View.{form_view}
use marshal_pm.AddApp.Shown.{source_of-form_view}
use marshal_pm.AddApp.Env.{lookup-env_map}
use marshal_pm.Samples.{whole_numbers, replies}

abbrev form : AddApp
form = record {
  agent = codes "a1";
  source_type = command;
  name = codes "web";
  cmd = codes "node";
  args = codes "server.js  --port 3000";
  cwd = [];
  repo = [];
  git_ref = [];
  build = [];
  subdir = [];
  instances = [];
  show_adv = false;
  env =
      record { key = codes "PORT"; value = codes "1" }
      ∷ record { key = codes " PORT "; value = codes "2" }
      ∷ [];
  restart = codes "always";
  max_restarts = [];
  kill_timeout = [];
  max_memory_restart = [];
  creds = [];
  credential = [];
  busy = false;
  error = [];
}

abbrev server : Fetch ℕ ControlResult
server = replies 200 (record { ok = true; error = none })

form_complete : disabled_reason form ≡ none
unfolding disabled_reason trim
form_complete = refl

submit_lem_example :
    (((submit whole_numbers server form).1 ≡ true) ↔ (
      (res : ControlResult) × (add_app server (codes "a1") (source_of whole_numbers form)
        ≡ returned res)
      × (res.ok ≡ true)))
    × (((submit whole_numbers server form).0.busy ≡ false) ↔ (
        (res : ControlResult) × (add_app server (codes "a1") (source_of whole_numbers form)
          ≡ returned res)))
submit_lem_example = submit_lem whole_numbers server form form_complete

lookup-env_map_example : lookup (codes "PORT") (env_map form.env) ≡ some (codes "2")
unfolding trim text_eq
lookup-env_map_example = lookup-env_map (codes "PORT") form.env

-- Two forms for a command, with different repositories typed in before.
abbrev shown_form : AddApp
shown_form = record form { show_adv = true }

abbrev other_form : AddApp
other_form = record form { show_adv = true; repo = codes "x"; subdir = codes "y" }

source_of-form_view_example :
    source_of whole_numbers shown_form ≡ source_of whole_numbers other_form
unfolding form_view
source_of-form_view_example =
    source_of-form_view whole_numbers {N = ℕ} [] shown_form other_form refl refl
