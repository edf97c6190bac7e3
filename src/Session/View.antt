-- ===== src/Session/View.antt =====
-- What web/src/Login.tsx, web/src/UpdateBanner.tsx and web/src/AppShell.tsx show.
use marshal_pm.Base.{
  ℕ, Bool, false, Option, none, some, List, [], ◌++◌, Text, codes, decimal, is_blank, length, ltb,
  ◌==◌, if◌then◌else◌,
}
use marshal_pm.Router.{Route}
use marshal_pm.Api.Types.{UpdateStatus}
use marshal_pm.Session.{Login, banner_shown}
use marshal_pm.Session.Rail.{RailItem, rail}
use marshal_pm.Ui.Controls.{FieldView, field_view, ButtonView, button_view}

-- The form: the field with the password, the error, and the button.
pub record LoginView : Type 0 where
  pub tagline : Text
  pub field : FieldView
  pub value : Text
  pub error : Option Text
  pub button : ButtonView

unfoldable pub login_view : Login → LoginView
unfolding field_view button_view
login_view s = record {
  tagline = codes "self-hosted process fleet";
  field = field_view (codes "password") false none none;
  value = s.pass;
  error = if is_blank s.error then none else some s.error;
  button =
      button_view none none none s.busy none none
        (if s.busy then codes "signing in…" else codes "sign in");
}

-- The text of the notice: about the server, and about the agents if some are behind.
abbrev server_text : UpdateStatus → Text
server_text u =
    if u.outdated
    then codes "Marshal "
      ++ (u.latest
          ++ (codes " is available"
              ++ (if is_blank u.current then [] else codes " — this server runs " ++ u.current)))
    else codes "Marshal " ++ (u.latest ++ codes " is the latest release")

abbrev agents_text : ℕ → Text
agents_text n =
    if ltb 0 n
    then codes " · "
      ++ (decimal n
          ++ (codes " agent"
              ++ ((if n == 1 then [] else codes "s") ++ codes " on an older version")))
    else []

unfoldable pub banner_text : UpdateStatus → Text
unfolding decimal
banner_text u = server_text u ++ agents_text (length u.outdated_agents)

abbrev pub releases_url : Text
releases_url = codes "https://github.com/REDDE4D/marshal-pm/releases"

unfoldable pub banner_view : Bool → UpdateStatus → Option (Text × Text)
unfolding banner_shown banner_text
banner_view dismissed u =
    if banner_shown dismissed u then some (banner_text u, releases_url) else none

-- The shell: the rail, the line above the page, and the notice, once the server was asked for it.
pub record ShellView : Type 0 where
  pub rail : List RailItem
  pub ctx : Text
  pub banner : Option (Text × Text)

abbrev banner_of : Bool → Option UpdateStatus → Option (Text × Text)
banner_of dismissed none = none
banner_of dismissed (some u) = banner_view dismissed u

unfoldable pub shell_view :
    Route → Text → (badge : ℕ) → (dismissed : Bool) → Option UpdateStatus → ShellView
unfolding rail banner_view
shell_view route ctx badge dismissed update = record {
  rail = rail route badge;
  ctx = ctx;
  banner = banner_of dismissed update;
}
