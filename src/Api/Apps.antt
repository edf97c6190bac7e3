-- ===== src/Api/Apps.antt =====
-- web/src/api.ts: process control, and apps added and redeployed.
use marshal_pm.Base.{
  false, Option, none, some, List, [], ◌∷◌, Text, codes, map, if◌then◌else◌, Outcome, returned,
  threw, ◌>>=◌, catch,
}
use marshal_pm.Api.Types.{ControlResult, AppSource, from_command, from_git}
use marshal_pm.Api.Http.{
  Json, str, num, arr, items, post, Response, Fetch, send, object, optional, is_status, nullish,
  error_status,
}

pub data Action : Type 0 where
  restart stop delete reload reset flush : Action

unfoldable pub action_name : Action → Text
action_name restart = codes "restart"
action_name stop = codes "stop"
action_name delete = codes "delete"
action_name reload = codes "reload"
action_name reset = codes "reset"
action_name flush = codes "flush"

abbrev pub failed : Text → ControlResult
failed message = record { ok = false; error = some message }

-- The reply to a change: a 200 is the agent's own result, anything else a failure with the
-- message of its body, or its status where the body has none or is no JSON.
unfoldable pub read_result : Response ControlResult → Outcome ControlResult
read_result r =
    if is_status 200 r
    then r.json
    else catch (r.error_field >>= λ e. returned (failed (nullish e (error_status r.status))))
        (λ _. returned (failed (error_status r.status)))

module _ {N : Type 0} where
  unfoldable pub control :
      Fetch N ControlResult → (agent selector : Text) → Action → Outcome ControlResult
  unfolding read_result
  control fetch agent selector action = do
    r ← fetch (
        send post (codes "/api/control") (
          some (
            object (
              (codes "agent", str agent)
              ∷ (codes "selector", str selector)
              ∷ (codes "action", str (action_name action))
              ∷ []))))
    read_result r

  abbrev pub strings : List Text → Json N
  strings xs = arr (items (map str xs))

  abbrev pub dictionary : List (Text × Text) → Json N
  dictionary pairs = object (map (λ kv. (kv.0, str kv.1)) pairs)

  abbrev pub opt_str : Option Text → Option (Json N)
  opt_str none = none
  opt_str (some s) = some (str s)

  abbrev pub opt_num : Option N → Option (Json N)
  opt_num none = none
  opt_num (some n) = some (num n)

  abbrev pub opt_strings : Option (List Text) → Option (Json N)
  opt_strings none = none
  opt_strings (some xs) = some (strings xs)

  abbrev pub opt_dictionary : Option (List (Text × Text)) → Option (Json N)
  opt_dictionary none = none
  opt_dictionary (some m) = some (dictionary m)

  -- A source as JSON: absent members are left out.
  unfoldable pub source_json : AppSource N → Json N
  source_json (from_command c) = object (
      (codes "type", str (codes "command"))
      ∷ (codes "name", str c.name)
      ∷ (codes "cmd", str c.cmd)
      ∷ optional (codes "args") (opt_strings c.args) (
          optional (codes "cwd") (opt_str c.cwd) (
            optional (codes "instances") (opt_num c.instances) (
              optional (codes "env") (opt_dictionary c.env) (
                optional (codes "restart") (opt_str c.restart) (
                  optional (codes "max_restarts") (opt_num c.max_restarts) (
                    optional (codes "kill_timeout") (opt_str c.kill_timeout) (
                      optional (codes "max_memory_restart") (opt_num c.max_memory_restart)
                        []))))))))
  source_json (from_git g) = object (
      (codes "type", str (codes "git"))
      ∷ (codes "name", str g.name)
      ∷ (codes "cmd", str g.cmd)
      ∷ (codes "repo", str g.repo)
      ∷ optional (codes "args") (opt_strings g.args) (
          optional (codes "instances") (opt_num g.instances) (
            optional (codes "env") (opt_dictionary g.env) (
              optional (codes "restart") (opt_str g.restart) (
                optional (codes "ref") (opt_str g.git_ref) (
                  optional (codes "build") (opt_str g.build) (
                    optional (codes "subdir") (opt_str g.subdir) (
                      optional (codes "credential") (opt_str g.credential) (
                        optional (codes "max_memory_restart") (opt_num g.max_memory_restart)
                          [])))))))))

  unfoldable pub add_app : Fetch N ControlResult → Text → AppSource N → Outcome ControlResult
  unfolding read_result
  add_app fetch agent source = do
    r ← fetch (
        send post (codes "/api/apps")
          (some (object ((codes "agent", str agent) ∷ (codes "source", source_json source) ∷ []))))
    read_result r

  -- A 401 throws; any other reply is its JSON, or a failure where it is none.
  unfoldable pub redeploy :
      Fetch N ControlResult → (agent name : Text) → Option Text → Outcome ControlResult
  redeploy fetch agent name credential = do
    r ← fetch (
        send post (codes "/api/apps/redeploy") (
          some (
            object (
              (codes "agent", str agent)
              ∷ (codes "name", str name)
              ∷ optional (codes "credential") (opt_str credential) []))))
    if is_status 401 r
        then threw (codes "error 401")
        else catch r.json (λ _. returned (failed (error_status r.status)))
