-- ===== src/Api/Errors.antt =====
-- web/src/api.ts: the grouped errors of the fleet.
use marshal_pm.Base.{
  Bool, Option, none, some, List, [], ◌∷◌, ◌++◌, Text, codes, decimal, if◌then◌else◌, Outcome,
  returned, threw, ◌>>=◌,
}
use marshal_pm.Uri.{search_params}
use marshal_pm.Api.Types.{ErrorsResponse}
use marshal_pm.Api.Http.{
  str, bool, post, Fetch, get_request, send, object, is_ok, is_status, unauthorized,
}

-- The parameter `agent` is sent unless it is absent or empty.
abbrev agent_param : Option Text → List (Text × Text)
agent_param none = []
agent_param (some []) = []
agent_param (some (c ∷ s)) = (codes "agent", c ∷ s) ∷ []

module _ {N : Type 0} where
  unfoldable pub ack_error : Fetch N (Unit {0}) → Text → Bool → Outcome (Unit {0})
  ack_error fetch id ack = do
    r ← fetch (
        send post (codes "/api/errors/ack")
          (some (object ((codes "id", str id) ∷ (codes "ack", bool ack) ∷ []))))
    if is_ok r then returned tt else threw (codes "ack " ++ decimal r.status)

  unfoldable pub get_errors :
      Fetch N ErrorsResponse → (range : Text) → Option Text → Outcome ErrorsResponse
  get_errors fetch range agent = do
    let q = search_params ((codes "range", range) ∷ agent_param agent)
    r ← fetch (get_request (codes "/api/errors?" ++ q))
    if is_status 401 r
        then threw unauthorized
        else if is_ok r
        then r.json
        else threw (codes "errors " ++ decimal r.status)
