-- ===== src/Session/Access.antt =====
-- Who sees the pages.
use mathlib.Core.Path.{subst}
use marshal_pm.Base.{
  ◌≡◌, ◌↔◌, ◌⊎◌, inl, inr, refl, arith, Bool, true, false, some, List, [], ◌∷◌, Text, codes,
  Outcome, returned, threw, ◌==◌, ◌>>=◌, Bool-cases,
}
use marshal_pm.Api.Types.{Agent}
use marshal_pm.Api.Http.{
  Fetch, Request, Response, send, post, object, str, get_request, unauthorized,
}
use marshal_pm.Api.Fleet.{login, get_fleet, read_authorized}
use marshal_pm.Session.{Login, begin_login, end_login, submit_login, fleet_tick}

end_login_lem :
    (m : Outcome Bool) (s : Login)
    → (((end_login m (begin_login s)).1 ≡ true) ↔ (m ≡ returned true))
      × (((end_login m (begin_login s)).0.busy ≡ false) ↔ (m ≡ returned false))
unfolding end_login begin_login
end_login_lem (returned true) s = (((λ h. refl), λ h. refl), ((λ h. cc), λ h. cc))
end_login_lem (returned false) s = (((λ h. cc), λ h. cc), ((λ h. refl), λ h. refl))
end_login_lem (threw e) s = (((λ h. cc), λ h. cc), ((λ h. cc), λ h. cc))

abbrev pub login_request : {N : Type 0} → Text → Request N
login_request pass =
    send post (codes "/api/login")
      (some (object ((codes "User", str (codes "admin")) ∷ (codes "Pass", str pass) ∷ [])))

-- The reply to the request arrived, and its test has this result.
abbrev pub Replied : Outcome (Response (Unit {0})) → Bool → Type 0
Replied m b = (r : Response (Unit {0})) × (m ≡ returned r) × ((r.status == 200) ≡ b)

login_lem :
    (m : Outcome (Response (Unit {0}))) (b : Bool)
    → ((m >>= λ r. returned (r.status == 200)) ≡ returned b) ↔ Replied m b
login_lem (returned r) b = ((λ h. (r, refl, ground arith)), λ (q, e, h). ground arith)
login_lem (threw x) b = ((λ h. cc), λ (q, e, h). cc)

-- A password signs in exactly if the server answers its request with 200, and the form takes another
-- one exactly if the server answers otherwise.
pub submit_login_lem :
    {N : Type 0} (fetch : Fetch N (Unit {0})) (s : Login)
    → (((submit_login fetch s).1 ≡ true) ↔ Replied (fetch (login_request s.pass)) true)
      × (((submit_login fetch s).0.busy ≡ false) ↔ Replied (fetch (login_request s.pass)) false)
unfolding submit_login login
submit_login_lem fetch s =
    let m : Outcome Bool = fetch (login_request s.pass) >>= λ r. returned (r.status == 200) in
    let (a, b) = end_login_lem m s in
    let accepted = login_lem (fetch (login_request s.pass)) true in
    let refused = login_lem (fetch (login_request s.pass)) false in
    (
      ((λ h. accepted.0 (a.0 h)), λ h. a.1 (accepted.1 h)),
      ((λ h. refused.0 (b.0 h)), λ h. b.1 (refused.1 h)),
    )

module _ {N : Type 0} where
  -- Why a poll fails: no reply, a 401, or a body that is no JSON.
  abbrev pub Failed : Outcome (Response (List (Agent N))) → Type 0
  Failed m =
      ((e : Text) × (m ≡ threw e))
      ⊎ ((r : Response (List (Agent N))) × (m ≡ returned r)
          × ((r.status ≡ 401) ⊎ ((e : Text) × (r.json ≡ threw e))))

  tick_failed :
      (m : Outcome (List (Agent N))) (agents : List (Agent N))
      → ((fleet_tick false m agents).1 ≡ true) ↔ ((e : Text) × (m ≡ threw e))
  unfolding fleet_tick
  tick_failed (threw e) agents = ((λ h. (e, refl)), λ h. refl)
  tick_failed (returned f) agents = ((λ h. cc), λ (e, h). cc)

  read_authorized_failed :
      (r : Response (List (Agent N)))
      → ((e : Text) × (read_authorized r ≡ threw e))
        ↔ ((r.status ≡ 401) ⊎ ((e : Text) × (r.json ≡ threw e)))
  read_authorized_failed r = elim (Bool-cases (r.status == 401)) [
    | inl out ↦ ((λ h. inl (ground arith)), λ h. (unauthorized, rw out refl))
    | inr other ↦ rw other ((λ h. inr h), λ c. elim c [ inl q ↦ absurd (ground arith) | inr h ↦ h ])
  ]

  signs_out_lem :
      (m : Outcome (Response (List (Agent N)))) (agents : List (Agent N))
      → ((fleet_tick false (m >>= read_authorized) agents).1 ≡ true) ↔ Failed m
  unfolding fleet_tick
  signs_out_lem (threw e) agents = ((λ h. inl (e, refl)), λ h. refl)
  signs_out_lem (returned r) agents =
      let tick = tick_failed (read_authorized r) agents in
      let read = read_authorized_failed r in
      (
        (λ h. inr (r, refl, read.0 (tick.0 h))),
        λ c. elim c [
          | inl (e, q) ↦ cc
          | inr (s, q, why) ↦
              let same : s ≡ r = cc in
              tick.1 (
                read.1 (
                  subst
                    (λ (x : Response (List (Agent N))).
                      (x.status ≡ 401) ⊎ ((e : Text) × (x.json ≡ threw e)))
                    same why))
        ],
      )

  -- While its page is shown, the poll of the fleet signs out exactly where it fails, be it for a
  -- reply 401, for a body that is no JSON, or because no reply arrived.
  pub fleet_tick-Failed :
      (fetch : Fetch N (List (Agent N))) (agents : List (Agent N))
      → ((fleet_tick false (get_fleet fetch) agents).1 ≡ true)
        ↔ Failed (fetch (get_request (codes "/api/fleet")))
  unfolding get_fleet
  fleet_tick-Failed fetch agents = signs_out_lem (fetch (get_request (codes "/api/fleet"))) agents
