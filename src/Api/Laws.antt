-- ===== src/Api/Laws.antt =====
-- When the calls of api.ts reject.
use marshal_pm.Base.{
  ℕ, Option, ◌≡◌, ◌↔◌, ◌⊎◌, inl, inr, refl, arith, true, false, Bool-cases, Text, codes, Outcome,
  returned, threw, ◌∷◌, [], some, ◌>>=◌, catch, ◌==◌,
}
use marshal_pm.Api.Types.{ControlResult}
use marshal_pm.Api.Http.{
  str, post, nullish, error_status, Request, Response, Fetch, send, object, is_ok, unauthorized,
}
use marshal_pm.Api.Apps.{Action, action_name, control, read_result, failed}
use marshal_pm.Api.Files.{read_file_reply}

error_result :
    (n : ℕ) (o : Outcome (Option Text))
    → (res : ControlResult) × (catch
          (o >>= λ e. returned (failed (nullish e (error_status n))))
          (λ _. returned (failed (error_status n)))
        ≡ returned res)
      × (res.ok ≡ false)
error_result n (returned e) = (failed (nullish e (error_status n)), refl, refl)
error_result n (threw e) = (failed (error_status n), refl, refl)

read_result_refused :
    (r : Response ControlResult)
    → (r.status == 200) ≡ false
    → (res : ControlResult) × (read_result r ≡ returned res) × (res.ok ≡ false)
unfolding read_result
read_result_refused r h = rw h (error_result r.status r.error_field)

read_result_threw :
    (r : Response ControlResult)
    → ((e : Text) × (read_result r ≡ threw e))
      ↔ ((r.status ≡ 200) × ((e : Text) × (r.json ≡ threw e)))
unfolding read_result
read_result_threw r = (
  λ (e, h). elim (Bool-cases (r.status == 200)) [
    | inl ok ↦ (ground arith, (e, ground arith))
    | inr other ↦ let (res, q, f) = read_result_refused r other in absurd (ground (arith, h, q))
  ],
  λ (s, (e, h)). (e, ground arith),
)

module _ {A B : Type 0} (k : A → Outcome B) where
  bind_threw_from :
      (m : Outcome A)
      → ((e : Text) × ((m >>= k) ≡ threw e))
      → ((e : Text) × (m ≡ threw e)) ⊎ ((a : A) × (m ≡ returned a) × ((e : Text) × (k a ≡ threw e)))
  bind_threw_from (returned a) (e, h) = inr (a, refl, (e, h))
  bind_threw_from (threw e) h = inl (e, refl)

  bind_threw_to :
      (m : Outcome A)
      → ((e : Text) × (m ≡ threw e)) ⊎ ((a : A) × (m ≡ returned a) × ((e : Text) × (k a ≡ threw e)))
      → (e : Text) × ((m >>= k) ≡ threw e)
  bind_threw_to m (inl (e, h)) = (e, ground arith)
  bind_threw_to m (inr (a, h, (e, q))) = (e, rw h q)

-- A file call has a result exactly where the reply's status is between 200 and 299 and its JSON is
-- that result; a 401 always rejects as `unauthorized`.
pub read_file_reply_iff :
    {A : Type 0} (what : Text) (r : Response A) (a : A)
    → ((read_file_reply what r ≡ returned a) ↔ ((is_ok r ≡ true) × (r.json ≡ returned a)))
      × (r.status ≡ 401 → read_file_reply what r ≡ threw unauthorized)
unfolding read_file_reply
read_file_reply_iff what r a =
    (((λ h. (ground arith, ground arith)), λ h. ground arith), λ h. ground arith)

module _ {N : Type 0} where
  abbrev pub control_request : (agent selector : Text) → Action → Request N
  control_request agent selector action = send post (codes "/api/control") (
      some (
        object (
          (codes "agent", str agent)
          ∷ (codes "selector", str selector)
          ∷ (codes "action", str (action_name action))
          ∷ [])))

  -- `control` rejects exactly where `fetch` rejects or a 200 has a body that is no JSON; a reply
  -- with another status is never lost but becomes a result that is not `ok`.
  pub control_threw :
      (fetch : Fetch N ControlResult) (agent selector : Text) (action : Action)
      → (((e : Text) × (control fetch agent selector action ≡ threw e)) ↔ (
          ((e : Text) × (fetch (control_request agent selector action) ≡ threw e))
          ⊎ ((r : Response ControlResult) × (fetch (control_request agent selector action)
                ≡ returned r)
              × (r.status ≡ 200)
              × (e : Text) × (r.json ≡ threw e))))
        × ((r : Response ControlResult)
            → fetch (control_request agent selector action) ≡ returned r
            → (r.status == 200) ≡ false
            → (res : ControlResult) × (control fetch agent selector action ≡ returned res)
              × (res.ok ≡ false))
  unfolding control
  control_threw fetch agent selector action =
      let request : Request N = control_request agent selector action in
      (
        (
          (λ h. elim (bind_threw_from read_result (fetch request) h) [
            | inl a ↦ inl a
            | inr (r, q, w) ↦ let (s, (e, j)) = (read_result_threw r).0 w in inr (r, q, s, e, j)
          ]),
          λ h. elim h [
            | inl a ↦ bind_threw_to read_result (fetch request) (inl a)
            | inr (r, q, s, e, j) ↦
                bind_threw_to read_result (fetch request)
                  (inr (r, q, (read_result_threw r).1 (s, (e, j))))
          ],
        ),
        λ r q o. rw q (read_result_refused r o),
      )
