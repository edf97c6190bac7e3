-- ===== src/Api/Http.antt =====
-- Requests and responses of the browser's `fetch`, as far as the calls of api.ts look at them.
use marshal_pm.Base.{
  ℕ, Bool, ◌&&◌, Option, none, some, List, [], ◌∷◌, ◌++◌, Text, codes, decimal, leb, ◌==◌, Outcome,
}

-- The values that `JSON.stringify` is given.
mutual
  pub data Json (N : Type 0) : Type 0 where
    str : Text → Json N
    num : N → Json N
    bool : Bool → Json N
    arr : Items N → Json N
    obj : Fields N → Json N

  pub data Items (N : Type 0) : Type 0 where
    nil : Items N
    cons : Json N → Items N → Items N

  pub data Fields (N : Type 0) : Type 0 where
    end : Fields N
    field : Text → Json N → Fields N → Fields N

pub data Method : Type 0 where
  get post put delete : Method

pub record Request (N : Type 0) : Type 0 where
  pub method : Method
  pub url : Text
  pub body : Option (Json N)

-- A reply. `json` is what `r.json()` gives under the type that the code asserts of it, and
-- `error_field` the member `error` of the same value, which has no such member where it is `none`.
-- `text` is what `r.text()` gives.
pub record Response (A : Type 0) : Type 0 where
  pub status : ℕ
  pub json : Outcome A
  pub error_field : Outcome (Option Text)
  pub text : Outcome Text

-- The server behind `fetch`, which rejects where no reply arrives.
abbrev pub Fetch : Type 0 → Type 0 → Type 0
Fetch N A = Request N → Outcome (Response A)

module _ {N : Type 0} where
  abbrev pub get_request : Text → Request N
  get_request url = record { method = get; url = url; body = none }

  abbrev pub send : Method → Text → Option (Json N) → Request N
  send method url body = record { method = method; url = url; body = body }

  abbrev pub fields : List (Text × Json N) → Fields N
  fields [] = end
  fields ((k, v) ∷ rest) = field k v (fields rest)

  abbrev pub object : List (Text × Json N) → Json N
  object members = obj (fields members)

  -- A member that is left out where its value is `undefined`.
  abbrev pub optional : Text → Option (Json N) → List (Text × Json N) → List (Text × Json N)
  optional k none rest = rest
  optional k (some v) rest = (k, v) ∷ rest

  abbrev pub items : List (Json N) → Items N
  items [] = nil
  items (v ∷ vs) = cons v (items vs)

module _ {A : Type 0} where
  -- `r.ok`.
  abbrev pub is_ok : Response A → Bool
  is_ok r = leb 200 r.status && leb r.status 299

  abbrev pub is_status : ℕ → Response A → Bool
  is_status n r = r.status == n

-- `error ${status}`.
unfoldable pub error_status : ℕ → Text
error_status n = codes "error " ++ decimal n

-- `x ?? d`.
abbrev pub nullish : {A : Type 0} → Option A → A → A
nullish none d = d
nullish (some a) d = a

abbrev pub unauthorized : Text
unauthorized = codes "unauthorized"
