-- ===== src/Base/Maps.antt =====
-- A JavaScript object as the list of its keys and values, in the order of the keys; the keys that
-- an object inherits, such as `__proto__`, are left out.
use mathlib.Core.Path.{◌≡◌, refl}
use mathlib.Core.Option.{Option, none, some}
use mathlib.Core.List.{List, [], ◌∷◌}
use native.Mathlib.Omega.{arith}
use marshal_pm.Base.Tests.{if◌then◌else◌}
use marshal_pm.Base.Texts.{Text, text_eq, text_eq_iff}

-- `object[k] = v`: a key that is there keeps its place.
unfoldable pub assign : {V : Type 0} → Text → V → List (Text × V) → List (Text × V)
unfolding text_eq
assign k v [] = (k, v) ∷ []
assign k v ((j, w) ∷ m) = if text_eq j k then (k, v) ∷ m else (j, w) ∷ assign k v m

-- `object[k]`.
unfoldable pub lookup : {V : Type 0} → Text → List (Text × V) → Option V
unfolding text_eq
lookup k [] = none
lookup k ((j, w) ∷ m) = if text_eq j k then some w else lookup k m

pub lookup-assign :
    {V : Type 0} (k j : Text) (v : V) (m : List (Text × V))
    → lookup j (assign k v m) ≡ (if text_eq k j then some v else lookup j m)
unfolding lookup assign
lookup-assign k j v [] = refl
lookup-assign k j v ((i, w) ∷ m) =
    ground (arith, text_eq_iff k j, text_eq_iff i k, text_eq_iff i j, lookup-assign k j v m)
