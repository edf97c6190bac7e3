-- ===== src/Base/Outcomes.antt =====
-- What a JavaScript computation may do: return a value, or throw an error with its message.
use mathlib.Core.List.{List}
use Prim.Native.Nat.{ℕ}

pub data Outcome {ℓ} (A : Type ℓ) : Type ℓ where
  returned : A → Outcome A
  threw : List ℕ → Outcome A

infixl 5 ◌>>=◌ ◌>>◌
abbrev pub ◌>>=◌ {ℓ κ} : {A : Type ℓ} {B : Type κ} → Outcome A → (A → Outcome B) → Outcome B
returned a >>= f = f a
threw e >>= f = threw e

abbrev pub ◌>>◌ {ℓ} : {B : Type ℓ} → Outcome (Unit {0}) → Outcome B → Outcome B
m >> k = m >>= λ _. k

-- `try { m } catch { h }`, where the handler sees the message.
abbrev pub catch {ℓ} : {A : Type ℓ} → Outcome A → (List ℕ → Outcome A) → Outcome A
catch (returned a) h = returned a
catch (threw e) h = h e
