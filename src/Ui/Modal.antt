-- ===== src/Ui/Modal.antt =====
-- web/src/components/Modal.tsx: what a key does while a dialog is open. Elements are numbers; the
-- list holds those of the dialog that can take the focus and are visible, in document order.
pub mod Focus
use marshal_pm.Base.{
  ℕ, Bool, true, false, Option, none, some, List, [], ◌∷◌, Text, codes, text_eq, ◌==◌,
  if◌then◌else◌,
}

-- `passed` leaves the key to the browser; the other two are handled, `moved` by a new focus.
pub data KeyEffect : Type 0 where
  closed passed prevented : KeyEffect
  moved : ℕ → KeyEffect

abbrev pub last_of : ℕ → List ℕ → ℕ
last_of x [] = x
last_of x (y ∷ ys) = last_of y ys

-- The key Tab, by whether Shift is held.
unfoldable pub on_tab : Bool → List ℕ → ℕ → KeyEffect
on_tab shift [] active = prevented
on_tab true (first ∷ rest) active = if active == first then moved (last_of first rest) else passed
on_tab false (first ∷ rest) active = if active == last_of first rest then moved first else passed

unfoldable pub on_key : Text → Bool → List ℕ → ℕ → KeyEffect
unfolding on_tab text_eq
on_key key shift focusable active =
    if text_eq key (codes "Escape")
    then closed
    else if text_eq key (codes "Tab")
    then on_tab shift focusable active
    else passed

-- A click on the backdrop closes the dialog; one inside it does not.
unfoldable pub closes_on_click : (target current_target : ℕ) → Bool
closes_on_click target current = target == current

-- The element that takes the focus when the dialog opens, and the one when it closes.
unfoldable pub opening_focus : List ℕ → ℕ → ℕ
opening_focus [] active = active
opening_focus (first ∷ rest) active = first

unfoldable pub closing_focus : Option ℕ → ℕ → ℕ
closing_focus none active = active
closing_focus (some previous) active = previous
