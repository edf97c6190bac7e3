-- ===== src/LogViews/Scroll.antt =====
-- The end that web/src/LogView.tsx sticks to.
use marshal_pm.Base.{ℕ, ◌+◌, ◌-◌, ◌≡◌, ◌≤◌, refl, ap, ◌∙◌, arith, Bool, true, some, List, [], ◌∷◌}
use marshal_pm.LogViews.{Box, at_bottom, on_scroll, scroll_effect, jump}

-- Of the assignment to `scrollTop`: it is clamped to what can be scrolled, and nothing else changes.
abbrev pub Clamps : (ℕ → Box → Box) → Type 0
Clamps assign_top =
    (top : ℕ) (el : Box)
    → let el' = assign_top top el in
      (el'.scroll_height ≡ el.scroll_height)
      × (el'.client_height ≡ el.client_height)
      × (top + el.client_height ≤ el.scroll_height → el'.scroll_top ≡ top)
      × (el.scroll_height ≤ top + el.client_height
          → el'.scroll_top ≡ el.scroll_height - el.client_height)

-- The lines become higher by so much, the effect runs, and the scroll event that it causes is
-- handled.
unfoldable pub grow : (ℕ → Box → Box) → ℕ → Box × Bool → Box × Bool
unfolding scroll_effect on_scroll
grow assign_top added (el, stick) =
    let el' =
      scroll_effect assign_top stick (record el { scroll_height = el.scroll_height + added }) in
    (el', on_scroll (some el') stick)

unfoldable pub grows : (ℕ → Box → Box) → List ℕ → Box × Bool → Box × Bool
grows assign_top [] w = w
grows assign_top (n ∷ ns) w = grows assign_top ns (grow assign_top n w)

grow-stick :
    (assign_top : ℕ → Box → Box) (n : ℕ) (el : Box)
    → Clamps assign_top
    → (el' : Box) × (grow assign_top n (el, true) ≡ (el', true))
unfolding grow scroll_effect on_scroll
grow-stick assign_top n el h =
    let height = el.scroll_height + n in
    let el' = assign_top height (record el { scroll_height = height }) in
    let (same_height, same_client, inside, clamped) =
      h height (record el { scroll_height = height }) in
    let top : el'.scroll_top ≡ height - el.client_height = clamped (omega arith) in
    let e : at_bottom el' ≡ true = ground (arith, same_height, same_client, top) in
    (el', ap (λ b. (el', b)) e)

grows-stick :
    (assign_top : ℕ → Box → Box) (ns : List ℕ) (el : Box)
    → Clamps assign_top
    → (grows assign_top ns (el, true)).1 ≡ true
unfolding grows
grows-stick assign_top [] el h = refl
grows-stick assign_top (n ∷ ns) el h =
    let (el', e) = grow-stick assign_top n el h in
    ap (λ w. (grows assign_top ns w).1) e ∙ grows-stick assign_top ns el' h

-- A box that sticks to its end does so whatever lines arrive, and one that the button `Jump to
-- latest` moved does as well, since the browser clamps what is assigned to `scrollTop`.
pub grows-jump :
    (assign_top : ℕ → Box → Box) (ns : List ℕ) (el : Box) (stick : Bool)
    → Clamps assign_top
    → (grows assign_top ns (el, jump stick)).1 ≡ true
unfolding jump
grows-jump assign_top ns el stick h = grows-stick assign_top ns el h
