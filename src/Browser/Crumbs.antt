-- ===== src/Browser/Crumbs.antt =====
-- Where the crumbs of web/src/FileBrowser.tsx lead, and the row `../`.
use mathlib.Core.List.{append_assoc}
use marshal_pm.Base.{
  ℕ, zero, suc, ◌-◌, ◌<◌, ◌≡◌, refl, sym, ap, ◌∙◌, arith, List, [], ◌∷◌, ◌++◌, Text, All, Lacks,
  length, take, codes, join, split_on-All, join-split_on,
}
use marshal_pm.Browser.{parent_path, crumbs, crumb_path}
use marshal_pm.Browser.Paths.{before_last_slash-Lacks, before_last_slash-append}

-- One part more puts the separator and that part behind.
join-take :
    (i : ℕ) (ws : List Text)
    → All (Lacks 47) ws
    → suc i < length ws
    → (w : Text) × Lacks 47 w
      × (join (codes "/") (take (suc (suc i)) ws) ≡ join (codes "/") (take (suc i) ws) ++ (47 ∷ w))
unfolding join
join-take i [] h l = absurd (omega arith)
join-take i (w ∷ []) h l = absurd (omega arith)
join-take zero (w ∷ v ∷ ws) h l = (v, h.1.0, refl)
join-take (suc i) (w ∷ v ∷ ws) h l =
    let (x, lacks, e) = join-take i (v ∷ ws) h.1 (omega arith) in
    (
      x,
      lacks,
      ap (λ t. w ++ (47 ∷ t)) e
          ∙ sym (append_assoc w (47 ∷ join (codes "/") (v ∷ take i ws)) (47 ∷ x)),
    )

-- The parent of the first part alone is the root.
parent_path-first :
    (ws : List Text) → All (Lacks 47) ws → parent_path (join (codes "/") (take 1 ws)) ≡ []
unfolding join parent_path
parent_path-first [] h = refl
parent_path-first (w ∷ ws) h = rw (before_last_slash-Lacks w h.0, parent_path) refl

take-all : (ws : List Text) → take (length ws) ws ≡ ws
take-all [] = refl
take-all (w ∷ ws) = ap (w ∷◌) (take-all ws)

crumbs-All : (path : Text) → All (Lacks 47) (crumbs path)
unfolding crumbs
crumbs-All [] = tt
crumbs-All (c ∷ path) = split_on-All 47 (c ∷ path)

join-crumbs : (path : Text) → join (codes "/") (crumbs path) ≡ path
unfolding crumbs join
join-crumbs [] = refl
join-crumbs (c ∷ path) = join-split_on 47 (c ∷ path)

parent_path-behind : (dir name : Text) → Lacks 47 name → parent_path (dir ++ (47 ∷ name)) ≡ dir
unfolding parent_path
parent_path-behind dir name h = rw (before_last_slash-append dir name h, parent_path) refl

-- The crumbs of a path that has at least two: the parent of where the first leads is the root, the
-- parent of where any other leads is where the one before it leads, and the last leads to the path.
pub crumbs_climb :
    (path : Text) (i : ℕ)
    → suc i < length (crumbs path)
    → (parent_path (crumb_path path 0) ≡ [])
      × (parent_path (crumb_path path (suc i)) ≡ crumb_path path i)
      × (crumb_path path (length (crumbs path) - 1) ≡ path)
unfolding crumb_path
crumbs_climb path i l =
    let (x, lacks, e) = join-take i (crumbs path) (crumbs-All path) l in
    let last : suc (length (crumbs path) - 1) ≡ length (crumbs path) = omega (arith, l) in
    (
      parent_path-first (crumbs path) (crumbs-All path),
      ap parent_path e ∙ parent_path-behind (join (codes "/") (take (suc i) (crumbs path))) x lacks,
      ap (λ n. join (codes "/") (take n (crumbs path))) last
          ∙ ap (join (codes "/")) (take-all (crumbs path))
          ∙ join-crumbs path,
    )
