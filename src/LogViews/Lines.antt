-- ===== src/LogViews/Lines.antt =====
-- Which lines the views of web/src/LiveLogModal.tsx and web/src/LogPanel.tsx show.
use mathlib.Core.Path.{subst}
use marshal_pm.Base.{
  ◌≡◌, refl, arith, sym, ap, Bool, true, false, not, ◌&&◌, ◌||◌, inl, inr, Bool-cases, Option, List,
  [], ◌∷◌, ◌++◌, Text, select, text_eq, if◌then◌else◌,
}
use marshal_pm.Api.Types.{LogLine}
use marshal_pm.LogFilter.{Level, info, warn, error, classify_level, match_filter}
use marshal_pm.LogViews.{all_levels, same_level, has_level, toggled, visible_lines, filtered_lines}

pub same_level→eq : (k l : Level) → same_level k l ≡ true → k ≡ l
same_level→eq info info h = refl
same_level→eq warn warn h = refl
same_level→eq error error h = refl
same_level→eq info warn h = cc
same_level→eq info error h = cc
same_level→eq warn info h = cc
same_level→eq warn error h = cc
same_level→eq error info h = cc
same_level→eq error warn h = cc

same_level_refl : (l : Level) → same_level l l ≡ true
same_level_refl info = refl
same_level_refl warn = refl
same_level_refl error = refl

has_level-append :
    (k : Level) (xs ys : List Level) → has_level k (xs ++ ys) ≡ (has_level k xs || has_level k ys)
has_level-append k [] ys = refl
has_level-append k (x ∷ xs) ys = ground (arith, has_level-append k xs ys)

has_level-removed :
    (k l : Level) (levels : List Level)
    → has_level k (select (λ m. not (same_level m l)) levels)
      ≡ (has_level k levels && not (same_level k l))
has_level-removed k l [] = refl
has_level-removed k l (m ∷ levels) =
    let ih = has_level-removed k l levels in
    elim (Bool-cases (same_level m k)) [
      | inl same ↦
          subst
            (λ x.
              has_level k (select (λ y. not (same_level y l)) (x ∷ levels))
              ≡ (has_level k (x ∷ levels) && not (same_level k l)))
            (sym (same_level→eq m k same)) (ground (arith, ih, same_level_refl k))
      | inr other ↦ ground (arith, ih, other)
    ]

same_level_sym : (k l : Level) → same_level k l ≡ same_level l k
same_level_sym info info = refl
same_level_sym info warn = refl
same_level_sym info error = refl
same_level_sym warn info = refl
same_level_sym warn warn = refl
same_level_sym warn error = refl
same_level_sym error info = refl
same_level_sym error warn = refl
same_level_sym error error = refl

toggled_other :
    (k l : Level) (levels : List Level)
    → same_level k l ≡ false
    → has_level k (toggled l levels) ≡ has_level k levels
unfolding toggled
toggled_other k l levels h =
    ground (
      arith,
      h,
      has_level-removed k l levels,
      has_level-append k levels (l ∷ []),
      same_level_sym k l,
    )

toggled_self :
    (l : Level) (levels : List Level) → has_level l (toggled l levels) ≡ not (has_level l levels)
unfolding toggled
toggled_self l levels =
    ground
      (arith, has_level-removed l l levels, has_level-append l levels (l ∷ []), same_level_refl l)

pub has_level-toggled :
    (k l : Level) (levels : List Level)
    → has_level k (toggled l levels)
      ≡ (if same_level k l then not (has_level k levels) else has_level k levels)
has_level-toggled k l levels = elim (Bool-cases (same_level k l)) [
  | inl same ↦ rw same (
      subst (λ x. has_level x (toggled l levels) ≡ not (has_level x levels))
        (sym (same_level→eq k l same)) (toggled_self l levels))
  | inr other ↦ rw other (toggled_other k l levels other)
]

pub select-ext :
    {A : Type 0} (p q : A → Bool) (xs : List A) → ((x : A) → p x ≡ q x) → select p xs ≡ select q xs
select-ext p q [] h = refl
select-ext p q (x ∷ xs) h = rw (h x, select-ext p q xs h) refl

pub has_all : (l : Level) → has_level l all_levels ≡ true
has_all info = refl
has_all warn = refl
has_all error = refl

module _ (to_lower : Text → Text) (regexp : Text → Option (Text → Bool)) where
  -- A click on a level shows the lines of that level that match exactly if they were hidden, and
  -- leaves the lines of the other levels as they were.
  pub visible_lines-toggled :
      (l : Level) (levels : List Level) (query : Text) (lines : List LogLine)
      → visible_lines to_lower regexp (toggled l levels) query lines
        ≡ select
            (λ line.
              (if same_level (classify_level line) l
                then not (has_level (classify_level line) levels)
                else has_level (classify_level line) levels)
              && match_filter to_lower regexp line.text query)
            lines
  unfolding visible_lines
  visible_lines-toggled l levels query lines = select-ext _ _ lines λ line.
      ap (λ b. b && match_filter to_lower regexp line.text query)
        (has_level-toggled (classify_level line) l levels)

  match_filter_blank : (text : Text) → match_filter to_lower regexp text [] ≡ true
  unfolding match_filter text_eq
  match_filter_blank text = refl

  select_all :
      (p : LogLine → Bool) (lines : List LogLine)
      → ((l : LogLine) → p l ≡ true)
      → select p lines ≡ lines
  select_all p [] h = refl
  select_all p (l ∷ lines) h = rw (h l) (ap (l ∷◌) (select_all p lines h))

  -- The panel shows the lines that the dialog shows for the same filter while all levels are chosen.
  pub filtered_lines-visible_lines :
      (query : Text) (lines : List LogLine)
      → filtered_lines to_lower regexp query lines
        ≡ visible_lines to_lower regexp all_levels query lines
  unfolding filtered_lines visible_lines
  filtered_lines-visible_lines [] lines =
      sym (select_all _ lines λ l. rw (has_all (classify_level l)) (match_filter_blank l.text))
  filtered_lines-visible_lines (c ∷ query) lines =
      select-ext _ _ lines λ l. rw (has_all (classify_level l)) refl
