-- ===== src/LogServer/Labels.antt =====
-- The labels that `Since` of internal/server/logstores.go resolves a name to, and the lines it brings.
use marshal_pm.Base.{
  All-map, zero, suc, All, ℕ, ◌≡◌, refl, ap, sym, ◌∙◌, arith, Bool, true, ◌&&◌, ◌||◌, inl, inr,
  Bool-cases, some, List, [], ◌∷◌, Text, text_eq, text_eq_iff, has, any, select, ltb, is_blank,
  if◌then◌else◌, ◌-◌, take,
}
use marshal_pm.LogStore.{
  StoredLine, StreamFilter, stream_filter_for, on_stream, matches, limited, newest, max_row, since,
}
use marshal_pm.Detail.{belongs}
use marshal_pm.LogServer.{insert_label, labels_of, selects, matched, stores_since, downloaded}

any-insert_label :
    (p : Text → Bool) (l : Text) (ls : List Text) → any p (insert_label l ls) ≡ (p l || any p ls)
unfolding insert_label
any-insert_label p l [] = refl
any-insert_label p l (m ∷ ms) = ground (arith, text_eq_iff l m, any-insert_label p l ms)

any-select : (p q : Text → Bool) (ls : List Text) → any p (select q ls) ≡ any (λ l. q l && p l) ls
any-select p q [] = refl
any-select p q (l ∷ ls) = ground (arith, any-select p q ls)

pub any-labels_of :
    (p : Text → Bool) (table : List StoredLine)
    → any p (labels_of table) ≡ any (λ (r : StoredLine). p r.label) table
unfolding labels_of
any-labels_of p [] = refl
any-labels_of p (r ∷ rs) =
    any-insert_label p r.label (labels_of rs) ∙ ap (p r.label ||◌) (any-labels_of p rs)

pub select-cong :
    {A : Type 0} (p q : A → Bool) (xs : List A)
    → All (λ x. p x ≡ q x) xs
    → select p xs ≡ select q xs
select-cong p q [] h = refl
select-cong p q (x ∷ xs) h = rw (h.0, select-cong p q xs h.1) refl

-- The label of each row of a table is one of the table's labels.
pub own_label :
    (table : List StoredLine)
    → All (λ (r : StoredLine). any (λ (o : StoredLine). text_eq o.label r.label) table ≡ true) table
own_label [] = tt
own_label (r ∷ rs) = (
  ground (arith, text_eq_iff r.label r.label),
  All-map _ (λ (x : StoredLine). any (λ (o : StoredLine). text_eq o.label x.label) (r ∷ rs) ≡ true)
      rs (λ x h. ground (arith, h)) (own_label rs),
)

any_and_label :
    (q : Text → Bool) (x : Text) (table : List StoredLine)
    → any (λ (o : StoredLine). q o.label && text_eq o.label x) table
      ≡ (q x && any (λ (o : StoredLine). text_eq o.label x) table)
any_and_label q x [] = ground arith
any_and_label q x (r ∷ rs) = ground (arith, text_eq_iff r.label x, any_and_label q x rs)

has-matched :
    (selector : Text) (table : List StoredLine) (x : Text)
    → any (λ (o : StoredLine). text_eq o.label x) table ≡ true
    → has x (matched selector table) ≡ selects selector x
unfolding matched has
has-matched selector table x h =
    any-select (λ y. text_eq y x) (selects selector) (labels_of table)
    ∙ any-labels_of (λ l. selects selector l && text_eq l x) table
    ∙ any_and_label (selects selector) x table
    ∙ ground (arith, h)

pub take-nil : (n : ℕ) → take {A = StoredLine} n [] ≡ []
take-nil zero = refl
take-nil (suc n) = refl

-- The server and the browser agree on which labels are a process's.
selects-belongs : (selector l : Text) → selects selector l ≡ belongs selector l
unfolding selects belongs
selects-belongs selector l = refl

module _ (like : (pattern text : Text) → Bool) where
  -- The lines of the name, of the stream, and with the text.
  abbrev pub selected : Text → StreamFilter → Text → StoredLine → Bool
  selected selector filter text r =
      belongs selector r.label && (on_stream filter r.stderr && (is_blank text || like text r.text))

  select-matched :
      (table : List StoredLine) (selector : Text) (filter : StreamFilter) (text : Text)
      → select (matches like (matched selector table) filter text) table
        ≡ select (selected selector filter text) table
  select-matched table selector filter text =
      select-cong (matches like (matched selector table) filter text)
        (selected selector filter text) table
        (All-map _
          (λ (r : StoredLine).
            matches like (matched selector table) filter text r ≡ selected selector filter text r)
          table
          (λ r h.
            ap (λ b. b && (on_stream filter r.stderr && (is_blank text || like text r.text)))
              (has-matched selector table r.label h ∙ selects-belongs selector r.label))
          (own_label table))

  -- The rows of a query, as they are cut off, and the cursor behind them.
  abbrev pub answer : (after limit : ℕ) → List StoredLine → List StoredLine × ℕ
  answer after limit rows =
      let out =
        if ltb 0 after
        then limited limit (select (λ r. ltb after r.row_id) rows)
        else newest limit rows in
      (out, max_row after out)

  select-none :
      (filter : StreamFilter) (text : Text) (table : List StoredLine)
      → select (matches like [] filter text) table ≡ []
  unfolding has
  select-none filter text [] = refl
  select-none filter text (r ∷ rs) = select-none filter text rs

  answer-none : (after limit : ℕ) → answer after limit [] ≡ ([], after)
  unfolding max_row
  answer-none zero limit = elim (Bool-cases (ltb 0 limit)) [
    | inl cut ↦ let e : 0 - limit ≡ 0 = omega arith in rw (cut, e) refl
    | inr all ↦ rw all refl
  ]
  answer-none (suc after) limit =
      let later : ltb 0 (suc after) ≡ true = ground arith in
      elim (Bool-cases (ltb 0 limit)) [
        | inl cut ↦ rw (later, cut, take-nil limit) refl
        | inr all ↦ rw (later, all) refl
      ]

  pub since-answer :
      (table : List StoredLine) (labels : List Text) (after limit : ℕ) (filter : StreamFilter)
      (text : Text)
      → since like table labels after limit filter text
        ≡ answer after limit (select (matches like labels filter text) table)
  unfolding since max_row has
  since-answer table [] after limit filter text =
      sym (ap (answer after limit) (select-none filter text table) ∙ answer-none after limit)
  since-answer table (l ∷ ls) after limit filter text = refl

  -- Resolving a name to labels first changes nothing: the store answers for a name as one query
  -- over the lines whose label is the name, or begins with it and `#`. A download brings every line
  -- that this query finds, however many there are.
  pub stores_since_lem :
      (table : List StoredLine) (selector : Text) (after limit : ℕ) (filter : StreamFilter)
      (stream text : Text)
      → (stores_since like (some table) selector after limit filter text
          ≡ answer after limit (select (selected selector filter text) table))
        × (downloaded like (some table) selector stream text
            ≡ select (selected selector (stream_filter_for stream) text) table)
  unfolding stores_since downloaded
  stores_since_lem table selector after limit filter stream text = (
    since-answer table (matched selector table) after limit filter text
        ∙ ap (answer after limit) (select-matched table selector filter text),
    ap (λ o. o.0) (since-answer table (matched selector table) 0 0 (stream_filter_for stream) text)
        ∙ select-matched table selector (stream_filter_for stream) text,
  )
