-- ===== src/LogStore/Rows.antt =====
-- Row ids: those of a table ascend, and the largest of some rows is a cursor behind them.
use mathlib.Core.Path.{subst}
use mathlib.Core.List.{append_assoc, append-nil}
use marshal_pm.Base.{
  ℕ, zero, suc, ◌≡◌, ◌≤◌, ◌<◌, refl, sym, ap, ◌∙◌, arith, Bool, inl, inr, Bool-cases, List, [], ◌∷◌,
  ◌++◌, length, length-drop, take, drop, select, ltb, if◌then◌else◌,
}
use marshal_pm.LogStore.{StoredLine, max_row, insert_line, append_lines}

-- The row ids ascend from above `c`.
abbrev pub Above : ℕ → List StoredLine → Type 0
Above c [] = Unit
Above c (r ∷ rs) = (c < r.row_id) × Above r.row_id rs

-- The row ids are positive and at most `c`.
abbrev pub Within : ℕ → List StoredLine → Type 0
Within c [] = Unit
Within c (r ∷ rs) = (0 < r.row_id) × (r.row_id ≤ c) × Within c rs

pub Above-mono : (b c : ℕ) (rs : List StoredLine) → b ≤ c → Above c rs → Above b rs
Above-mono b c [] h a = tt
Above-mono b c (r ∷ rs) h a = (omega (arith, a.0), a.1)

pub Within-mono : (b c : ℕ) (rs : List StoredLine) → b ≤ c → Within b rs → Within c rs
Within-mono b c [] h w = tt
Within-mono b c (r ∷ rs) h w = (w.0, omega (arith, w.1), Within-mono b c rs h w.2)

pub Within-append :
    (c : ℕ) (xs ys : List StoredLine) → Within c xs → Within c ys → Within c (xs ++ ys)
Within-append c [] ys h k = k
Within-append c (x ∷ xs) ys h k = (h.0, h.1, Within-append c xs ys h.2 k)

pub Within-append_right : (c : ℕ) (xs ys : List StoredLine) → Within c (xs ++ ys) → Within c ys
Within-append_right c [] ys h = h
Within-append_right c (x ∷ xs) ys h = Within-append_right c xs ys h.2

pub Within-append_left : (c : ℕ) (xs ys : List StoredLine) → Within c (xs ++ ys) → Within c xs
Within-append_left c [] ys h = tt
Within-append_left c (x ∷ xs) ys h = (h.0, h.1, Within-append_left c xs ys h.2)

pub max_row_ge : (c : ℕ) (rs : List StoredLine) → c ≤ max_row c rs
unfolding max_row
max_row_ge c [] = omega arith
max_row_ge c (r ∷ rs) = ground (arith, max_row_ge (if ltb c r.row_id then r.row_id else c) rs)

pub max_row_above :
    (c : ℕ) (r : StoredLine) (rs : List StoredLine)
    → c < r.row_id
    → max_row c (r ∷ rs) ≡ max_row r.row_id rs
unfolding max_row
max_row_above c r rs h = ground arith

pub max_row-Within : (c : ℕ) (rs : List StoredLine) → Above c rs → Within (max_row c rs) rs
max_row-Within c [] a = tt
max_row-Within c (r ∷ rs) a =
    subst (λ m. Within m (r ∷ rs)) (sym (max_row_above c r rs a.0))
      (omega (arith, a.0), max_row_ge r.row_id rs, max_row-Within r.row_id rs a.1)

-- The rows that are left lie above the cursor of those that were taken.
pub Above-drop :
    (n c : ℕ) (rs : List StoredLine) → Above c rs → Above (max_row c (take n rs)) (drop n rs)
unfolding max_row
Above-drop zero c rs a = a
Above-drop (suc n) c [] a = tt
Above-drop (suc n) c (r ∷ rs) a =
    rw (max_row_above c r (take n rs) a.0) (Above-drop n r.row_id rs a.1)

pub Above-take : (n c : ℕ) (rs : List StoredLine) → Above c rs → Above c (take n rs)
Above-take zero c rs a = tt
Above-take (suc n) c [] a = tt
Above-take (suc n) c (r ∷ rs) a = (a.0, Above-take n r.row_id rs a.1)

pub Above-drop_any : (n c : ℕ) (rs : List StoredLine) → Above c rs → Above c (drop n rs)
Above-drop_any zero c rs a = a
Above-drop_any (suc n) c [] a = tt
Above-drop_any (suc n) c (r ∷ rs) a =
    Above-drop_any n c rs (Above-mono c r.row_id rs (omega (arith, a.0)) a.1)

max_row_raise :
    (b c : ℕ) (rs : List StoredLine)
    → b ≤ c
    → Above c rs
    → 0 < length rs
    → max_row b rs ≡ max_row c rs
max_row_raise b c [] h a l = absurd (omega arith)
max_row_raise b c (r ∷ rs) h a l =
    max_row_above b r rs (omega (arith, a.0)) ∙ sym (max_row_above c r rs a.0)

-- Of ascending rows the last have the largest id.
pub max_row-drop :
    (n c : ℕ) (rs : List StoredLine)
    → Above c rs
    → n < length rs
    → max_row c (drop n rs) ≡ max_row c rs
max_row-drop zero c rs a h = refl
max_row-drop (suc n) c [] a h = absurd (omega arith)
max_row-drop (suc n) c (r ∷ rs) a h =
    max_row_raise c r.row_id (drop n rs) (omega (arith, a.0)) (Above-drop_any n r.row_id rs a.1)
      (omega (arith, length-drop n rs))
    ∙ max_row-drop n r.row_id rs a.1 (omega arith)
    ∙ sym (max_row_above c r rs a.0)

pub Above-append :
    (c m : ℕ) (xs ys : List StoredLine)
    → Above c xs
    → Within m xs
    → c ≤ m
    → Above m ys
    → Above c (xs ++ ys)
Above-append c m [] ys a w h b = Above-mono c m ys h b
Above-append c m (x ∷ xs) ys a w h b = (a.0, Above-append x.row_id m xs ys a.1 w.2 w.1 b)

-- A selection of ascending rows ascends, within the same bounds.
pub Above-select :
    (p : StoredLine → Bool) (c : ℕ) (rs : List StoredLine) → Above c rs → Above c (select p rs)
Above-select p c [] a = tt
Above-select p c (r ∷ rs) a = elim (Bool-cases (p r)) [
  | inl kept ↦ rw kept (a.0, Above-select p r.row_id rs a.1)
  | inr left ↦
      rw left (Above-mono c r.row_id _ (omega (arith, a.0)) (Above-select p r.row_id rs a.1))
]

pub Within-select :
    (p : StoredLine → Bool) (c : ℕ) (rs : List StoredLine) → Within c rs → Within c (select p rs)
Within-select p c [] w = tt
Within-select p c (r ∷ rs) w = elim (Bool-cases (p r)) [
  | inl kept ↦ rw kept (w.0, w.1, Within-select p c rs w.2)
  | inr left ↦ rw left (Within-select p c rs w.2)
]

pub select-append :
    (p : StoredLine → Bool) (xs ys : List StoredLine)
    → select p (xs ++ ys) ≡ select p xs ++ select p ys
select-append p [] ys = refl
select-append p (x ∷ xs) ys = ground (arith, select-append p xs ys)

-- Rows within a cursor are not newer than it, and rows above it all are.
pub select-Within :
    (c : ℕ) (rs : List StoredLine) → Within c rs → select (λ r. ltb c r.row_id) rs ≡ []
select-Within c [] w = refl
select-Within c (r ∷ rs) w = ground (arith, select-Within c rs w.2)

pub select-Above :
    (c : ℕ) (rs : List StoredLine) → Above c rs → select (λ r. ltb c r.row_id) rs ≡ rs
select-Above c [] a = refl
select-Above c (r ∷ rs) a =
    ground (arith, a.0, select-Above c rs (Above-mono c r.row_id rs (omega (arith, a.0)) a.1))

max_row-append :
    (c : ℕ) (xs ys : List StoredLine) → max_row c (xs ++ ys) ≡ max_row (max_row c xs) ys
unfolding max_row
max_row-append c [] ys = refl
max_row-append c (x ∷ xs) ys = max_row-append (if ltb c x.row_id then x.row_id else c) xs ys

max_row-insert_line :
    (table : List StoredLine) (line : StoredLine)
    → max_row 0 (insert_line table line) ≡ suc (max_row 0 table)
unfolding insert_line
max_row-insert_line table line =
    max_row-append 0 table _
    ∙ max_row_above (max_row 0 table) (record line { row_id = suc (max_row 0 table) }) []
        (omega arith)

-- Lines with the row ids from `k` on.
unfoldable pub numbered : ℕ → List StoredLine → List StoredLine
numbered k [] = []
numbered k (line ∷ lines) = (record line { row_id = k }) ∷ numbered (suc k) lines

pub numbered-Above : (k : ℕ) (lines : List StoredLine) → Above k (numbered (suc k) lines)
unfolding numbered
numbered-Above k [] = tt
numbered-Above k (line ∷ lines) = (omega arith, numbered-Above (suc k) lines)

insert_line-append :
    (table added : List StoredLine) (line : StoredLine)
    → insert_line table line ++ added
      ≡ table ++ (record line { row_id = suc (max_row 0 table) }) ∷ added
unfolding insert_line
insert_line-append table added line = append_assoc table _ added

-- What is appended gets the row ids behind those of the table.
pub append_lines-numbered :
    (table lines : List StoredLine)
    → append_lines table lines ≡ table ++ numbered (suc (max_row 0 table)) lines
unfolding append_lines numbered
append_lines-numbered table [] = sym (append-nil table)
append_lines-numbered table (line ∷ lines) =
    append_lines-numbered (insert_line table line) lines
    ∙ ap (λ m. insert_line table line ++ numbered (suc m) lines) (max_row-insert_line table line)
    ∙ insert_line-append table _ line

-- A table whose row ids ascend still has them after an insertion.
pub append_lines-Above :
    (table lines : List StoredLine) → Above 0 table → Above 0 (append_lines table lines)
append_lines-Above table lines a = subst (Above 0) (sym (append_lines-numbered table lines)) (
    Above-append 0 (max_row 0 table) table _ a (max_row-Within 0 table a) (omega arith)
      (numbered-Above (max_row 0 table) lines))

pub max_row-append_lines :
    (table lines : List StoredLine) → max_row 0 table ≤ max_row 0 (append_lines table lines)
max_row-append_lines table lines =
    rw (append_lines-numbered table lines, max_row-append 0 table) (max_row_ge (max_row 0 table) _)

pub Above-newer :
    (b c : ℕ) (rs : List StoredLine) → Above b rs → Above c (select (λ r. ltb c r.row_id) rs)
Above-newer b c [] a = tt
Above-newer b c (r ∷ rs) a = elim (Bool-cases (ltb c r.row_id)) [
  | inl newer ↦ rw newer (ground (arith, newer), Above-select (λ x. ltb c x.row_id) r.row_id rs a.1)
  | inr older ↦ rw older (Above-newer r.row_id c rs a.1)
]

pub max_row-Within_le : (c m : ℕ) (rs : List StoredLine) → c ≤ m → Within m rs → max_row c rs ≤ m
unfolding max_row
max_row-Within_le c m [] h w = h
max_row-Within_le c m (r ∷ rs) h w =
    max_row-Within_le (if ltb c r.row_id then r.row_id else c) m rs (ground (arith, h, w.1)) w.2
