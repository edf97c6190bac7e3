-- ===== src/AddApp/Env.antt =====
-- The environment and the arguments that a form submits.
use marshal_pm.Base.{
  assign, lookup, lookup-assign, ℕ, ◌≡◌, refl, ap, ◌∙◌, inl, inr, arith, false, not, ◌&&◌, Option,
  none, some, List, [], ◌∷◌, Text, text_eq, All, Bool-cases, is_blank, is_space, trim, trim_start,
  trim_end, map, select, if◌then◌else◌,
}
use marshal_pm.AddApp.{EnvRow, filled, env_from, env_map, split_spaces, push_word, arg_list}

-- The value of the last row with this name, if a row has it; names are trimmed, and a row without
-- a name counts for nothing.
abbrev pub last_value : Text → Option Text → List EnvRow → Option Text
last_value k found [] = found
last_value k found (row ∷ rows) =
    last_value k (if filled row.key && text_eq (trim row.key) k then some row.value else found) rows

lookup-env_from :
    (k : Text) (m : List (Text × Text)) (rows : List EnvRow)
    → lookup k (env_from m rows) ≡ last_value k (lookup k m) rows
unfolding env_from
lookup-env_from k m [] = refl
lookup-env_from k m (row ∷ rows) = elim (Bool-cases (filled row.key)) [
  | inl e ↦ rw e (
      lookup-env_from k (assign (trim row.key) row.value m) rows
      ∙ ap (λ o. last_value k o rows) (lookup-assign (trim row.key) k row.value m))
  | inr e ↦ rw e (lookup-env_from k m rows)
]

-- The environment gives a variable the value of the last row with its name, and has no other.
pub lookup-env_map :
    (k : Text) (rows : List EnvRow) → lookup k (env_map rows) ≡ last_value k none rows
unfolding env_map lookup
lookup-env_map k rows = lookup-env_from k [] rows

-- A word: not empty, and without white space.
abbrev pub IsWord : Text → Type 0
IsWord w = (is_blank w ≡ false) × All (λ c. is_space c ≡ false) w

abbrev NoSpace : Text → Type 0
NoSpace w = All (λ c. is_space c ≡ false) w

split_spaces-NoSpace : (s : Text) → All NoSpace (split_spaces s)
unfolding split_spaces
split_spaces-NoSpace [] = (tt, tt)
split_spaces-NoSpace (c ∷ s) = elim (Bool-cases (is_space c)) [
  | inl e ↦ rw e (tt, split_spaces-NoSpace s)
  | inr e ↦ rw e (push_word-NoSpace c (split_spaces s) e (split_spaces-NoSpace s))
]
  where
    push_word-NoSpace :
        (c : ℕ) (ws : List Text)
        → is_space c ≡ false
        → All NoSpace ws
        → All NoSpace (push_word c ws)
    push_word-NoSpace c [] e h = ((e, tt), tt)
    push_word-NoSpace c (w ∷ ws) e h = ((e, h.0), h.1)

trim_start-NoSpace : (w : Text) → NoSpace w → trim_start w ≡ w
unfolding trim_start
trim_start-NoSpace [] h = refl
trim_start-NoSpace (c ∷ w) h = rw (h.0, trim_start)

trim_end-NoSpace : (w : Text) → NoSpace w → trim_end w ≡ w
unfolding trim_end
trim_end-NoSpace [] h = refl
trim_end-NoSpace (c ∷ w) h = rw (h.0, trim_end) (ap (c ∷◌) (trim_end-NoSpace w h.1))

trim-NoSpace : (w : Text) → NoSpace w → trim w ≡ w
unfolding trim
trim-NoSpace w h = ap trim_end (trim_start-NoSpace w h) ∙ trim_end-NoSpace w h

select-IsWord :
    (ws : List Text) → All NoSpace ws → All IsWord (select (λ w. not (is_blank w)) (map trim ws))
select-IsWord [] h = tt
select-IsWord (w ∷ ws) h = rw (trim-NoSpace w h.0) (ground (arith, select-IsWord ws h.1))

-- The arguments are words: none is empty, and none holds white space.
pub arg_list-IsWord : (args : Text) → All IsWord (arg_list args)
unfolding arg_list
arg_list-IsWord args = select-IsWord (split_spaces args) (split_spaces-NoSpace args)
