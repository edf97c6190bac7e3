-- ===== src/Ui/Ledger.antt =====
-- web/src/components/Cluster.tsx, Ledger.tsx and EmptyState.tsx: the figures of a cluster, the rows
-- of a ledger with their buttons, and what stands in the place of rows.
use marshal_pm.Base.{
  ℕ, Bool, Option, none, some, List, [], ◌∷◌, ◌++◌, Text, codes, decimal, get_elem?, if◌then◌else◌,
}

-- The properties of a `Cell`.
pub record Cell : Type 0 where
  pub label : Text
  pub value : Text
  pub unit : Option Text
  pub sub : Option Text
  pub color : Option Text

-- A text that is set and not empty.
abbrev pub filled_in : Option Text → Option Text
filled_in none = none
filled_in (some []) = none
filled_in (some (c ∷ s)) = some (c ∷ s)

abbrev with_space : Option Text → Text
with_space none = []
with_space (some s) = codes " " ++ s

-- What a cell shows: its label, the class of its value, the value, and if they are not empty the
-- unit and the line below.
unfoldable pub cell_view : Cell → Text × Text × Text × Option Text × Option Text
cell_view c = (
  c.label,
  codes "v" ++ with_space (filled_in c.color),
  c.value,
  filled_in c.unit,
  filled_in c.sub,
)

unfoldable pub cluster_class : ℕ → Text
cluster_class cols = codes "cluster c" ++ decimal cols

-- The properties of a `QuickAction`, with what it does.
pub record QuickAction (A : Type 0) : Type 0 where
  pub icon : Text
  pub label : Text
  pub variant : Option Text
  pub on_click : A

unfoldable pub quick_class : {A : Type 0} → QuickAction A → Text
quick_class a = codes "qbtn" ++ with_space (filled_in a.variant)

-- The class of a row: whether it can be clicked, and whether it is dimmed.
unfoldable pub row_class : (clickable dim : Bool) → Text
row_class clickable dim =
    codes "lr" ++ ((if clickable then codes " clk" else []) ++ (if dim then codes " dim" else []))

-- Where a row is clicked: on its button of this number, or elsewhere.
pub data Target : Type 0 where
  row_body : Target
  row_button : ℕ → Target

-- The handlers that run, in their order: a button stops the event before it reaches the row.
pub data Ran (A B : Type 0) : Type 0 where
  ran_action : A → Ran A B
  ran_row : B → Ran A B

abbrev button_handler : {A B : Type 0} → Option (QuickAction A) → List (Ran A B)
button_handler none = []
button_handler (some a) = ran_action a.on_click ∷ []

abbrev row_handler : {A B : Type 0} → Option B → List (Ran A B)
row_handler none = []
row_handler (some b) = ran_row b ∷ []

unfoldable pub click_row :
    {A B : Type 0} → List (QuickAction A) → Option B → Target → List (Ran A B)
click_row actions on_click row_body = row_handler on_click
click_row actions on_click (row_button i) = button_handler (get_elem? actions i)

-- `SectionHeader`: its count is shown if there is one.
pub record SectionHeader : Type 0 where
  pub index : Text
  pub title : Text
  pub glyph : Option Text
  pub count : Option Text

-- `EmptyState`.
pub record EmptyState : Type 0 where
  pub message : Text
  pub action : Option Text
