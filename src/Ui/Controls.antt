-- ===== src/Ui/Controls.antt =====
-- web/src/components/Controls.tsx, ConfirmDialog.tsx and ErrorBoundary.tsx: what the small
-- controls show, and what they do when they are activated.
use marshal_pm.Base.{
  Bool, true, false, not, ◌&&◌, ◌||◌, Option, none, some, List, [], ◌∷◌, ◌++◌, Text, codes, text_eq,
  is_blank, trim, map, if◌then◌else◌, join, select,
}

-- `Enter` and the space bar activate a control that is no native button.
unfoldable pub activates : Text → Bool
unfolding text_eq
activates key = text_eq key (codes "Enter") || text_eq key (codes " ")

-- `Segment`: which options are pressed, and the value chosen by a click or a key on an option.
unfoldable pub segment_pressed : {T : Type 0} → (T → T → Bool) → List T → T → List Bool
segment_pressed same options value = map (λ v. same v value) options

unfoldable pub segment_key : {T : Type 0} → T → Text → Option T
unfolding activates
segment_key option key = if activates key then some option else none

-- `Toggle`: the value that it reports.
unfoldable pub toggle_next : Bool → Bool
toggle_next on = not on

unfoldable pub toggle_key : Bool → Text → Option Bool
unfolding activates toggle_next
toggle_key on key = if activates key then some (toggle_next on) else none

-- `Chip`: whether a key clicks it.
unfoldable pub chip_key : Text → Bool
unfolding activates
chip_key key = activates key

-- The note under a `Field`: its error, else its hint.
pub data FieldNote : Type 0 where
  no_note : FieldNote
  hint_note error_note : Text → FieldNote

abbrev truthy : Option Text → Bool
truthy none = false
truthy (some s) = not (is_blank s)

abbrev text_of : Option Text → Text
text_of none = []
text_of (some s) = s

unfoldable pub field_note : (error hint : Option Text) → FieldNote
field_note error hint =
    if truthy error
    then error_note (text_of error)
    else if truthy hint
    then hint_note (text_of hint)
    else no_note

-- `Button`: its class, whether it is disabled, and its title.
unfoldable pub button_class : (variant size class : Option Text) → Text
unfolding join
button_class variant size class = join (codes " ") (
    (codes "btn" ∷ [])
    ++ (select (λ s. not (is_blank s)) (text_of variant ∷ text_of size ∷ text_of class ∷ [])))

unfoldable pub button_disabled : Bool → Option Text → Bool
button_disabled disabled reason = disabled || truthy reason

unfoldable pub button_title : (reason title : Option Text) → Option Text
button_title reason title = if truthy reason then reason else title

-- `PromptDialog`: why its value cannot be confirmed, and what confirming hands on.
unfoldable pub prompt_reason : Text → Option Text
unfolding trim
prompt_reason value = if is_blank (trim value) then some (codes "Enter a value") else none

unfoldable pub prompt_confirm : Text → Option Text
unfolding prompt_reason
prompt_confirm value = if button_disabled false (prompt_reason value) then none else some value

-- `ErrorBoundary`: a rendering error of the children is caught for good.
pub record Boundary : Type 0 where
  pub has_error : Bool
  pub error : Option Text

unfoldable pub derive_state_from_error : Text → Boundary
derive_state_from_error e = record { has_error = true; error = some e }

unfoldable pub boundary_view : {V : Type 0} → Boundary → V → V → V
boundary_view b fallback children = if b.has_error then fallback else children

-- What the controls show. A segment's item: the class, if there is one, the label, and whether it
-- is pressed.
abbrev pub chosen_class : Bool → Option Text
chosen_class selected = if selected then some (codes "on") else none

unfoldable pub segment_view :
    {T : Type 0} → (T → T → Bool) → List (T × Text) → T → List (Option Text × Text × Bool)
segment_view same options value =
    map (λ o. (chosen_class (same o.0 value), o.1, same o.0 value)) options

-- The class of the switch, whether it is checked, and its label and description where one is given.
unfoldable pub toggle_view :
    Bool → (label desc : Option Text) → Text × Bool × Option (Option Text × Option Text)
toggle_view on label desc = (
  codes "tg" ++ (if on then codes " on" else []),
  on,
  if not (truthy label) && not (truthy desc)
      then none
      else some ((if truthy label then label else none), if truthy desc then desc else none),
)

unfoldable pub chip_view : Text → Bool → Text × Text × Bool
chip_view label on = (codes "chip" ++ (if on then codes " on" else []), label, on)

-- The label, whether it is marked as required, and the note below the control.
pub record FieldView : Type 0 where
  pub label : Text
  pub required : Bool
  pub note : FieldNote

unfoldable pub field_view : Text → Bool → (error hint : Option Text) → FieldView
unfolding field_note
field_view label required error hint = record {
  label = label;
  required = required;
  note = field_note error hint;
}

unfoldable pub input_class : Option Text → Text
input_class class = codes "inp" ++ (if truthy class then codes " " ++ text_of class else [])

pub record ButtonView : Type 0 where
  pub class : Text
  pub disabled : Bool
  pub title : Option Text
  pub text : Text

unfoldable pub button_view :
    (variant size class : Option Text) → Bool → (reason title : Option Text) → Text → ButtonView
unfolding button_class button_disabled button_title
button_view variant size class disabled reason title text = record {
  class = button_class variant size class;
  disabled = button_disabled disabled reason;
  title = button_title reason title;
  text = text;
}

-- What `ConfirmDialog` and `PromptDialog` show: the title, the line above the buttons, what is typed
-- below it where there is an input, and the buttons.
pub record DialogView : Type 0 where
  pub title : Text
  pub body : Text
  pub input : Option Text
  pub footer : List ButtonView

abbrev pub cancel_button : ButtonView
cancel_button = button_view (some (codes "ghost")) none none false none none (codes "Cancel")

unfoldable pub confirm_dialog : (title body confirm_label : Text) → Bool → DialogView
unfolding button_view
confirm_dialog title body confirm_label danger = record {
  title = title;
  body = body;
  input = none;
  footer =
      cancel_button
      ∷ button_view (if danger then some (codes "dgr") else none) none none false none none
          confirm_label
      ∷ [];
}

unfoldable pub prompt_dialog : (title label value confirm_label : Text) → DialogView
unfolding button_view prompt_reason
prompt_dialog title label value confirm_label = record {
  title = title;
  body = label;
  input = some value;
  footer =
      cancel_button
      ∷ button_view none none none false (prompt_reason value) none confirm_label
      ∷ [];
}

-- The value that the prompt begins with.
unfoldable pub prompt_initial : Option Text → Text
prompt_initial initial = text_of initial
