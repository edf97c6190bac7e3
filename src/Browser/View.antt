-- ===== src/Browser/View.antt =====
-- What web/src/FileBrowser.tsx shows: the crumbs, the list of a directory, the open file with its
-- editor, and the dialogs. The link to a file is an outcome, since its address may fail to be encoded.
use marshal_pm.Base.{
  ℕ, suc, Bool, true, false, not, Option, none, some, List, [], ◌∷◌, ◌++◌, Text, codes, text_eq,
  is_blank, map, decimal, if◌then◌else◌, Outcome,
}
use marshal_pm.Api.Types.{DirEntry, FileContent}
use marshal_pm.Api.Files.{file_download_url}
use marshal_pm.Browser.{
  Browser, Dialog, no_dialog, new_file, deleting, renaming, Language, lang_for, join_path, crumbs,
  crumb_path, editable, save_reason,
}
use marshal_pm.Ui.Controls.{
  ButtonView, button_view, DialogView, confirm_dialog, prompt_dialog, prompt_initial,
}

-- The links of the crumbs: the text, and the path that a click leads to; the first names the app.
links_from : Text → ℕ → List Text → List (Text × Text)
links_from path i [] = []
links_from path i (c ∷ cs) = (c, crumb_path path i) ∷ links_from path (suc i) cs

unfoldable pub crumb_links : Text → Text → List (Text × Text)
unfolding links_from
crumb_links app path = (app, []) ∷ links_from path 0 (crumbs path)

-- The row of an entry: its class, its mark, the class of its name, its name, its size, and the
-- buttons to rename and to delete it, which are disabled together.
pub record EntryRow : Type 0 where
  pub class : Text
  pub mark : Text
  pub name_class : Text
  pub name : Text
  pub size : Option Text
  pub buttons : List (Text × Bool)

-- `open?.path === joinPath(path, e.name)`.
abbrev is_open : Option FileContent → Text → Bool
is_open none rel = false
is_open (some f) rel = text_eq f.path rel

unfoldable pub is_selected : Browser → DirEntry → Bool
unfolding text_eq
is_selected b e = is_open b.open_file (join_path b.path e.name)

unfoldable pub entry_row : Browser → DirEntry → EntryRow
unfolding is_selected decimal
entry_row b e = record {
  class = codes "fbrow" ++ (if is_selected b e then codes " sel" else []);
  mark = if e.is_dir then codes "📁" else codes "📄";
  name_class = codes "nm2" ++ (if e.is_dir then codes " sky" else []);
  name = e.name;
  size = if e.is_dir then none else some (decimal e.size ++ codes " B");
  buttons = (codes "rename", b.busy) ∷ (if e.is_dir then [] else (codes "delete", b.busy) ∷ []);
}

-- The list: whether the row `../` is above it, and its rows.
unfoldable pub list_view : Browser → Bool × List EntryRow
unfolding entry_row
list_view b = (not (is_blank b.path), map (entry_row b) b.entries)

-- The editor: its text, whether it can be edited, and its language.
pub record Editor : Type 0 where
  pub value : Text
  pub can_edit : Bool
  pub language : Language

-- The row below an editor that can be edited: the message, and the button that saves.
pub record SaveRow : Type 0 where
  pub msg : Text
  pub button : ButtonView

-- What stands beside the list: nothing is open; a binary file, with its link; or a text, with the
-- note and the link where only its beginning is shown.
pub data Pane : Type 0 where
  nothing_open : Text → Pane
  binary_file : Text → Outcome Text → Pane
  text_file : Option (Text × Outcome Text) → Editor → Option SaveRow → Pane

abbrev pub save_row : Browser → FileContent → SaveRow
save_row b f = record {
  msg = b.msg;
  button = button_view none none none false (save_reason b f) none (codes "save & push");
}

module _ (agent app : Text) (to_lower : Text → Text) where
  unfoldable pub file_pane : Browser → FileContent → Pane
  unfolding decimal button_view save_reason
  file_pane b f =
      if f.binary
      then binary_file (codes "Binary file (" ++ (decimal f.size ++ codes " B). "))
          (file_download_url agent app f.path)
      else text_file
          (if f.truncated
            then some (
              codes "Showing first 1 MiB of "
                  ++ (decimal f.size ++ codes " B — too large to edit. "),
              file_download_url agent app f.path,
            )
            else none)
          (record {
            value = if editable b then b.draft else f.content;
            can_edit = editable b;
            language = lang_for to_lower f.path;
          })
          (if editable b then some (save_row b f) else none)

  unfoldable pub pane : Browser → Pane
  unfolding file_pane
  pane b = elim b.open_file [
    | none ↦ nothing_open (codes "Select a file to view or edit.")
    | some f ↦ file_pane b f
  ]

-- The dialog that is open; `value` is what is typed in it.
abbrev pub dialog_for : Dialog → Text → Text → Option DialogView
dialog_for no_dialog path value = none
dialog_for (deleting entry) path value = some (
    confirm_dialog (codes "Delete file")
      (codes "Delete "
        ++ (join_path path entry.name ++ codes "? This commits and pushes the deletion."))
      (codes "Delete") true)
dialog_for (renaming entry) path value =
    some (prompt_dialog (codes "Rename file") (codes "Rename to") value (codes "Rename"))
dialog_for new_file path value = some (
    prompt_dialog (codes "New file") (codes "New file path (relative to current folder)") value
      (codes "Create"))

unfoldable pub dialog_view : Browser → Text → Option DialogView
unfolding confirm_dialog prompt_dialog
dialog_view b value = dialog_for b.dialog b.path value

-- What is typed in a dialog when it opens.
unfoldable pub dialog_initial : Dialog → Text
unfolding prompt_initial
dialog_initial no_dialog = prompt_initial none
dialog_initial new_file = prompt_initial none
dialog_initial (deleting entry) = prompt_initial none
dialog_initial (renaming entry) = prompt_initial (some entry.name)
