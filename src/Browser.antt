-- ===== src/Browser.antt =====
-- web/src/FileBrowser.tsx: the files of a deployed app, and their changes, each a commit.
-- A handler that waits for the server is three functions: what it does first, the call that it
-- makes, and what it does with the outcome. The last sees the variables as they were when the
-- handler was called (`seen`), and sets the state as it is by then.
pub mod Paths
pub mod Commits
pub mod Races
pub mod View
pub mod Crumbs
pub mod Tests
use marshal_pm.Base.{
  ℕ, suc, ◌+◌, Bool, true, false, not, ◌&&◌, ◌||◌, Option, none, some, List, [], ◌∷◌, ◌++◌, Text,
  codes, text_eq, is_blank, or_else, split_on, join, take, ◌==◌, if◌then◌else◌, Outcome, returned,
  threw,
}
use marshal_pm.Api.Types.{DirEntry, DirListing, FileContent, CommitResult}
use marshal_pm.Api.Http.{Fetch}
use marshal_pm.Api.Files.{list_dir, read_file, write_file, create_file, delete_file, rename_file}
use marshal_pm.Ui.Notice.{Notice, success, show, no_notice}

pub data Language : Type 0 where
  typescript json python go plain : Language

abbrev last_part : List Text → Text
last_part [] = []
last_part (w ∷ []) = w
last_part (w ∷ v ∷ ws) = last_part (v ∷ ws)

-- The language of the editor, by what follows the last dot; `to_lower` is `toLowerCase`.
unfoldable pub lang_for : (Text → Text) → Text → Language
unfolding text_eq split_on
lang_for to_lower name =
    let ext = to_lower (last_part (split_on 46 name)) in
    if text_eq ext (codes "ts")
      || text_eq ext (codes "tsx")
      || text_eq ext (codes "js")
      || text_eq ext (codes "jsx")
    then typescript
    else if text_eq ext (codes "json")
    then json
    else if text_eq ext (codes "py")
    then python
    else if text_eq ext (codes "go")
    then go
    else plain

unfoldable pub join_path : Text → Text → Text
join_path [] name = name
join_path (c ∷ dir) name = (c ∷ dir) ++ (codes "/" ++ name)

-- What stands before the last slash.
abbrev keep_before : ℕ → Option Text → Option Text
keep_before c (some t) = some (c ∷ t)
keep_before c none = if c == 47 then some [] else none

unfoldable pub before_last_slash : Text → Option Text
before_last_slash [] = none
before_last_slash (c ∷ s) = keep_before c (before_last_slash s)

unfoldable pub parent_path : Text → Text
unfolding before_last_slash
parent_path p = elim (before_last_slash p) [ none ↦ [] | some dir ↦ dir ]

-- The crumbs of the path, and the path that a click on one of them leads to.
unfoldable pub crumbs : Text → List Text
unfolding split_on
crumbs [] = []
crumbs (c ∷ path) = split_on 47 (c ∷ path)

unfoldable pub crumb_path : Text → ℕ → Text
unfolding crumbs join
crumb_path path i = join (codes "/") (take (suc i) (crumbs path))

pub data Dialog : Type 0 where
  no_dialog new_file : Dialog
  deleting renaming : DirEntry → Dialog

pub record Browser : Type 0 where
  pub path : Text
  pub entries : List DirEntry
  pub open_file : Option FileContent
  pub draft : Text
  pub msg : Text
  pub busy : Bool
  pub err : Option Text
  pub dialog : Dialog
  pub reload : ℕ
  pub notice : Notice

-- `String(e.message || e)`.
abbrev pub err_text : Text → Text
err_text e = or_else e (codes "Error")

-- The effect on the path and on `reload`: the listing; a stale one is dropped.
unfoldable pub load_begin : Browser → Browser
load_begin b = record b { err = none }

unfoldable pub load_done : Bool → Outcome DirListing → Browser → Browser
load_done stop (returned l) b = if stop then b else record b { entries = l.entries }
load_done stop (threw e) b = if stop then b else record b { err = some (err_text e) }

-- A click on an entry: a directory is entered, a file is read.
unfoldable pub entry_begin : DirEntry → Browser → Browser
unfolding join_path
entry_begin e b =
    if e.is_dir
    then record b { open_file = none; path = join_path b.path e.name }
    else record b { err = none }

unfoldable pub entry_done : Outcome FileContent → Browser → Browser
entry_done (returned f) b = record b {
  open_file = some f;
  draft = f.content;
  msg = codes "Update " ++ f.path;
}
entry_done (threw e) b = record b { err = some (err_text e) }

-- The crumbs, the row `../`, the editor and its message.
unfoldable pub go_to : Text → Browser → Browser
go_to path b = record b { open_file = none; path = path }

unfoldable pub go_up : Browser → Browser
unfolding go_to parent_path
go_up b = go_to (parent_path b.path) b

unfoldable pub edit : Text → Browser → Browser
edit text b = record b { draft = text }

unfoldable pub set_msg : Text → Browser → Browser
set_msg text b = record b { msg = text }

unfoldable pub editable : Browser → Bool
editable b = elim b.open_file [ none ↦ false | some f ↦ not f.binary && not f.truncated ]

-- Why the open file cannot be saved, and whether the content changed at all.
unfoldable pub save_reason : Browser → FileContent → Option Text
unfolding text_eq
save_reason b f =
    if b.busy
    then some (codes "Saving…")
    else if text_eq b.draft f.content
    then some (codes "No changes to save")
    else none

unfoldable pub set_dialog : Dialog → Browser → Browser
set_dialog d b = record b { dialog = d }

-- `setBusy(true); setErr(null)`.
unfoldable pub begin_commit : Browser → Browser
begin_commit b = record b { busy = true; err = none }

-- `Pushed ${sha} to ${branch}`, with seven characters of the hash.
abbrev pushed : CommitResult → Text
pushed r = codes "Pushed " ++ (take 7 r.sha ++ (codes " to " ++ r.branch))

-- The end of every commit: a notice, what becomes of the open file, and the listing read anew; or
-- the error. Both end the wait.
unfoldable pub end_commit :
    (Option FileContent → Option FileContent) → Outcome CommitResult → Browser → Browser
unfolding show
end_commit keep (returned r) b = record b {
  notice = show success (pushed r) b.notice;
  open_file = keep b.open_file;
  reload = b.reload + 1;
  busy = false;
}
end_commit keep (threw e) b = record b { err = some (err_text e); busy = false }

-- `if (open?.path === rel) setOpen(null)`, where `open` is the file that the handler saw.
unfoldable pub close_if : Text → Browser → Option FileContent → Option FileContent
unfolding text_eq
close_if rel seen now = elim seen.open_file [
  | none ↦ now
  | some f ↦ if text_eq f.path rel then none else now
]

-- `setOpen({ ...open, content: draft })`, of the file and the draft that the handler saw.
unfoldable pub reopen : FileContent → Browser → Option FileContent → Option FileContent
reopen f seen now = some (record f { content = seen.draft })

-- `!to || to === entry.name`.
unfoldable pub skips_rename : Text → DirEntry → Bool
unfolding text_eq
skips_rename to entry = is_blank to || text_eq to entry.name

module _ {N : Type 0} (fetch : Fetch N CommitResult) (agent app : Text)
    (credential : Option Text) where
  unfoldable pub save_call : FileContent → Browser → Outcome CommitResult
  save_call f seen =
      write_file fetch agent app f.path seen.draft (or_else seen.msg (codes "Update " ++ f.path))
        credential

  -- `onSave`: the state while it waits, the call that it makes if a file is open, and the end, by
  -- the file and the draft that it saw.
  unfoldable pub save_begin : Browser → Browser
  save_begin b = elim b.open_file [ none ↦ b | some f ↦ begin_commit b ]

  unfoldable pub save_request : Browser → Option (Outcome CommitResult)
  unfolding save_call
  save_request seen = elim seen.open_file [ none ↦ none | some f ↦ some (save_call f seen) ]

  unfoldable pub save_end : (seen : Browser) → Outcome CommitResult → Browser → Browser
  unfolding end_commit reopen
  save_end seen m b = elim seen.open_file [ none ↦ b | some f ↦ end_commit (reopen f seen) m b ]

  unfoldable pub on_save : Browser → Browser
  unfolding save_begin save_request save_end
  on_save b = elim (save_request b) [ none ↦ b | some m ↦ save_end b m (save_begin b) ]

  unfoldable pub commit_new_file : Text → Browser → Browser
  commit_new_file name b =
      let rel = join_path b.path name in
      end_commit (λ now. now)
        (create_file fetch agent app rel (codes "") (codes "Create " ++ rel) credential)
        (begin_commit (set_dialog no_dialog b))

  unfoldable pub commit_delete : DirEntry → Browser → Browser
  commit_delete entry b =
      let rel = join_path b.path entry.name in
      end_commit (close_if rel b)
        (delete_file fetch agent app rel (codes "Delete " ++ rel) credential)
        (begin_commit (set_dialog no_dialog b))

  unfoldable pub commit_rename : DirEntry → Text → Browser → Browser
  commit_rename entry to b =
      let from = join_path b.path entry.name in
      let dest = join_path b.path to in
      let message = codes "Rename " ++ (from ++ (codes " → " ++ dest)) in
      if skips_rename to entry
      then set_dialog no_dialog b
      else end_commit (close_if from b) (rename_file fetch agent app from dest message credential)
          (begin_commit (set_dialog no_dialog b))
