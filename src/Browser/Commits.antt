-- ===== src/Browser/Commits.antt =====
-- What every commit leaves behind.
use mathlib.Core.Path.{subst}
use marshal_pm.Base.{
  or_else, take, text_eq, if◌then◌else◌, sym, ap, ◌∙◌, ◌+◌, ◌≡◌, ◌↔◌, refl, arith, false, Option,
  none, some, [], ◌++◌, Text, codes, text_eq_iff, Outcome, returned, threw,
}
use marshal_pm.Api.Types.{DirEntry, FileContent, CommitResult}
use marshal_pm.Api.Http.{Fetch}
use marshal_pm.Api.Files.{write_file, create_file, delete_file, rename_file}
use marshal_pm.Ui.Notice.{Notice, Status, success, show}
use marshal_pm.Browser.{
  Dialog, save_begin, save_request, save_end, Browser, no_dialog, join_path, begin_commit,
  end_commit, set_dialog, close_if, reopen, skips_rename, err_text, on_save, save_call,
  commit_new_file, commit_delete, commit_rename,
}

-- The notice of a commit that was pushed.
abbrev pub IsPushed : CommitResult → Option Status → Type 0
IsPushed r status =
    status
    ≡ some (record {
      kind = success;
      text = codes "Pushed " ++ (take 7 r.sha ++ (codes " to " ++ r.branch));
    })

-- The state after a commit that closes or keeps the dialog and, if it succeeds, leaves this file
-- open: not busy; the directory, its listing, the draft and the message as they were; and by the
-- outcome a notice, a listing that is to be read anew and no error, or the error, with the listing,
-- the open file and the notice as they were.
abbrev pub Ended : Dialog → Option FileContent → Outcome CommitResult → Browser → Browser → Type 0
Ended d kept (returned r) b b' =
    (b'.busy ≡ false)
    × (b'.path ≡ b.path)
    × (b'.draft ≡ b.draft)
    × (b'.msg ≡ b.msg)
    × (b'.entries ≡ b.entries)
    × (b'.dialog ≡ d)
    × (b'.err ≡ none)
    × (b'.reload ≡ b.reload + 1)
    × (b'.open_file ≡ kept)
    × IsPushed r b'.notice.status
Ended d kept (threw e) b b' =
    (b'.busy ≡ false)
    × (b'.path ≡ b.path)
    × (b'.draft ≡ b.draft)
    × (b'.msg ≡ b.msg)
    × (b'.entries ≡ b.entries)
    × (b'.dialog ≡ d)
    × (b'.err ≡ some (err_text e))
    × (b'.reload ≡ b.reload)
    × (b'.open_file ≡ b.open_file)
    × (b'.notice.status ≡ b.notice.status)

-- The file that stays open where one at `rel` is deleted or renamed.
abbrev pub unless_at : Text → FileContent → Option FileContent
unless_at rel f = if text_eq f.path rel then none else some f

show-status :
    (text : Text) (n : Notice)
    → (show success text n).status ≡ some (record { kind = success; text = text })
unfolding show
show-status text n = refl

end_commit-Ended :
    (keep : Option FileContent → Option FileContent) (m : Outcome CommitResult) (b : Browser)
    → Ended b.dialog (keep b.open_file) m b (end_commit keep m (begin_commit b))
unfolding end_commit begin_commit
end_commit-Ended keep (returned r) b =
    (refl, refl, refl, refl, refl, refl, refl, refl, refl, show-status _ b.notice)
end_commit-Ended keep (threw e) b = (refl, refl, refl, refl, refl, refl, refl, refl, refl, refl)

end_commit-Ended_dialog :
    (keep : Option FileContent → Option FileContent) (m : Outcome CommitResult) (b : Browser)
    → Ended no_dialog
        (keep b.open_file)
        m
        b
        (end_commit keep m (begin_commit (set_dialog no_dialog b)))
unfolding end_commit begin_commit set_dialog
end_commit-Ended_dialog keep (returned r) b =
    (refl, refl, refl, refl, refl, refl, refl, refl, refl, show-status _ b.notice)
end_commit-Ended_dialog keep (threw e) b =
    (refl, refl, refl, refl, refl, refl, refl, refl, refl, refl)

close_if-unless_at :
    (rel : Text) (b : Browser) (f : FileContent)
    → b.open_file ≡ some f
    → close_if rel b b.open_file ≡ unless_at rel f
unfolding close_if
close_if-unless_at rel b f h = ap (close_if rel b) h ∙ rw (h, close_if) refl

module _ {N : Type 0} (fetch : Fetch N CommitResult) (agent app : Text)
    (credential : Option Text) where
  abbrev pub SaveEnded : Browser → FileContent → Type 0
  SaveEnded b f =
      Ended b.dialog (some (record f { content = b.draft }))
        (write_file fetch agent app f.path b.draft (or_else b.msg (codes "Update " ++ f.path))
          credential)
        b (on_save fetch agent app credential b)

  abbrev pub CreateEnded : Browser → Text → Type 0
  CreateEnded b name =
      let rel = join_path b.path name in
      Ended no_dialog b.open_file
        (create_file fetch agent app rel [] (codes "Create " ++ rel) credential) b
        (commit_new_file fetch agent app credential name b)

  abbrev pub DeleteEnded : Browser → FileContent → DirEntry → Type 0
  DeleteEnded b f entry =
      let rel = join_path b.path entry.name in
      Ended no_dialog (unless_at rel f)
        (delete_file fetch agent app rel (codes "Delete " ++ rel) credential) b
        (commit_delete fetch agent app credential entry b)

  abbrev pub RenameEnded : Browser → FileContent → DirEntry → Text → Type 0
  RenameEnded b f entry name =
      let from = join_path b.path entry.name in
      let dest = join_path b.path name in
      Ended no_dialog (unless_at from f)
        (rename_file fetch agent app from dest (codes "Rename " ++ (from ++ (codes " → " ++ dest)))
          credential)
        b (commit_rename fetch agent app credential entry name b)

  save-Ended : (b : Browser) (f : FileContent) → b.open_file ≡ some f → SaveEnded b f
  unfolding on_save save_begin save_request save_end save_call reopen
  save-Ended b f h =
      let m : Outcome CommitResult = save_call fetch agent app credential f b in
      let q : on_save fetch agent app credential b ≡ end_commit (reopen f b) m (begin_commit b) =
        ground arith in
      subst (Ended b.dialog (some (record f { content = b.draft })) m b) (sym q)
        (end_commit-Ended (reopen f b) m b)

  create-Ended : (b : Browser) (name : Text) → CreateEnded b name
  unfolding commit_new_file
  create-Ended b name = end_commit-Ended_dialog (λ now. now) _ b

  delete-Ended :
      (b : Browser) (f : FileContent) (entry : DirEntry)
      → b.open_file ≡ some f
      → DeleteEnded b f entry
  unfolding commit_delete
  delete-Ended b f entry h =
      let rel = join_path b.path entry.name in
      let m : Outcome CommitResult =
        delete_file fetch agent app rel (codes "Delete " ++ rel) credential in
      subst (λ o. Ended no_dialog o m b (commit_delete fetch agent app credential entry b))
        (close_if-unless_at rel b f h) (end_commit-Ended_dialog (close_if rel b) m b)

  rename-Ended :
      (b : Browser) (f : FileContent) (entry : DirEntry) (name : Text)
      → b.open_file ≡ some f
      → skips_rename name entry ≡ false
      → RenameEnded b f entry name
  unfolding commit_rename
  rename-Ended b f entry name h kept =
      let from = join_path b.path entry.name in
      let dest = join_path b.path name in
      let m : Outcome CommitResult =
        rename_file fetch agent app from dest (codes "Rename " ++ (from ++ (codes " → " ++ dest)))
          credential in
      let q : commit_rename fetch agent app credential entry name b
          ≡ end_commit (close_if from b) m (begin_commit (set_dialog no_dialog b)) =
        rw kept refl in
      subst (Ended no_dialog (unless_at from f) m b) (sym q) (
        subst
          (λ o.
            Ended no_dialog o m b
              (end_commit (close_if from b) m (begin_commit (set_dialog no_dialog b))))
          (close_if-unless_at from b f h) (end_commit-Ended_dialog (close_if from b) m b))

  -- While a file is open: the four commits make the calls that are named, on the directory of the
  -- browser, and end alike. None leaves the page busy, and the directory, its listing, the draft and
  -- the message are as they were. One that succeeds reports what was pushed, with no error and the
  -- listing to be read anew; the saved file is open with the draft as its content, and a file that
  -- was deleted, or renamed to another name that is not empty, is closed if it was open. One that
  -- fails shows its error, and leaves the open file and the notice as they were. All but the saving
  -- close the dialog.
  pub commits-Ended :
      (b : Browser) (f : FileContent) (entry : DirEntry) (name : Text)
      → b.open_file ≡ some f
      → skips_rename name entry ≡ false
      → SaveEnded b f × CreateEnded b name × DeleteEnded b f entry × RenameEnded b f entry name
  commits-Ended b f entry name h kept = (
    save-Ended b f h,
    create-Ended b name,
    delete-Ended b f entry h,
    rename-Ended b f entry name h kept,
  )

  -- Where a file is open and the server commits the deletion of an entry, the editor is closed
  -- exactly if it showed that entry.
  pub commit_delete-open_file :
      (b : Browser) (f : FileContent) (entry : DirEntry) (r : CommitResult)
      → b.open_file ≡ some f
      → delete_file fetch agent app
          (join_path b.path entry.name)
          (codes "Delete " ++ join_path b.path entry.name)
          credential
        ≡ returned r
      → ((commit_delete fetch agent app credential entry b).open_file ≡ none)
        ↔ (f.path ≡ join_path b.path entry.name)
  unfolding commit_delete end_commit close_if begin_commit set_dialog
  commit_delete-open_file b f entry r shown done =
      ground (arith, text_eq_iff f.path (join_path b.path entry.name))
