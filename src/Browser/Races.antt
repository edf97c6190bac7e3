-- ===== src/Browser/Races.antt =====
-- A file opened while another is saved.
use marshal_pm.Base.{◌≡◌, refl, Option, some, ◌++◌, Text, codes, returned}
use marshal_pm.Api.Types.{FileContent, CommitResult}
use marshal_pm.Api.Http.{Fetch}
use marshal_pm.Api.Files.{write_file}
use marshal_pm.Browser.{
  Browser, begin_commit, end_commit, reopen, entry_done, save_call, save_begin, save_request,
  save_end,
}

module _ {N : Type 0} (fetch : Fetch N CommitResult) (agent app : Text)
    (credential : Option Text) where
  -- The save of the open file begins, another file is read, and the save succeeds.
  abbrev pub raced : Browser → FileContent → CommitResult → Browser
  raced b g r =
      save_end fetch agent app credential b (returned r)
        (entry_done (returned g) (save_begin fetch agent app credential b))

  -- While the open file `f` is saved the entries stay active. If the file `g` is read before the save
  -- succeeds, then in the end `f` is open, with the text that was saved, over the draft and the
  -- message of `g`, and the next save writes the content of `g` to the path of `f`.
  pub save_end-entry_done :
      (b : Browser) (f g : FileContent) (r : CommitResult)
      → b.open_file ≡ some f
      → ((raced b g r).open_file ≡ some (record f { content = b.draft }))
        × ((raced b g r).draft ≡ g.content)
        × ((raced b g r).msg ≡ codes "Update " ++ g.path)
        × (save_request fetch agent app credential (raced b g r)
            ≡ some (
                write_file fetch agent app f.path g.content (codes "Update " ++ g.path) credential))
  unfolding save_end save_begin save_request end_commit reopen entry_done save_call begin_commit
  save_end-entry_done b f g r h = (rw h refl, rw h refl, rw h refl, rw h refl)
