-- ===== src/Browser/Tests.antt =====
-- A file of the directory `src` that is edited, and servers that accept and refuse the commits.
use marshal_pm.Base.{ℕ, ◌≡◌, refl, false, some, none, [], ◌++◌, codes, returned}
use marshal_pm.Api.Types.{CommitResult}
use marshal_pm.Api.Http.{Fetch}
use marshal_pm.Api.Files.{write_file, delete_file}
use marshal_pm.Uri.{encode}
use marshal_pm.Browser.Crumbs.{crumbs_climb}
use marshal_pm.Base.{Text, ◌-◌, split_on, length, ◌≡◌, arith, []}
use marshal_pm.Browser.{crumbs, crumb_path, parent_path}
use marshal_pm.Browser.{Browser, join_path, skips_rename, save_request}
use marshal_pm.Browser.Commits.{SaveEnded, CreateEnded, DeleteEnded, RenameEnded, commits-Ended}
use marshal_pm.Browser.Races.{raced, save_end-entry_done}
use marshal_pm.Samples.{replies, browser, file, entry, commit}

abbrev server : Fetch ℕ CommitResult
server = replies 200 commit

kept : skips_rename (codes "b.ts") (entry (codes "a.ts")) ≡ false
unfolding skips_rename
kept = refl

commits-Ended_example :
    SaveEnded server (codes "a1") (codes "web") none browser (file (codes "src/a.ts") (codes "old"))
    × CreateEnded server (codes "a1") (codes "web") none browser (codes "b.ts")
    × DeleteEnded server
        (codes "a1")
        (codes "web")
        none
        browser
        (file (codes "src/a.ts") (codes "old"))
        (entry (codes "a.ts"))
    × RenameEnded server
        (codes "a1")
        (codes "web")
        none
        browser
        (file (codes "src/a.ts") (codes "old"))
        (entry (codes "a.ts"))
        (codes "b.ts")
commits-Ended_example =
    commits-Ended server (codes "a1") (codes "web") none browser
      (file (codes "src/a.ts") (codes "old")) (entry (codes "a.ts")) (codes "b.ts") refl kept

deleted :
    delete_file server
      (codes "a1")
      (codes "web")
      (join_path (codes "src") (codes "a.ts"))
      (codes "Delete " ++ join_path (codes "src") (codes "a.ts"))
      none
    ≡ returned commit
unfolding delete_file encode
deleted = refl

abbrev race_end : Browser
race_end =
    raced server (codes "a1") (codes "web") none browser (file (codes "src/b.ts") (codes "other"))
      commit

save_end-entry_done_example :
    (race_end.open_file ≡ some (file (codes "src/a.ts") (codes "new")))
    × (race_end.draft ≡ codes "other")
    × (race_end.msg ≡ codes "Update " ++ codes "src/b.ts")
    × (save_request server (codes "a1") (codes "web") none race_end
        ≡ some (
            write_file server
              (codes "a1")
              (codes "web")
              (codes "src/a.ts")
              (codes "other")
              (codes "Update " ++ codes "src/b.ts")
              none))
save_end-entry_done_example =
    save_end-entry_done server (codes "a1") (codes "web") none browser
      (file (codes "src/a.ts") (codes "old")) (file (codes "src/b.ts") (codes "other")) commit refl

abbrev nested : Text
nested = codes "src/web/a.ts"

crumbs_climb_example :
    (parent_path (crumb_path nested 0) ≡ [])
    × (parent_path (crumb_path nested 2) ≡ crumb_path nested 1)
    × (crumb_path nested (length (crumbs nested) - 1) ≡ nested)
unfolding crumbs split_on
crumbs_climb_example = crumbs_climb nested 1 (omega arith)
