-- ===== src/Browser/Paths.antt =====
-- Paths of files.
use marshal_pm.Base.{◌≡◌, refl, arith, none, some, [], ◌∷◌, ◌++◌, Text, Lacks}
use marshal_pm.Browser.{join_path, before_last_slash, parent_path}

pub before_last_slash-Lacks : (name : Text) → Lacks 47 name → before_last_slash name ≡ none
unfolding before_last_slash
before_last_slash-Lacks [] h = refl
before_last_slash-Lacks (c ∷ name) h = ground (arith, before_last_slash-Lacks name h.1)

pub before_last_slash-append :
    (dir name : Text) → Lacks 47 name → before_last_slash (dir ++ (47 ∷ name)) ≡ some dir
unfolding before_last_slash
before_last_slash-append [] name h = ground (arith, before_last_slash-Lacks name h)
before_last_slash-append (c ∷ dir) name h = ground (arith, before_last_slash-append dir name h)

-- The row `../` leads from an entry of a directory, whose name holds no slash, to the directory.
pub parent_path-join_path :
    (dir name : Text) → Lacks 47 name → parent_path (join_path dir name) ≡ dir
unfolding parent_path join_path
parent_path-join_path [] name h = rw (before_last_slash-Lacks name h, parent_path)
parent_path-join_path (c ∷ dir) name h = rw (before_last_slash-append (c ∷ dir) name h, parent_path)
