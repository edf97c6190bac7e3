-- ===== src/Status.antt =====
-- web/src/lib/status.ts and web/src/components/StatusGlyph.tsx: how a process's state is shown.
use marshal_pm.Base.{Bool, true, false, ◌||◌, Text, codes, text_eq, if◌then◌else◌}

pub data Kind : Type 0 where
  online errored stopped : Kind

pub record StatusResult : Type 0 where
  pub kind : Kind
  pub word : Text
  pub dot_class : Text

unfoldable pub status_of : Text → StatusResult
unfolding text_eq
status_of state =
    if text_eq state (codes "online") || text_eq state (codes "running")
    then record { kind = online; word = state; dot_class = codes "on" }
    else if text_eq state (codes "errored") || text_eq state (codes "failed")
    then record { kind = errored; word = state; dot_class = codes "er" }
    else record { kind = stopped; word = state; dot_class = codes "st" }

abbrev pub is_errored : Kind → Bool
is_errored errored = true
is_errored _ = false

abbrev pub is_online : Kind → Bool
is_online online = true
is_online _ = false

-- The class of the glyph's text, by the class of its dot.
unfoldable pub dot_class_to_text : Text → Text
unfolding text_eq
dot_class_to_text dot =
    if text_eq dot (codes "on")
    then codes "on-t"
    else if text_eq dot (codes "er")
    then codes "er-t"
    else codes "stp-t"

-- The glyph: the class of its square, the class of its text, and the text.
unfoldable pub status_glyph : Text → Text × Text × Text
unfolding status_of dot_class_to_text
status_glyph state = let s = status_of state in (s.dot_class, dot_class_to_text s.dot_class, s.word)
