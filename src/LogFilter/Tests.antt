-- ===== src/LogFilter/Tests.antt =====
-- A filter between slashes, and a plain one, for an engine that knows one expression.
use marshal_pm.Base.{
  ◌≡◌, refl, Bool, Option, some, none, Text, codes, text_eq, includes, if◌then◌else◌,
}

abbrev to_lower : Text → Text
to_lower s = s

abbrev regexp : Text → Option (Text → Bool)
regexp p = if text_eq p (codes "er+or") then some (includes (codes "error")) else none

regexp_known : regexp (codes "er+or") ≡ some (includes (codes "error"))
unfolding text_eq
regexp_known = refl
