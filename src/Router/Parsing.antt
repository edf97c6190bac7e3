-- ===== src/Router/Parsing.antt =====
-- Which hashes lead to a process's page, and what a malformed escape in one does.
use marshal_pm.Base.{
  Bool, Option, none, some, List, [], ◌∷◌, ◌++◌, Text, codes, refl, text_eq→eq, ap, ◌∙◌, sym, join,
  split_on, split_on-All, join-split_on, All, Lacks, is_blank, false, strip_prefix,
  strip_prefix-eq-some, if◌then◌else◌, Outcome, returned, threw, ◌>>=◌, ◌≡◌, ◌≢◌, arith,
  Option-cases, inl, inr,
}
use marshal_pm.Uri.{decode}
use marshal_pm.Router.{
  logs_of, errors, notifications, credentials, segments_around_p, decoded, Route, detail, logs,
  match_logs, match_detail, parse_logs, parse_detail, parse_hash, on_hashchange,
}
use marshal_pm.Router.RoundTrip.{IsSegment, segments_around_p_lem}

segments_around_p-eq-some :
    (ws : List Text) {a p : Text}
    → All (Lacks 47) ws
    → segments_around_p ws ≡ some (a, p)
    → IsSegment a × IsSegment p × (join (47 ∷ []) ws ≡ a ++ (codes "/p/" ++ p))
unfolding join
segments_around_p-eq-some (x ∷ mid ∷ y ∷ []) {a} {p} (lx, (lm, (ly, _))) h =
    let (full_x, full_y, ex, ey, e) : (is_blank x ≡ false)
        × (is_blank y ≡ false)
        × (x ≡ a)
        × (y ≡ p)
        × (mid ≡ codes "p") =
      ground (arith, text_eq→eq mid (codes "p")) in
    (rw (← ex) (lx, full_x), rw (← ey) (ly, full_y), ground arith)
segments_around_p-eq-some _ lacks h = cc

match_detail-eq-some :
    (hash : Text) {a p : Text}
    → match_detail hash ≡ some (a, p)
    → IsSegment a × IsSegment p × (hash ≡ codes "#/a/" ++ (a ++ (codes "/p/" ++ p)))
unfolding match_detail
match_detail-eq-some hash h = elim (Option-cases (strip_prefix (codes "#/a/") hash)) [
  | inl e ↦ cc (rw e at h)
  | inr (r, e) ↦
      let (sa, sp, q) = segments_around_p-eq-some (split_on 47 r) (split_on-All 47 r) (rw e at h) in
      (
        sa,
        sp,
        strip_prefix-eq-some (codes "#/a/") hash r e
            ∙ ap (λ s. codes "#/a/" ++ s) (sym (join-split_on 47 r) ∙ q),
      )
]

-- A link to a process whose first segment does not decode makes `parseHash` throw, with the error
-- of the decoding, and when the hash changes to it the route stays as it was.
pub parse_hash_malformed :
    (a p : Text) {e : Text}
    → IsSegment a
    → IsSegment p
    → decode a ≡ threw e
    → (parse_hash (codes "#/a/" ++ (a ++ (codes "/p/" ++ p))) ≡ threw e)
      × ((r : Route) → on_hashchange (codes "#/a/" ++ (a ++ (codes "/p/" ++ p))) r ≡ r)
unfolding parse_hash on_hashchange
parse_hash_malformed a p sa sp da = (
  rw (segments_around_p_lem a p sa sp) (rw da),
  λ r. rw (segments_around_p_lem a p sa sp, on_hashchange) (rw (da, on_hashchange)),
)

decoded-detail-eq :
    (a p agent proc : Text)
    → decoded detail (a, p) ≡ returned (detail agent proc)
    → (decode a ≡ returned agent) × (decode p ≡ returned proc)
decoded-detail-eq a p agent proc h = go (decode a) (decode p) h
  where
    go :
        (x y : Outcome Text)
        → (x >>= λ u. y >>= λ v. returned (detail u v)) ≡ returned (detail agent proc)
        → (x ≡ returned agent) × (y ≡ returned proc)
    go (returned u) (returned v) h = (ground arith, ground arith)
    go (returned u) (threw e) h = cc
    go (threw e) y h = cc

decoded-logs_of-ne : (a p agent proc : Text) → decoded logs_of (a, p) ≢ returned (detail agent proc)
decoded-logs_of-ne a p agent proc = go (decode a) (decode p)
  where
    go :
        (x y : Outcome Text)
        → (x >>= λ u. y >>= λ v. returned (logs_of u v)) ≢ returned (detail agent proc)
    go (returned u) (returned v) h = cc
    go (returned u) (threw e) h = cc
    go (threw e) y h = cc

-- What it takes for a hash to lead to a process's page.
abbrev pub LinksTo : Text → Text → Text → Type 0
LinksTo hash agent proc =
    (a : Text) × (p : Text) × IsSegment a
    × IsSegment p
    × (hash ≡ codes "#/a/" ++ (a ++ (codes "/p/" ++ p)))
    × (decode a ≡ returned agent)
    × (decode p ≡ returned proc)

parse_detail-eq :
    (m : Option (Text × Text)) (hash agent proc : Text)
    → m ≡ match_detail hash
    → parse_detail m ≡ returned (detail agent proc)
    → LinksTo hash agent proc
unfolding parse_detail
parse_detail-eq none hash agent proc e h = cc
parse_detail-eq (some (a, p)) hash agent proc e h =
    let (da, dp) = decoded-detail-eq a p agent proc h in
    let (sa, sp, q) = match_detail-eq-some hash (sym e) in (a, p, sa, sp, q, da, dp)

parse_logs-eq :
    (m : Option (Text × Text)) (hash agent proc : Text)
    → parse_logs m hash ≡ returned (detail agent proc)
    → LinksTo hash agent proc
unfolding parse_logs
parse_logs-eq none hash agent proc h = parse_detail-eq (match_detail hash) hash agent proc refl h
parse_logs-eq (some (a, p)) hash agent proc h = absurd (decoded-logs_of-ne a p agent proc h)

first_tests :
    (t1 t2 t3 t4 : Bool) (last : Outcome Route) (agent proc : Text)
    → (if t1
        then returned errors
        else if t2
        then returned notifications
        else if t3
        then returned credentials
        else if t4
        then returned (logs none none)
        else last)
      ≡ returned (detail agent proc)
    → last ≡ returned (detail agent proc)
first_tests t1 t2 t3 t4 last agent proc h = ground arith

-- Where `parseHash` returns a process's page, the hash is a link to it: `#/a/`, a segment that
-- decodes to the agent's name, `/p/`, and a segment that decodes to the process's name, where a
-- segment is a text that is not empty and has no slash.
pub parse_hash-eq-detail :
    (hash agent proc : Text)
    → parse_hash hash ≡ returned (detail agent proc)
    → LinksTo hash agent proc
unfolding parse_hash
parse_hash-eq-detail hash agent proc h =
    parse_logs-eq (match_logs hash) hash agent proc (first_tests _ _ _ _ _ agent proc h)
