-- ===== src/Router/RoundTrip.antt =====
-- A link to a process or to its logs leads back to it.
use marshal_pm.Base.{
  false, some, [], ◌∷◌, ◌++◌, Text, codes, text_eq, is_blank, split_on, split_on-append,
  split_on-Lacks, returned, ◌>>=◌, ◌≡◌, All, arith, Lacks,
}
use marshal_pm.Uri.{encode, decode}
use marshal_pm.Uri.RoundTrip.{IsScalar, decode-encode, encode-is_blank}
use marshal_pm.Router.{
  segments_around_p, two_segments, detail, logs, parse_logs, parse_detail, parse_hash, proc_href,
  logs_href,
}

-- A name that a link can carry: not empty, and without lone surrogates.
abbrev pub IsName : Text → Type 0
IsName s = (is_blank s ≡ false) × All IsScalar s

-- A segment of a path: not empty, and without a slash.
abbrev pub IsSegment : Text → Type 0
IsSegment t = Lacks 47 t × (is_blank t ≡ false)

-- A name's encoding is a segment of a path, and decodes to the name.
encoded :
    (s : Text)
    → IsName s
    → (t : Text) × (encode s ≡ returned t) × (decode t ≡ returned s) × IsSegment t
encoded [] h = absurd (ground arith)
encoded (c ∷ s) (b, h) =
    let (t, e, d, k) = decode-encode (c ∷ s) h in (t, e, d, (k, encode-is_blank c s e))

-- The groups that the two regular expressions capture.
pub segments_around_p_lem :
    (a p : Text)
    → IsSegment a
    → IsSegment p
    → segments_around_p (split_on 47 (a ++ 47 ∷ 112 ∷ 47 ∷ p)) ≡ some (a, p)
unfolding text_eq
segments_around_p_lem a p (ha, ba) (hp, bp) =
    rw
      (
        split_on-append 47 a (112 ∷ 47 ∷ p) ha,
        split_on-append 47 (112 ∷ []) p ((λ e. omega arith), tt),
        split_on-Lacks 47 p hp,
      )
      (rw (ba, bp))

pub two_segments_lem :
    (a p : Text)
    → IsSegment a
    → IsSegment p
    → two_segments (split_on 47 (a ++ 47 ∷ p)) ≡ some (a, p)
two_segments_lem a p (ha, ba) (hp, bp) =
    rw (split_on-append 47 a p ha, split_on-Lacks 47 p hp) (rw (ba, bp))

parse_detail-segments :
    (a p : Text) {agent proc : Text}
    → IsSegment a
    → IsSegment p
    → decode a ≡ returned agent
    → decode p ≡ returned proc
    → parse_hash (codes "#/a/" ++ (a ++ (codes "/p/" ++ p))) ≡ returned (detail agent proc)
unfolding parse_hash parse_logs parse_detail text_eq
parse_detail-segments a p sa sp da dp = rw (segments_around_p_lem a p sa sp) (rw (da, dp))

parse_logs-segments :
    (a p : Text) {agent proc : Text}
    → IsSegment a
    → IsSegment p
    → decode a ≡ returned agent
    → decode p ≡ returned proc
    → parse_hash (codes "#/logs/" ++ (a ++ (codes "/" ++ p)))
      ≡ returned (logs (some agent) (some proc))
unfolding parse_hash parse_logs parse_detail text_eq
parse_logs-segments a p sa sp da dp = rw (two_segments_lem a p sa sp) (rw (da, dp))

-- The link that `procHref` makes of two names, not empty and without lone surrogates, is parsed
-- as the page of that process.
pub parse_hash-proc_href :
    (agent proc : Text)
    → IsName agent
    → IsName proc
    → (proc_href agent proc >>= parse_hash) ≡ returned (detail agent proc)
unfolding proc_href
parse_hash-proc_href agent proc h k =
    let (a, ea, da, sa) = encoded agent h in
    let (p, ep, dp, sp) = encoded proc k in rw (ea, ep) (parse_detail-segments a p sa sp da dp)

-- The link that `logsHref` makes of two names, not empty and without lone surrogates, is parsed
-- as the log page of that process.
pub parse_hash-logs_href :
    (agent proc : Text)
    → IsName agent
    → IsName proc
    → (logs_href (some agent) (some proc) >>= parse_hash) ≡ returned (logs (some agent) (some proc))
unfolding logs_href
parse_hash-logs_href agent proc h k =
    let (a, ea, da, sa) = encoded agent h in
    let (p, ep, dp, sp) = encoded proc k in rw (ea, ep) (parse_logs-segments a p sa sp da dp)
