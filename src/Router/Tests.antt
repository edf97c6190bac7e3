-- ===== src/Router/Tests.antt =====
-- Examples of links and of hashes.
use marshal_pm.Base.{◌≡◌, refl, arith, Text, codes, returned, threw, ◌>>=◌, All, split_on}
use marshal_pm.Uri.{decode}
use marshal_pm.Uri.RoundTrip.{IsScalar}
use marshal_pm.Router.{Route, detail, parse_hash, on_hashchange, proc_href}
use marshal_pm.Router.RoundTrip.{parse_hash-proc_href}
use marshal_pm.Router.Parsing.{LinksTo, parse_hash-eq-detail, parse_hash_malformed}

abbrev agent : Text
agent = codes "web 1"

abbrev proc : Text
proc = codes "a/é"

scalars_agent : All IsScalar agent
scalars_agent = ground arith

scalars_proc : All IsScalar proc
scalars_proc = ground arith

parse_hash-proc_href_example : (proc_href agent proc >>= parse_hash) ≡ returned (detail agent proc)
parse_hash-proc_href_example =
    parse_hash-proc_href agent proc (refl, scalars_agent) (refl, scalars_proc)

parse_hash_link :
    parse_hash (codes "#/a/web%201/p/api") ≡ returned (detail (codes "web 1") (codes "api"))
unfolding parse_hash decode split_on
parse_hash_link = refl

parse_hash-eq-detail_example : LinksTo (codes "#/a/web%201/p/api") (codes "web 1") (codes "api")
parse_hash-eq-detail_example =
    parse_hash-eq-detail (codes "#/a/web%201/p/api") (codes "web 1") (codes "api") parse_hash_link

decode_percent : decode (codes "50%") ≡ threw (codes "URI malformed")
unfolding decode
decode_percent = refl

parse_hash_malformed_example :
    (parse_hash (codes "#/a/50%/p/api") ≡ threw (codes "URI malformed"))
    × ((r : Route) → on_hashchange (codes "#/a/50%/p/api") r ≡ r)
parse_hash_malformed_example =
    parse_hash_malformed (codes "50%") (codes "api") (ground arith) (ground arith) decode_percent
