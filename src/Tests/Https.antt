-- ===== src/Tests/Https.antt =====
-- resolver/doh.go with a body that comes in two pieces.
use nextdns.Prelude.{[], arith, codes, drop, some, take, ◌≡◌}
use nextdns.Resolver.Doh.{Outcome, RoundTrip, State, resolve, responds}
use nextdns.Resolver.Doh.Reading.{Body, chunk, last}
use nextdns.Resolver.Doh.Sound.{IsSound, doh_resolve-IsSound}
use nextdns.Tests.Messages.{a_query, a_response, buffer}
use nextdns.Tests.Plain.{list_cacher, no_limits}

abbrev body : Body
body = chunk (take 12 a_response) (last (drop 12 a_response))

abbrev state : State list_cacher
state = record { cache = some []; modified = λ u. 0 }

abbrev net : RoundTrip
net =
    responds
      (record { status = 200; proto = codes "HTTP/2.0"; conf_modified = some 3; body = body })

doh_resolve-IsSound_example :
    (o : Outcome list_cacher) × (resolve list_cacher no_limits state
        (codes "u")
        (codes "p")
        a_query
        5
        net
        buffer
      ≡ some o)
    × IsSound list_cacher no_limits state (codes "u") a_query 5 net buffer o
doh_resolve-IsSound_example =
    doh_resolve-IsSound list_cacher no_limits state (codes "u") a_query 5 (codes "p") net buffer
      (omega arith)
