-- ===== src/Tests/Upstreams.antt =====
-- resolver/resolver.go over plain DNS, with a cache that is a list.
use nextdns.Prelude.{[], arith, codes, false, none, refl, some, true, ◌∷◌, ◌≡◌}
use nextdns.Endpoint.{Endpoint, dns}
use nextdns.Endpoint.Manager.{Settings, new_active}
use nextdns.Resolver.Doh.{unreachable}
use nextdns.Resolver.Upstream.{Answer, Asked, Dns, World, answered, resolve}
use nextdns.Resolver.Upstream.Shared.{IsAnswered, resolve-IsAnswered}
use nextdns.Tests.Messages.{a_query, a_response, buffer}
use nextdns.Tests.Plain.{list_cacher, no_limits}

abbrev settings : Settings
settings = record {
  init_endpoint = none;
  error_threshold = 2;
  min_test_interval = 0;
  get_min_test_interval = λ e. 0;
}

abbrev server : Endpoint
server = dns (codes "1.1.1.1:53")

abbrev start : Dns list_cacher no_limits
start = record {
  manager = record {
    heap = new_active settings 5 (some server) ∷ [];
    active = some 0;
    locked = false;
  };
  doh_state = record { cache = some []; modified = λ u. 0 };
  stats = record { hit = 0; miss = 0 };
}

abbrev world : World
world = record {
  round_trip = λ e. unreachable;
  datagrams = λ a. record {
    dials = true;
    writes = true;
    reads = λ k. record { bytes = a_response; failed = false };
  };
}

abbrev asked : Asked
asked = record { query = a_query; url = codes "u"; profile = codes "p" }

resolve-IsAnswered_example :
    (r : Answer list_cacher no_limits) × (resolve list_cacher no_limits settings world start asked 6
        [] buffer
      ≡ some (answered r))
    × IsAnswered list_cacher no_limits start asked 6 server buffer r
resolve-IsAnswered_example =
    resolve-IsAnswered list_cacher no_limits settings world start asked 6 [] buffer 0
      (new_active settings 5 (some server)) server refl refl refl refl (omega arith) (omega arith)
