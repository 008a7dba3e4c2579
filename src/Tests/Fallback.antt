-- ===== src/Tests/Fallback.antt =====
-- The manager of run.go, more than ten minutes after the start, with every encrypted endpoint failing.
use nextdns.Prelude.{Bytes, [], arith, codes, false, none, refl, some, ℕ, ◌++◌, ◌+◌, ◌∷◌, ◌≡◌}
use nextdns.Endpoint.Manager.{
  Manager, Tested, min_test_interval_failed, new_active, provider_error, test_locked, unhealthy,
}
use nextdns.Run.Endpoints.{anycast1, can_fallback, nextdns_offers, nextdns_settings, ten_minutes}
use nextdns.Run.Endpoints.Encrypted.{HeapIsEncrypted, test_locked_never_plain}

abbrev join : Bytes → Bytes → Bytes
join host port = host ++ codes ":" ++ port

abbrev start : Manager
start = record { heap = []; active = none; locked = false }

abbrev later : ℕ
later = ten_minutes + 7

abbrev kept : Tested
kept = record {
  manager = record {
    heap =
        (record (new_active nextdns_settings later (some anycast1)) {
          test_interval = min_test_interval_failed;
        })
        ∷ [];
    active = some 0;
    locked = false;
  };
  failed = false;
  changed = some (some anycast1);
}

keeps :
    test_locked nextdns_settings start later (
      nextdns_offers join provider_error unhealthy unhealthy
        (can_fallback false 3 later)
        (codes "192.168.1.1" ∷ []))
    ≡ some kept
unfolding test_locked nextdns_offers can_fallback nextdns.Endpoint.Manager.find_best_endpoint
    nextdns.Endpoint.Manager.scan_offers nextdns.Endpoint.Manager.scan_endpoints
    nextdns.Endpoint.Manager.new_active_endpoint nextdns.Endpoint.Manager.install
    nextdns.Endpoint.Manager.is_change
keeps = refl

test_locked_never_plain_example : HeapIsEncrypted kept.manager.heap
test_locked_never_plain_example =
    test_locked_never_plain join provider_error unhealthy unhealthy (codes "192.168.1.1" ∷ [])
      nextdns_settings start 3 later kept tt tt (omega arith) keeps
