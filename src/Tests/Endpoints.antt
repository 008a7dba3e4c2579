-- ===== src/Tests/Endpoints.antt =====
-- resolver/endpoint/ at concrete endpoints.
use nextdns.Prelude.{
  List, Option, [], arith, codes, false, none, refl, some, true, ℕ, ◌%◌, ◌+◌, ◌^◌, ◌↔◌, ◌∷◌, ◌≡◌,
  ◌≢◌, ◌≤◌,
}
use nextdns.Endpoint.{Endpoint, dns, doh}
use nextdns.Endpoint.Manager.{
  Active, Manager, Offer, Scan, Settings, Tested, blocked, get_active_endpoint, healthy,
  net_unreachable, new_active, offers, test_failed, test_locked, unhealthy,
}
use nextdns.Endpoint.Manager.Installation.{Installs, Picks}
use nextdns.Endpoint.Manager.Selection.{Explains, IsTested, events, test_locked-Explains}
use nextdns.Endpoint.Manager.Deadlock.{get_active_endpoint_deadlock}
use nextdns.Endpoint.Request.{after_action, claim_test, looks_due, test, threshold}
use nextdns.Endpoint.Request.Errors.{after_actions, recovery_iff, run_of_errors}
use nextdns.Endpoint.Request.Single.{
  IsSingle, Reach, Reach-IsSingle, World, claims, here, looks, next, starts,
}

abbrev first : Endpoint
first = dns (codes "1.1.1.1:53")

abbrev second : Endpoint
second = doh (codes "dns.nextdns.io") (codes "/") [] []

abbrev settings : Settings
settings = record {
  init_endpoint = none;
  error_threshold = 2;
  min_test_interval = 0;
  get_min_test_interval = λ e. 0;
}

abbrev manager : Manager
manager = record { heap = []; active = none; locked = false }

abbrev two : List Offer
two = offers ((first, unhealthy) ∷ (second, healthy) ∷ []) ∷ []

abbrev chosen : Tested
chosen = record {
  manager = record {
    heap = new_active settings 5 (some second) ∷ [];
    active = some 0;
    locked = false;
  };
  failed = false;
  changed = some (some second);
}

chooses : test_locked settings manager 5 two ≡ some chosen
unfolding test_locked nextdns.Endpoint.Manager.find_best_endpoint
    nextdns.Endpoint.Manager.scan_offers nextdns.Endpoint.Manager.scan_endpoints
    nextdns.Endpoint.Manager.new_active_endpoint nextdns.Endpoint.Manager.install
    nextdns.Endpoint.Manager.is_change
chooses = refl

test_locked-Explains_example :
    (r : Scan) × Explains settings manager 5 none (events two) r
    × IsTested manager r chosen
    × ((e : Option Endpoint) → Picks settings manager 5 r e → Installs chosen e)
test_locked-Explains_example = test_locked-Explains settings manager 5 two chosen chooses

fails :
    get_active_endpoint settings manager 5 (net_unreachable ∷ [])
    ≡ some (record manager { locked = true }, test_failed)
unfolding get_active_endpoint test_locked nextdns.Endpoint.Manager.find_best_endpoint
    nextdns.Endpoint.Manager.scan_offers
fails = refl

get_active_endpoint_deadlock_example :
    (test_failed ≢ blocked)
    × ((true ≡ true) ↔ (test_failed ≡ test_failed))
    × (test_failed ≡ test_failed
        → (manager.active ≡ none)
          × (settings.init_endpoint ≡ none)
          × ((later : ℕ) (os' : List Offer)
              → get_active_endpoint settings (record manager { locked = true }) later os'
                ≡ some (record manager { locked = true }, blocked)))
get_active_endpoint_deadlock_example =
    get_active_endpoint_deadlock settings manager (record manager { locked = true }) 5
      (net_unreachable ∷ []) test_failed refl fails

abbrev object : Active
object = new_active settings 5 (some first)

recovery_iff_example :
    ((after_actions settings 9 object (false ∷ true ∷ [])).consecutive_errors
      ≡ run_of_errors object.consecutive_errors (false ∷ true ∷ []) % 2 ^ 32)
    × (((after_action settings (after_actions settings 9 object (false ∷ true ∷ [])) 9 false).1
          ≡ true)
        ↔ ((false ≡ false)
            × (run_of_errors object.consecutive_errors (false ∷ false ∷ true ∷ []) % 2 ^ 32
                ≡ threshold settings)
            × ((after_actions settings 9 object (false ∷ true ∷ [])).testing ≡ false)))
recovery_iff_example = recovery_iff settings 9 object (false ∷ true ∷ []) false (omega arith)

abbrev idle : World
idle = record { object = object; looked = 0; due = 0; running = 0 }

-- Two requests find a test due before one of them resets the timer, and the calls of `test` follow.
abbrev crowded : World
crowded = record idle { looked = 2 }

abbrev one_claims : World
one_claims = record {
  object = record object { last_test = 10 ^ 15 };
  looked = 1;
  due = 1;
  running = 0;
}

abbrev one_tests : World
one_tests = record {
  object = record object { last_test = 10 ^ 15; testing = true };
  looked = 1;
  due = 0;
  running = 1;
}

crowds : Reach settings idle crowded
unfolding looks_due nextdns.Endpoint.Request.test_time_exceeded
    nextdns.Endpoint.Manager.test_interval_of
crowds =
    next (next here (looks idle (10 ^ 15) refl)) (looks (record idle { looked = 1 }) (10 ^ 15) refl)

claimed : Reach settings idle one_claims
unfolding claim_test nextdns.Endpoint.Request.test_time_exceeded
    nextdns.Endpoint.Manager.test_interval_of
claimed = next crowds (claims crowded (10 ^ 15) (omega arith))

runs_one : Reach settings idle one_tests
unfolding test nextdns.Endpoint.Request.set_testing nextdns.Endpoint.Request.bool_eq
runs_one = next claimed (starts one_claims (10 ^ 15 + 9) (omega arith))

Reach-IsSingle_example : IsSingle one_tests × (1 ≤ 1)
Reach-IsSingle_example = Reach-IsSingle {s = settings} {w = idle} refl runs_one
