-- ===== src/Endpoint/Manager.antt =====
-- resolver/endpoint/manager.go: the choice of an endpoint, and the tests that renew it. The active
-- endpoints are objects on a heap: a request goes on with the one it got while the manager moves to
-- another. Times and durations are nanoseconds. What the network answers to a test is an input.
pub mod Installation
pub mod Selection
pub mod Deadlock
use nextdns.Prelude.{
  Bool, List, Option, [], false, get_elem?, if◌then◌else◌, length, none, not, some, suc, true, zero,
  ℕ, ◌*◌, ◌++◌, ◌==◌, ◌>>=◌, ◌^◌, ◌∷◌,
}
use nextdns.Endpoint.{Endpoint, equal}

-- `activeEnpoint`; the endpoint is nil where no provider offered one.
pub record Active : Type 0 where
  pub endpoint : Option Endpoint
  pub last_test : ℕ
  pub test_interval : ℕ
  pub testing : Bool
  pub consecutive_errors : ℕ

-- The fields that the owner sets. `GetMinTestInterval` answers 0 where it is not set.
pub record Settings : Type 0 where
  pub init_endpoint : Option Endpoint
  pub error_threshold : ℕ
  pub min_test_interval : ℕ
  pub get_min_test_interval : Option Endpoint → ℕ

pub record Manager : Type 0 where
  pub heap : List Active
  pub active : Option ℕ
  pub locked : Bool

abbrev pub default_error_threshold : ℕ
default_error_threshold = 10

abbrev pub default_min_test_interval : ℕ
default_min_test_interval = 2 * 3600 * 10 ^ 9

abbrev pub min_test_interval_failed : ℕ
min_test_interval_failed = 10 * 10 ^ 9

-- What a test of an endpoint brings, and what a provider brings.
pub data Health : Type 0 where
  healthy unreachable unhealthy : Health

pub data Offer : Type 0 where
  offers : List (Endpoint × Health) → Offer
  net_unreachable provider_error : Offer

-- The object of the active endpoint, or a new one.
pub data Choice : Type 0 where
  current : ℕ → Choice
  fresh : Active → Choice

-- `a.Endpoint.Equal(e)`: a call on a nil endpoint panics, and a nil argument is never equal.
unfoldable pub same_endpoint : Option Endpoint → Option Endpoint → Option Bool
same_endpoint none e = none
same_endpoint (some a) none = some false
same_endpoint (some a) (some e) = some (equal a e)

unfoldable pub test_interval_of : Settings → Option Endpoint → ℕ
test_interval_of s e =
    if s.get_min_test_interval e == 0
    then (if s.min_test_interval == 0 then default_min_test_interval else s.min_test_interval)
    else s.get_min_test_interval e

abbrev pub new_active : Settings → ℕ → Option Endpoint → Active
new_active s now e = record {
  endpoint = e;
  last_test = now;
  test_interval = test_interval_of s e;
  testing = false;
  consecutive_errors = 0;
}

-- `newActiveEndpointLocked`
unfoldable pub new_active_endpoint : Settings → Manager → ℕ → Option Endpoint → Option Choice
new_active_endpoint s m now e = elim m.active [
  | none ↦ some (fresh (new_active s now e))
  | some i ↦ do
    a ← get_elem? m.heap i
    same ← same_endpoint a.endpoint e
    some (if same then current i else fresh (new_active s now e))
]

-- Where the search stands behind some endpoints: one is chosen, the network is not reachable, or
-- none was healthy and the first one that was offered is known.
pub data Scan : Type 0 where
  selected : Choice → Scan
  aborted : Scan
  exhausted : Option Endpoint → Scan

-- `if firstEndpoint == nil { firstEndpoint = e }`
abbrev pub or_first : Option Endpoint → Endpoint → Option Endpoint
or_first none e = some e
or_first (some first) e = some first

-- What the loop does with a test: it returns, or goes on.
abbrev pub after_test : Health → Choice → Option Scan → Option Scan
after_test healthy ae rest = some (selected ae)
after_test unreachable ae rest = some aborted
after_test unhealthy ae rest = rest

-- The loop over the endpoints of one provider.
unfoldable pub scan_endpoints :
    Settings → Manager → ℕ → List (Endpoint × Health) → Option Endpoint → Option Scan
scan_endpoints s m now [] first = some (exhausted first)
scan_endpoints s m now ((e, h) ∷ rest) first = do
  ae ← new_active_endpoint s m now (some e)
  after_test h ae (scan_endpoints s m now rest (or_first first e))

abbrev pub after_provider : Scan → (Option Endpoint → Option Scan) → Option Scan
after_provider (selected ae) rest = some (selected ae)
after_provider aborted rest = some aborted
after_provider (exhausted first) rest = rest first

-- The loop over the providers.
unfoldable pub scan_offers : Settings → Manager → ℕ → List Offer → Option Endpoint → Option Scan
scan_offers s m now [] first = some (exhausted first)
scan_offers s m now (net_unreachable ∷ rest) first = some aborted
scan_offers s m now (provider_error ∷ rest) first = scan_offers s m now rest first
scan_offers s m now (offers es ∷ rest) first = do
  r ← scan_endpoints s m now es first
  after_provider r (scan_offers s m now rest)

-- `findBestEndpointLocked`: the heap and the choice, or `none` inside for an unreachable network.
-- The fallback shortens the interval of the object that it returns.
abbrev pub shorten : List Active → ℕ → List Active
shorten [] i = []
shorten (a ∷ rest) zero = record a { test_interval = min_test_interval_failed } ∷ rest
shorten (a ∷ rest) (suc i) = a ∷ shorten rest i

abbrev pub fall_back : Manager → Choice → List Active × Choice
fall_back m (fresh a) = (m.heap, fresh (record a { test_interval = min_test_interval_failed }))
fall_back m (current i) = (shorten m.heap i, current i)

abbrev pub conclude : Settings → Manager → ℕ → Scan → Option (Option (List Active × Choice))
conclude s m now (selected ae) = some (some (m.heap, ae))
conclude s m now aborted = some none
conclude s m now (exhausted first) = do
  ae ← new_active_endpoint s m now first
  some (some (fall_back m ae))

unfoldable pub find_best_endpoint :
    Settings → Manager → ℕ → List Offer → Option (Option (List Active × Choice))
find_best_endpoint s m now os = do r ← scan_offers s m now os none; conclude s m now r

-- What a test did: the manager, whether it failed, and the endpoint that `OnChange` was told of.
pub record Tested : Type 0 where
  pub manager : Manager
  pub failed : Bool
  pub changed : Option (Option Endpoint)

-- The endpoint of a chosen object, and the manager that has it as its active one.
abbrev pub chosen_endpoint : List Active → Choice → Option (Option Endpoint)
chosen_endpoint heap (current i) = do a ← get_elem? heap i; some a.endpoint
chosen_endpoint heap (fresh a) = some a.endpoint

abbrev pub activate : Manager → List Active → Choice → Manager
activate m heap (current i) = record m { heap = heap; active = some i }
activate m heap (fresh a) = record m { heap = heap ++ a ∷ []; active = some (length heap) }

-- `m.activeEndpoint == nil || !m.activeEndpoint.Endpoint.Equal(ae.Endpoint)`
unfoldable pub is_change : Option ℕ → List Active → Option Endpoint → Option Bool
is_change none heap e = some true
is_change (some i) heap e = do
  a ← get_elem? heap i
  same ← same_endpoint a.endpoint e
  some (not same)

unfoldable pub install : Manager → List Active → Choice → Option Tested
install m heap ae = do
  e ← chosen_endpoint heap ae
  change ← is_change m.active heap e
  some (
      if change
      then record { manager = activate m heap ae; failed = false; changed = some e }
      else record { manager = record m { heap = heap }; failed = false; changed = none })

abbrev pub after_find : Manager → Option (List Active × Choice) → Option Tested
after_find m none = some (record { manager = m; failed = true; changed = none })
after_find m (some (heap, ae)) = install m heap ae

-- `testLocked`; it panics without providers.
unfoldable pub test_locked : Settings → Manager → ℕ → List Offer → Option Tested
test_locked s m now [] = none
test_locked s m now (o ∷ os) = do r ← find_best_endpoint s m now (o ∷ os); after_find m r

-- `getActiveEndpoint`: an object, an error of the first test, no object, or no return at all where
-- the lock is held for ever.
pub data Got : Type 0 where
  got : ℕ → Got
  test_failed no_endpoint blocked : Got

-- The last step under the lock. An error of the first test returns with the lock held.
abbrev pub after_first_test : Tested → Manager × Got
after_first_test t =
    if t.failed
    then (record t.manager { locked = true }, test_failed)
    else elim t.manager.active [ none ↦ (t.manager, no_endpoint) | some i ↦ (t.manager, got i) ]

-- The init endpoint is used with a zero `lastTest`, so that the first request tests.
abbrev pub start_with : Settings → Manager → Endpoint → Manager × Got
start_with s m e = (
  record m { heap = m.heap ++ new_active s 0 (some e) ∷ []; active = some (length m.heap) },
  got (length m.heap),
)

abbrev pub first_active :
    Settings → Manager → ℕ → List Offer → Option Endpoint → Option (Manager × Got)
first_active s m now os (some e) = some (start_with s m e)
first_active s m now os none = do t ← test_locked s m now os; some (after_first_test t)

unfoldable pub get_active_endpoint : Settings → Manager → ℕ → List Offer → Option (Manager × Got)
get_active_endpoint s m now os =
    if m.locked
    then some (m, blocked)
    else elim m.active [ some i ↦ some (m, got i) | none ↦ first_active s m now os s.init_endpoint ]
