-- ===== src/Endpoint/Request.antt =====
-- The methods of `activeEnpoint` in resolver/endpoint/manager.go: requests on an endpoint, and the
-- tests that they start. A critical section is one function; `Single` lets others come between them.
pub mod Errors
pub mod Single
use nextdns.Prelude.{Bool, false, if◌then◌else◌, ltb, not, true, ℕ, ◌%◌, ◌&&◌, ◌+◌, ◌-◌, ◌==◌, ◌^◌}
use nextdns.Endpoint.Manager.{Active, Settings, default_error_threshold}

-- `testTimeExceededLocked`, with the clock read before the step
unfoldable pub test_time_exceeded : Active → ℕ → Bool
test_time_exceeded a now = ltb a.test_interval (now - a.last_test)

-- `shouldTest` up to `e.mu.RUnlock()`: whether a test is due, seen under the lock for reading.
unfoldable pub looks_due : Active → ℕ → Bool
unfolding test_time_exceeded
looks_due a now = not a.testing && test_time_exceeded a now

-- `shouldTest` behind `e.mu.Lock()`: the first request that finds the interval over resets the timer.
-- The flag is not looked at again.
unfoldable pub claim_test : Active → ℕ → Active × Bool
unfolding test_time_exceeded
claim_test a now =
    if test_time_exceeded a now then (record a { last_test = now }, true) else (a, false)

-- `shouldTest` where nothing comes between its two critical sections
unfoldable pub should_test : Active → ℕ → Active × Bool
unfolding looks_due claim_test
should_test a now = if looks_due a now then claim_test a now else (a, false)

unfoldable pub bool_eq : Bool → Bool → Bool
bool_eq true b = b
bool_eq false b = not b

-- `setTesting`
unfoldable pub set_testing : Active → Bool → Bool → ℕ → Active × Bool
unfolding bool_eq
set_testing a testing reset_timer now = if bool_eq a.testing testing then (a, false) else (
  record a { last_test = if reset_timer then now else a.last_test; testing = testing },
  true,
)

-- `test`: whether a test was started
unfoldable pub test : Active → ℕ → Active × Bool
unfolding set_testing
test a now = set_testing a true false now

-- `uint32(errThreshold)`, where 0 stands for the default
unfoldable pub threshold : Settings → ℕ
threshold s =
    (if s.error_threshold == 0 then default_error_threshold else s.error_threshold) % 2 ^ 32

-- `do` up to the action, where nothing comes between: the opportunistic test
unfoldable pub before_action : Active → ℕ → Active × Bool
unfolding should_test test
before_action a now = let (a', due) = should_test a now in if due then test a' now else (a', false)

-- The counter after an error, an atomic addition of `uint32`
abbrev pub next_error : Active → ℕ
next_error a = (a.consecutive_errors + 1) % 2 ^ 32

-- `do` behind the action: a success clears the counter, and the error that reaches the threshold
-- starts a recovery test.
unfoldable pub after_action : Settings → Active → ℕ → Bool → Active × Bool
unfolding threshold test
after_action s a now true = (record a { consecutive_errors = 0 }, false)
after_action s a now false =
    let a' = record a { consecutive_errors = next_error a } in
    if next_error a == threshold s then test a' now else (a', false)
