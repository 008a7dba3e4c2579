-- ===== src/Endpoint/Request/Errors.antt =====
-- The recovery test of resolver/endpoint/manager.go is started by the error that makes the run of
-- consecutive errors as long as the threshold.
use nextdns.Prelude.{
  Bool, List, [], arith, false, refl, sym, true, ℕ, ◌%◌, ◌+◌, ◌<◌, ◌^◌, ◌↔◌, ◌∙◌, ◌∷◌, ◌≡◌,
}
use nextdns.Endpoint.Manager.{Active, Settings}
use nextdns.Endpoint.Request.{after_action, next_error, set_testing, threshold}

-- The results of requests, the last one first, and the object that they leave.
unfoldable pub after_actions : Settings → ℕ → Active → List Bool → Active
after_actions s now a [] = a
after_actions s now a (ok ∷ earlier) = (after_action s (after_actions s now a earlier) now ok).0

-- How many errors the results end with, if `k` went before them.
abbrev pub run_of_errors : ℕ → List Bool → ℕ
run_of_errors k [] = k
run_of_errors k (true ∷ earlier) = 0
run_of_errors k (false ∷ earlier) = run_of_errors k earlier + 1

counter-step :
    (s : Settings) (a : Active) (now k : ℕ)
    → a.consecutive_errors ≡ k % 2 ^ 32
    → (after_action s a now false).0.consecutive_errors ≡ (k + 1) % 2 ^ 32
unfolding after_action
counter-step s a now k h = ground arith

counter-after_actions :
    (s : Settings) (now : ℕ) (a : Active) (results : List Bool)
    → a.consecutive_errors < 2 ^ 32
    → (after_actions s now a results).consecutive_errors
      ≡ run_of_errors a.consecutive_errors results % 2 ^ 32
unfolding after_actions
counter-after_actions s now a [] h = omega arith
counter-after_actions s now a (true ∷ earlier) h = unfold after_action in refl
counter-after_actions s now a (false ∷ earlier) h =
    counter-step s (after_actions s now a earlier) now (run_of_errors a.consecutive_errors earlier)
      (counter-after_actions s now a earlier h)

success-no_test : (s : Settings) (a : Active) (now : ℕ) → (after_action s a now true).1 ≡ false
unfolding after_action
success-no_test s a now = refl

error-test_iff :
    (s : Settings) (a : Active) (now : ℕ)
    → ((after_action s a now false).1 ≡ true) ↔ ((next_error a ≡ threshold s) × (a.testing ≡ false))
unfolding after_action set_testing
error-test_iff s a now = ground arith

-- After any results, the counter is the length of the run of errors that they end with, as a
-- `uint32`. A request starts a recovery test exactly when it fails, that run reaches the threshold,
-- and no test is running.
pub recovery_iff :
    (s : Settings) (now : ℕ) (a : Active) (results : List Bool) (ok : Bool)
    → a.consecutive_errors < 2 ^ 32
    → ((after_actions s now a results).consecutive_errors
        ≡ run_of_errors a.consecutive_errors results % 2 ^ 32)
      × (((after_action s (after_actions s now a results) now ok).1 ≡ true) ↔ (
          (ok ≡ false)
          × (run_of_errors a.consecutive_errors (ok ∷ results) % 2 ^ 32 ≡ threshold s)
          × ((after_actions s now a results).testing ≡ false)))
recovery_iff s now a results true h = (
  counter-after_actions s now a results h,
  (λ e. absurd (cc (success-no_test s (after_actions s now a results) now)), λ e. absurd (cc)),
)
recovery_iff s now a results false h =
    let b = after_actions s now a results in
    let count = counter-after_actions s now a results h in
    let next : next_error b ≡ run_of_errors a.consecutive_errors (false ∷ results) % 2 ^ 32 =
      omega (arith, count) in
    (
      count,
      (
        λ e. let (reached, idle) = (error-test_iff s b now).0 e in (refl, sym next ∙ reached, idle),
        λ (f, reached, idle). (error-test_iff s b now).1 (next ∙ reached, idle),
      ),
    )
