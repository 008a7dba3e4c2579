-- ===== src/Endpoint/Request/Single.antt =====
-- One object of resolver/endpoint/manager.go under concurrent requests and tests.
use nextdns.Prelude.{Bool, arith, false, if◌then◌else◌, true, ℕ, ◌+◌, ◌-◌, ◌<◌, ◌==◌, ◌≡◌, ◌≤◌}
use nextdns.Endpoint.Manager.{Active, Settings}
use nextdns.Endpoint.Request.{claim_test, looks_due, next_error, set_testing, test, threshold}

-- The object; the requests that stand between the two critical sections of `shouldTest`; the calls of
-- `test` that have not come to `setTesting`; and the goroutines of `test` that have not come back.
pub record World : Type 0 where
  pub object : Active
  pub looked : ℕ
  pub due : ℕ
  pub running : ℕ

abbrev pub started : ℕ → Bool → ℕ
started n true = n + 1
started n false = n

-- The steps, each a critical section or an atomic operation: the two of `shouldTest`, `setTesting` of
-- a call of `test`, the end of an action with an error or without, and the end of a test.
pub data Step (s : Settings) : World → World → Type 0 where
  looks :
      (w : World) (now : ℕ)
      → looks_due w.object now ≡ true
      → Step s w (record w { looked = w.looked + 1 })
  claims :
      (w : World) (now : ℕ)
      → 0 < w.looked
      → Step s w (record w {
        object = (claim_test w.object now).0;
        looked = w.looked - 1;
        due = started w.due (claim_test w.object now).1;
      })
  starts :
      (w : World) (now : ℕ)
      → 0 < w.due
      → Step s w (record w {
        object = (test w.object now).0;
        due = w.due - 1;
        running = started w.running (test w.object now).1;
      })
  succeeds :
      (w : World) → Step s w (record w { object = record w.object { consecutive_errors = 0 } })
  fails :
      (w : World)
      → Step s w (record w {
        object = record w.object { consecutive_errors = next_error w.object };
        due = started w.due (next_error w.object == threshold s);
      })
  tested :
      (w : World) (now : ℕ) (passed : Bool)
      → 0 < w.running
      → Step s w
          (record w { object = (set_testing w.object false passed now).0; running = w.running - 1 })

pub data Reach (s : Settings) (w : World) : World → Type 0 where
  here : Reach s w w
  next : {u v : World} → Reach s w u → Step s u v → Reach s w v

-- One goroutine runs while the flag is set, and none else.
abbrev pub IsSingle : World → Type 0
IsSingle w = w.running ≡ (if w.object.testing then 1 else 0)

Step-IsSingle : {s : Settings} {u v : World} → Step s u v → IsSingle u → IsSingle v
unfolding claim_test test set_testing
Step-IsSingle (looks w now due) h = h
Step-IsSingle (claims w now pos) h = ground arith
Step-IsSingle (starts w now pos) h = ground arith
Step-IsSingle (succeeds w) h = h
Step-IsSingle (fails w) h = h
Step-IsSingle (tested w now passed pos) h = ground arith

-- However the critical sections of requests and of tests interleave, at most one test of an endpoint runs at a time, and the
-- flag `testing` tells whether one does.
pub Reach-IsSingle :
    {s : Settings} {w v : World} → IsSingle w → Reach s w v → IsSingle v × (v.running ≤ 1)
Reach-IsSingle {s} {w} h r = let q = go r in (q, ground arith)
  where
    go : {v : World} → Reach s w v → IsSingle v
    go here = h
    go (next r st) = Step-IsSingle st (go r)
