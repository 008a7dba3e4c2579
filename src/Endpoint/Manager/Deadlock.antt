-- ===== src/Endpoint/Manager/Deadlock.antt =====
-- The lock of the manager in `getActiveEndpoint` of resolver/endpoint/manager.go.
use nextdns.Endpoint.Manager.Selection.{test_locked-Explains}
use nextdns.Prelude.{
  >>=-eq-some, List, Option-cases, arith, false, inl, inr, length, none, some, some_inj, true, ℕ,
  ◌↔◌, ◌∙◌, ◌≡◌, ◌≢◌,
}
use nextdns.Endpoint.Manager.{
  Got, Manager, Offer, Settings, Tested, after_first_test, blocked, get_active_endpoint, got,
  test_failed, test_locked,
}

after_first_test-locked :
    (t : Tested) (m' : Manager) (g : Got)
    → t.manager.locked ≡ false
    → after_first_test t ≡ (m', g)
    → (m'.locked ≡ true) ↔ (g ≡ test_failed)
after_first_test-locked t m' g h e = ground arith

after_first_test-ne-blocked :
    (t : Tested) (m' : Manager) (g : Got) → after_first_test t ≡ (m', g) → g ≢ blocked
after_first_test-ne-blocked t m' g e = ground arith

-- With neither endpoint the call is a first test.
first_active-tests :
    (s : Settings) (m m' : Manager) (now : ℕ) (os : List Offer) (g : Got)
    → m.locked ≡ false
    → m.active ≡ none
    → s.init_endpoint ≡ none
    → get_active_endpoint s m now os ≡ some (m', g)
    → (t : Tested) × (test_locked s m now os ≡ some t) × (after_first_test t ≡ (m', g))
unfolding get_active_endpoint
first_active-tests s m m' now os g free off no_init h =
    let (t, p, q) =
      >>=-eq-some (test_locked s m now os) (λ t. some (after_first_test t))
        (simp (free, off, no_init) at h) in
    (t, p, some_inj q)

-- Whoever calls with the lock free gets an answer, and the lock is left held exactly when that
-- answer is the error of a first test, which only a manager with neither an active nor an init
-- endpoint makes. From then on every call waits for ever.
pub get_active_endpoint_deadlock :
    (s : Settings) (m m' : Manager) (now : ℕ) (os : List Offer) (g : Got)
    → m.locked ≡ false
    → get_active_endpoint s m now os ≡ some (m', g)
    → (g ≢ blocked)
      × ((m'.locked ≡ true) ↔ (g ≡ test_failed))
      × (g ≡ test_failed
          → (m.active ≡ none)
            × (s.init_endpoint ≡ none)
            × ((later : ℕ) (os' : List Offer)
                → get_active_endpoint s m' later os' ≡ some (m', blocked)))
unfolding get_active_endpoint
get_active_endpoint_deadlock s m m' now os g free h = elim (Option-cases m.active) [
  | inr (i, on) ↦
      let h' = some_inj (rw (free, on) at h) in
      let same : m'.locked ≡ false = cc in
      let e : g ≡ got i = cc in (λ b. cc, (λ l. absurd (cc), λ f. absurd (cc)), λ f. absurd (cc))
  | inl off ↦ elim (Option-cases s.init_endpoint) [
    | inr (x, init) ↦
        let h' = some_inj (rw (free, off, init) at h) in
        let same : m'.locked ≡ false = cc in
        let e : g ≡ got (length m.heap) = cc in
        (λ b. cc, (λ l. absurd (cc), λ f. absurd (cc)), λ f. absurd (cc))
    | inl no_init ↦
        let (t, p, q) = first_active-tests s m m' now os g free off no_init h in
        let (r, ex, ok, _) = test_locked-Explains s m now os t p in
        let locked_iff = after_first_test-locked t m' g (ok.unlocked ∙ free) q in
        (
          after_first_test-ne-blocked t m' g q,
          locked_iff,
          λ f. (off, no_init, λ later os'. rw (locked_iff.1 f)),
        )
  ]
]
