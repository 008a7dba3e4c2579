-- ===== src/Endpoint/Manager/Selection.antt =====
-- The endpoint that `findBestEndpointLocked` returns is the first healthy one.
use mathlib.Core.Path.{subst}
use nextdns.Prelude.{
  >>=-eq-some, All, Bool, List, Option, Option-cases, [], ap, false, if◌then◌else◌, inl, inr, none,
  refl, some, some_inj, sym, true, ℕ, ◌++◌, ◌>>=◌, ◌↔◌, ◌∙◌, ◌∷◌, ◌≡◌, ◌≢◌,
}
use nextdns.Endpoint.{Endpoint}
use nextdns.Endpoint.Manager.Installation.{
  Installs, IsActive, Picks, activate-IsActive, conclude-Installs,
}
use nextdns.Endpoint.Manager.{
  Active, Choice, Health, Manager, Offer, Scan, Settings, Tested, aborted, activate, after_find,
  after_provider, chosen_endpoint, conclude, current, exhausted, fall_back, find_best_endpoint,
  fresh, healthy, install, is_change, net_unreachable, new_active_endpoint, offers, or_first,
  provider_error, scan_endpoints, scan_offers, selected, test_locked, unhealthy, unreachable,
}

-- What the search meets, one after the other; a provider that fails otherwise is passed over.
pub data Event : Type 0 where
  tried : Endpoint → Health → Event
  no_network : Event

abbrev pub tries : List (Endpoint × Health) → List Event
tries [] = []
tries ((e, h) ∷ rest) = tried e h ∷ tries rest

unfoldable pub events : List Offer → List Event
events [] = []
events (net_unreachable ∷ rest) = no_network ∷ events rest
events (provider_error ∷ rest) = events rest
events (offers es ∷ rest) = tries es ++ events rest

abbrev pub IsUnhealthy : Event → Type 0
IsUnhealthy (tried e unhealthy) = Unit {0}
IsUnhealthy _ = ⊥

abbrev pub Aborts : Event → Type 0
Aborts (tried e unreachable) = Unit {0}
Aborts no_network = Unit {0}
Aborts _ = ⊥

-- The endpoint of the first event, or else the one that is known.
abbrev pub first_of_events : Option Endpoint → List Event → Option Endpoint
first_of_events (some e) evs = some e
first_of_events none [] = none
first_of_events none (tried e h ∷ evs) = some e
first_of_events none (no_network ∷ evs) = none

-- The object for an endpoint: the active one if it is equal to it, and else a new one.
abbrev pub IsFor : Settings → Manager → ℕ → Option Endpoint → Choice → Type 0
IsFor s m now e ae = new_active_endpoint s m now e ≡ some ae

-- Where the first event that is not an unhealthy endpoint lets the search end.
pub data Explains (s : Settings) (m : Manager) (now : ℕ) (first : Option Endpoint)
    (evs : List Event) : Scan → Type 0 where
  first_healthy :
      (pre post : List Event) (e : Endpoint) (ae : Choice)
      → evs ≡ pre ++ tried e healthy ∷ post
      → All IsUnhealthy pre
      → IsFor s m now (some e) ae
      → Explains s m now first evs (selected ae)
  cut_off :
      (pre post : List Event) (ev : Event)
      → evs ≡ pre ++ ev ∷ post
      → All IsUnhealthy pre
      → Aborts ev
      → Explains s m now first evs aborted
  none_healthy :
      (f : Option Endpoint)
      → All IsUnhealthy evs
      → f ≡ first_of_events first evs
      → Explains s m now first evs (exhausted f)

module _ (s : Settings) (m : Manager) (now : ℕ) where
  -- An unhealthy endpoint in front changes nothing but the first endpoint.
  Explains-cons :
      (first : Option Endpoint) (e : Endpoint) (evs : List Event) {r : Scan}
      → Explains s m now (or_first first e) evs r
      → Explains s m now first (tried e unhealthy ∷ evs) r
  Explains-cons first e evs (first_healthy pre post e' ae eq un p) =
      first_healthy (tried e unhealthy ∷ pre) post e' ae (ap (◌∷◌ (tried e unhealthy)) eq) (tt, un)
        p
  Explains-cons first e evs (cut_off pre post ev eq un a) =
      cut_off (tried e unhealthy ∷ pre) post ev (ap (◌∷◌ (tried e unhealthy)) eq) (tt, un) a
  Explains-cons first e evs (none_healthy f un eq) =
      none_healthy f (tt, un) (eq ∙ first_cons first e evs)
    where
      first_cons :
          (first : Option Endpoint) (e : Endpoint) (evs : List Event)
          → first_of_events (or_first first e) evs ≡ first_of_events first (tried e unhealthy ∷ evs)
      first_cons none e evs = refl
      first_cons (some x) e evs = refl

  -- The endpoints of one provider, and what the search does behind them.
  scan_endpoints-Explains :
      (es : List (Endpoint × Health)) (first : Option Endpoint) (evs : List Event)
      (k : Option Endpoint → Option Scan) {r : Scan}
      → ((f : Option Endpoint) → k f ≡ some r → Explains s m now f evs r)
      → (scan_endpoints s m now es first >>= λ x. after_provider x k) ≡ some r
      → Explains s m now first (tries es ++ evs) r
  unfolding scan_endpoints
  scan_endpoints-Explains [] first evs k rest h = rest first h
  scan_endpoints-Explains ((e, healthy) ∷ es) first evs k {r} rest h =
      elim (Option-cases (new_active_endpoint s m now (some e))) [
        | inl fault ↦ let h' = rw fault at h in absurd (cc)
        | inr (ae, p) ↦
            let h' = rw p at h in
            let q : selected ae ≡ r = cc in
            rw (← q) (first_healthy [] (tries es ++ evs) e ae refl tt p)
      ]
  scan_endpoints-Explains ((e, unreachable) ∷ es) first evs k {r} rest h =
      elim (Option-cases (new_active_endpoint s m now (some e))) [
        | inl fault ↦ let h' = rw fault at h in absurd (cc)
        | inr (ae, p) ↦
            let h' = rw p at h in
            let q : aborted ≡ r = cc in
            rw (← q) (cut_off [] (tries es ++ evs) (tried e unreachable) refl tt tt)
      ]
  scan_endpoints-Explains ((e, unhealthy) ∷ es) first evs k {r} rest h =
      elim (Option-cases (new_active_endpoint s m now (some e))) [
        | inl fault ↦ let h' = rw fault at h in absurd (cc)
        | inr (ae, p) ↦
            Explains-cons first e (tries es ++ evs)
              (scan_endpoints-Explains es (or_first first e) evs k rest (rw p at h))
      ]

  scan_offers-Explains :
      (os : List Offer) (first : Option Endpoint) {r : Scan}
      → scan_offers s m now os first ≡ some r
      → Explains s m now first (events os) r
  unfolding scan_offers events
  scan_offers-Explains [] first {r} h =
      let q : exhausted first ≡ r = cc in rw (← q) (none_healthy first tt (nothing_first first))
    where
      nothing_first : (f : Option Endpoint) → f ≡ first_of_events f []
      nothing_first none = refl
      nothing_first (some e) = refl
  scan_offers-Explains (net_unreachable ∷ os) first {r} h =
      let q : aborted ≡ r = cc in rw (← q) (cut_off [] (events os) no_network refl tt tt)
  scan_offers-Explains (provider_error ∷ os) first h = scan_offers-Explains os first h
  scan_offers-Explains (offers es ∷ os) first h =
      scan_endpoints-Explains es first (events os) (scan_offers s m now os)
        (λ f q. scan_offers-Explains os f q) h

-- What a test leaves: after an unreachable network the manager is as it was; otherwise an
-- endpoint that is reported as a change is the active one, and with no report the active object
-- stays.
pub record IsTested (m : Manager) (r : Scan) (t : Tested) : Type 0 where
  pub failure : (t.failed ≡ true) ↔ (r ≡ aborted)
  pub untouched : t.failed ≡ true → t.manager ≡ m
  pub unlocked : t.manager.locked ≡ m.locked
  pub change : (e : Option Endpoint) → t.changed ≡ some e → IsActive t.manager e
  pub no_change : t.changed ≡ none → t.manager.active ≡ m.active

activate-locked :
    (m : Manager) (heap : List Active) (ae : Choice) → (activate m heap ae).locked ≡ m.locked
activate-locked m heap (current i) = refl
activate-locked m heap (fresh a) = refl

change-IsTested :
    (m : Manager) (heap : List Active) (ae : Choice) (r : Scan) (e : Option Endpoint) (b : Bool)
    → r ≢ aborted
    → chosen_endpoint heap ae ≡ some e
    → IsTested m r (
        if b
        then record { manager = activate m heap ae; failed = false; changed = some e }
        else record { manager = record m { heap = heap }; failed = false; changed = none })
change-IsTested m heap ae r e true ne p = record {
  failure = (λ q. absurd (cc), λ q. absurd (ne q));
  untouched = λ q. absurd (cc);
  unlocked = activate-locked m heap ae;
  change = λ e' q. activate-IsActive m heap ae e' (p ∙ q);
  no_change = λ q. absurd (cc);
}
change-IsTested m heap ae r e false ne p = record {
  failure = (λ q. absurd (cc), λ q. absurd (ne q));
  untouched = λ q. absurd (cc);
  unlocked = refl;
  change = λ e' q. absurd (cc);
  no_change = λ q. refl;
}

install-IsTested :
    (m : Manager) (heap : List Active) (ae : Choice) (r : Scan) (t : Tested)
    → r ≢ aborted
    → install m heap ae ≡ some t
    → IsTested m r t
unfolding install
install-IsTested m heap ae r t ne h =
    let (e, p, q) = >>=-eq-some (chosen_endpoint heap ae) _ h in
    let (b, u, v) = >>=-eq-some (is_change m.active heap e) _ q in
    subst (IsTested m r) (some_inj v) (change-IsTested m heap ae r e b ne p)

conclude-IsTested :
    (s : Settings) (m : Manager) (now : ℕ) (r : Scan) (t : Tested)
    → (conclude s m now r >>= after_find m) ≡ some t
    → IsTested m r t
conclude-IsTested s m now (selected ae) t h =
    install-IsTested m m.heap ae (selected ae) t (λ q. cc) h
conclude-IsTested s m now aborted t h = subst (IsTested m aborted) (some_inj h) (record {
  failure = (λ q. refl, λ q. refl);
  untouched = λ q. refl;
  unlocked = refl;
  change = λ e q. absurd (cc);
  no_change = λ q. refl;
})
conclude-IsTested s m now (exhausted first) t h =
    let (found, p, q) = >>=-eq-some (conclude s m now (exhausted first)) (after_find m) h in
    let (ae, u, v) = >>=-eq-some (new_active_endpoint s m now first) _ p in
    let (heap, ae') = fall_back m ae in
    install-IsTested m heap ae' (exhausted first) t (λ q. cc)
      (subst (λ x. after_find m x ≡ some t) (sym (some_inj v)) q)

-- A test that returns has searched the endpoints of the providers in order. It chose the first
-- healthy one, or stopped at an unreachable network, or met only unhealthy ones and knows the first
-- of them. After an unreachable network the manager is unchanged; otherwise the endpoint that was
-- chosen, or the first one where none is healthy, is its active one and reported to `OnChange`, unless
-- the active one is equal to it and stays.
pub test_locked-Explains :
    (s : Settings) (m : Manager) (now : ℕ) (os : List Offer) (t : Tested)
    → test_locked s m now os ≡ some t
    → (r : Scan) × Explains s m now none (events os) r
      × IsTested m r t
      × ((e : Option Endpoint) → Picks s m now r e → Installs t e)
unfolding test_locked find_best_endpoint
test_locked-Explains s m now [] t h = absurd (cc)
test_locked-Explains s m now (o ∷ os) t h =
    let (x, p, q) =
      >>=-eq-some (scan_offers s m now (o ∷ os) none >>= conclude s m now) (after_find m) h in
    let (r, u, v) = >>=-eq-some (scan_offers s m now (o ∷ os) none) (conclude s m now) p in
    (
      r,
      scan_offers-Explains s m now (o ∷ os) none u,
      conclude-IsTested s m now r t (rw v q),
      λ e picks. conclude-Installs s m now r t e (rw v q) picks,
    )
