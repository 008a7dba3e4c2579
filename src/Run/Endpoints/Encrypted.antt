-- ===== src/Run/Endpoints/Encrypted.antt =====
-- When the manager that run.go sets up may move to plain DNS.
use nextdns.Prelude.{
  >>=-eq-some, All, Bool, Bytes, List, Option, Option-cases, [], arith, false, get_elem?,
  if◌then◌else◌, inl, inr, ltb, none, some, some_inj, suc, true, zero, ℕ, ◌++◌, ◌-◌, ◌∷◌, ◌≡◌, ◌≤◌,
}
use mathlib.Core.Path.{subst}
use nextdns.Endpoint.{Endpoint, dns, doh}
use nextdns.Endpoint.Manager.{
  Active, Choice, Health, Manager, Offer, Scan, Settings, Tested, aborted, activate, after_find,
  after_provider, chosen_endpoint, conclude, current, exhausted, fall_back, find_best_endpoint,
  fresh, healthy, install, is_change, net_unreachable, new_active, new_active_endpoint, offers,
  or_first, provider_error, same_endpoint, scan_endpoints, scan_offers, selected, shorten,
  test_locked, unhealthy, unreachable,
}
use nextdns.Run.Endpoints.{anycast1, anycast2, can_fallback, nextdns_offers, ten_minutes}

-- Queries to the endpoint are encrypted; a nil endpoint gets none.
abbrev pub IsEncrypted : Option Endpoint → Type 0
IsEncrypted none = Unit
IsEncrypted (some (doh hostname path bootstrap alpn)) = Unit
IsEncrypted (some (dns addr)) = ⊥

abbrev pub AllOffered : List (Endpoint × Health) → Type 0
AllOffered [] = Unit
AllOffered ((e, h) ∷ es) = IsEncrypted (some e) × AllOffered es

abbrev pub OfferIsEncrypted : Offer → Type 0
OfferIsEncrypted (offers es) = AllOffered es
OfferIsEncrypted net_unreachable = Unit
OfferIsEncrypted provider_error = Unit

abbrev pub HeapIsEncrypted : List Active → Type 0
HeapIsEncrypted as' = All (λ (a : Active). IsEncrypted a.endpoint) as'

abbrev ChoiceIsEncrypted : Choice → Type 0
ChoiceIsEncrypted (current i) = Unit
ChoiceIsEncrypted (fresh a) = IsEncrypted a.endpoint

abbrev ScanIsEncrypted : Scan → Type 0
ScanIsEncrypted (selected ae) = ChoiceIsEncrypted ae
ScanIsEncrypted aborted = Unit
ScanIsEncrypted (exhausted f) = IsEncrypted f

module _ (s : Settings) (m : Manager) (now : ℕ) where
  new_active_endpoint-IsEncrypted :
      (e : Option Endpoint) (ae : Choice)
      → IsEncrypted e
      → new_active_endpoint s m now e ≡ some ae
      → ChoiceIsEncrypted ae
  unfolding new_active_endpoint
  new_active_endpoint-IsEncrypted e ae enc h = elim (Option-cases m.active) [
    | inl off ↦ subst ChoiceIsEncrypted (some_inj (rw off at h)) enc
    | inr (i, on) ↦
        let (a, ea, h1) = >>=-eq-some (get_elem? m.heap i) _ (rw on at h) in
        let (same, es, h2) = >>=-eq-some (same_endpoint a.endpoint e) _ h1 in
        subst ChoiceIsEncrypted (some_inj h2) (either i same)
  ]
    where
      either :
          (i : ℕ) (same : Bool)
          → ChoiceIsEncrypted (if same then current i else fresh (new_active s now e))
      either i true = tt
      either i false = enc

  or_first-IsEncrypted :
      (f : Option Endpoint) (e : Endpoint)
      → IsEncrypted f
      → IsEncrypted (some e)
      → IsEncrypted (or_first f e)
  or_first-IsEncrypted none e hf he = he
  or_first-IsEncrypted (some f) e hf he = hf

  scan_endpoints-IsEncrypted :
      (es : List (Endpoint × Health)) (f : Option Endpoint) (r : Scan)
      → AllOffered es
      → IsEncrypted f
      → scan_endpoints s m now es f ≡ some r
      → ScanIsEncrypted r
  unfolding scan_endpoints
  scan_endpoints-IsEncrypted [] f r offered hf h = subst ScanIsEncrypted (some_inj h) hf
  scan_endpoints-IsEncrypted ((e, healthy) ∷ es) f r offered hf h =
      let (ae, p, h1) = >>=-eq-some (new_active_endpoint s m now (some e)) _ h in
      subst ScanIsEncrypted (some_inj h1) (new_active_endpoint-IsEncrypted (some e) ae offered.0 p)
  scan_endpoints-IsEncrypted ((e, unreachable) ∷ es) f r offered hf h =
      let (ae, p, h1) = >>=-eq-some (new_active_endpoint s m now (some e)) _ h in
      subst ScanIsEncrypted (some_inj h1) tt
  scan_endpoints-IsEncrypted ((e, unhealthy) ∷ es) f r offered hf h =
      let (ae, p, h1) = >>=-eq-some (new_active_endpoint s m now (some e)) _ h in
      scan_endpoints-IsEncrypted es (or_first f e) r offered.1
        (or_first-IsEncrypted f e hf offered.0) h1

  after_provider-IsEncrypted :
      (x : Scan) (k : Option Endpoint → Option Scan) (r : Scan)
      → ScanIsEncrypted x
      → ((f : Option Endpoint) → IsEncrypted f → k f ≡ some r → ScanIsEncrypted r)
      → after_provider x k ≡ some r
      → ScanIsEncrypted r
  after_provider-IsEncrypted (selected ae) k r hx rest h = subst ScanIsEncrypted (some_inj h) hx
  after_provider-IsEncrypted aborted k r hx rest h = subst ScanIsEncrypted (some_inj h) tt
  after_provider-IsEncrypted (exhausted f) k r hx rest h = rest f hx h

  scan_offers-IsEncrypted :
      (os : List Offer) (f : Option Endpoint) (r : Scan)
      → All OfferIsEncrypted os
      → IsEncrypted f
      → scan_offers s m now os f ≡ some r
      → ScanIsEncrypted r
  unfolding scan_offers
  scan_offers-IsEncrypted [] f r offered hf h = subst ScanIsEncrypted (some_inj h) hf
  scan_offers-IsEncrypted (net_unreachable ∷ os) f r offered hf h =
      subst ScanIsEncrypted (some_inj h) tt
  scan_offers-IsEncrypted (provider_error ∷ os) f r offered hf h =
      scan_offers-IsEncrypted os f r offered.1 hf h
  scan_offers-IsEncrypted (offers es ∷ os) f r offered hf h =
      let (x, p, h1) = >>=-eq-some (scan_endpoints s m now es f) _ h in
      after_provider-IsEncrypted x (scan_offers s m now os) r
        (scan_endpoints-IsEncrypted es f x offered.0 hf p)
        (λ f' hf' h'. scan_offers-IsEncrypted os f' r offered.1 hf' h') h1

  shorten-IsEncrypted :
      (as' : List Active) (i : ℕ) → HeapIsEncrypted as' → HeapIsEncrypted (shorten as' i)
  shorten-IsEncrypted [] i h = tt
  shorten-IsEncrypted (a ∷ as') zero h = (h.0, h.1)
  shorten-IsEncrypted (a ∷ as') (suc i) h = (h.0, shorten-IsEncrypted as' i h.1)

  -- The heap and the choice of a search.
  abbrev FoundIsEncrypted : Option (List Active × Choice) → Type 0
  FoundIsEncrypted none = Unit
  FoundIsEncrypted (some (heap, ae)) = HeapIsEncrypted heap × ChoiceIsEncrypted ae

  fall_back-IsEncrypted :
      (ae : Choice)
      → HeapIsEncrypted m.heap
      → ChoiceIsEncrypted ae
      → FoundIsEncrypted (some (fall_back m ae))
  fall_back-IsEncrypted (current i) heap h = (shorten-IsEncrypted m.heap i heap, tt)
  fall_back-IsEncrypted (fresh a) heap h = (heap, h)

  conclude-IsEncrypted :
      (x : Scan) (found : Option (List Active × Choice))
      → HeapIsEncrypted m.heap
      → ScanIsEncrypted x
      → conclude s m now x ≡ some found
      → FoundIsEncrypted found
  conclude-IsEncrypted (selected ae) found heap hx h =
      subst FoundIsEncrypted (some_inj h) (heap, hx)
  conclude-IsEncrypted aborted found heap hx h = subst FoundIsEncrypted (some_inj h) tt
  conclude-IsEncrypted (exhausted f) found heap hx h =
      let (ae, p, h1) = >>=-eq-some (new_active_endpoint s m now f) _ h in
      subst FoundIsEncrypted (some_inj h1)
        (fall_back-IsEncrypted ae heap (new_active_endpoint-IsEncrypted f ae hx p))

  activate-IsEncrypted :
      (heap : List Active) (ae : Choice)
      → HeapIsEncrypted heap
      → ChoiceIsEncrypted ae
      → HeapIsEncrypted (activate m heap ae).heap
  activate-IsEncrypted heap (current i) hh h = hh
  activate-IsEncrypted heap (fresh a) hh h = append heap hh
    where
      append : (as' : List Active) → HeapIsEncrypted as' → HeapIsEncrypted (as' ++ a ∷ [])
      append [] hs = (h, tt)
      append (x ∷ as') hs = (hs.0, append as' hs.1)

  after_find-IsEncrypted :
      (found : Option (List Active × Choice)) (t : Tested)
      → HeapIsEncrypted m.heap
      → FoundIsEncrypted found
      → after_find m found ≡ some t
      → HeapIsEncrypted t.manager.heap
  unfolding install
  after_find-IsEncrypted none t heap hf h =
      subst (λ (x : Tested). HeapIsEncrypted x.manager.heap) (some_inj h) heap
  after_find-IsEncrypted (some (hp, ae)) t heap hf h =
      let (e, p, h1) = >>=-eq-some (chosen_endpoint hp ae) _ h in
      let (change, q, h2) = >>=-eq-some (is_change m.active hp e) _ h1 in
      subst (λ (x : Tested). HeapIsEncrypted x.manager.heap) (some_inj h2) (either e change)
    where
      either :
          (e : Option Endpoint) (change : Bool)
          → (λ (x : Tested). HeapIsEncrypted x.manager.heap)
              (if change
                then record { manager = activate m hp ae; failed = false; changed = some e }
                else record { manager = record m { heap = hp }; failed = false; changed = none })
      either e true = activate-IsEncrypted hp ae hf.0 hf.1
      either e false = hf.0

  test_locked-IsEncrypted :
      (os : List Offer) (t : Tested)
      → All OfferIsEncrypted os
      → HeapIsEncrypted m.heap
      → test_locked s m now os ≡ some t
      → HeapIsEncrypted t.manager.heap
  unfolding test_locked find_best_endpoint
  test_locked-IsEncrypted [] t offered heap h = absurd (cc)
  test_locked-IsEncrypted (o ∷ os) t offered heap h =
      let (found, p, h1) = >>=-eq-some (find_best_endpoint s m now (o ∷ os)) _ h in
      let (x, q, p1) = >>=-eq-some (scan_offers s m now (o ∷ os) none) _ p in
      after_find-IsEncrypted found t heap
        (conclude-IsEncrypted x found heap (scan_offers-IsEncrypted (o ∷ os) none x offered tt q)
          p1)
        h1

-- Ten minutes after the start or the last change of the network, with the detection of captive portals
-- off, no test of the endpoints moves to plain DNS, whatever endpoints fail: no object of the manager
-- is a plain DNS server if none was before, and the HTTPS records name DoH endpoints.
pub test_locked_never_plain :
    (join_host_port : Bytes → Bytes → Bytes) (svc : Offer) (h1 h2 : Health) (ips : List Bytes)
    (s : Settings) (m : Manager) (startup now : ℕ) (t : Tested)
    → OfferIsEncrypted svc
    → HeapIsEncrypted m.heap
    → ten_minutes ≤ now - startup
    → test_locked s m now
        (nextdns_offers join_host_port svc h1 h2 (can_fallback false startup now) ips)
      ≡ some t
    → HeapIsEncrypted t.manager.heap
unfolding nextdns_offers can_fallback
test_locked_never_plain join_host_port svc h1 h2 ips s m startup now t doh_only heap late h =
    let over : ltb (now - startup) ten_minutes ≡ false = ground (arith, late) in
    test_locked-IsEncrypted s m now
      (svc ∷ offers ((anycast1, h1) ∷ (anycast2, h2) ∷ []) ∷ offers [] ∷ []) t
      (doh_only, ((tt, (tt, tt)), (tt, tt))) heap (simp over at h)
