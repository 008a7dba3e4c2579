-- ===== src/Resolver/Upstream/Runs.antt =====
-- One call of `DNS.Resolve` in resolver/resolver.go on an active endpoint: what it answers, and what
-- it leaves in the cache that the two transports share.
use nextdns.Prelude.{
  >>=-eq-some, Bool-cases, Bytes, Option, [], ap, false, inl, inr, length, ltb, none, refl, some,
  some_inj, sym, take, true, ℕ, ◌<◌, ◌^◌, ◌∙◌, ◌≡◌, ◌≤◌, ◌⊎◌,
}
use nextdns.Resolver.Doh.{RoundTrip}
use nextdns.Resolver.Doh.Sound.{Effect}
use nextdns.Endpoint.{Endpoint, dns, doh}
use nextdns.Resolver.Upstream.{Asked, Ran, World, act, is_error, ran_dns, ran_doh}
use nextdns.Query.{Query}
use nextdns.Resolver.Cache.Walk.{aged, all_records}
use nextdns.Resolver.Cache.Response.{ageing, with_id}
use nextdns.Resolver.Cache.{Adjusted, CacheKey, CacheValue}
use nextdns.Resolver.Cacher.{Cacher, Limits, ResolveInfo, cap_response, key_of}
use nextdns.Resolver.Doh.Sound
use nextdns.Resolver.Dns53.Answers
use nextdns.Resolver.Dns53.{
  Error, Network, Outcome, Reply, after_look_up, ask, look_up, max_retries, read_loop, remember,
  settle, udp,
}
use nextdns.Resolver.Dns53
use nextdns.Resolver.Doh

module _ (c : Cacher) (l : Limits) where
  open c use {Store, get, add}

  -- What the server's answer leaves: the cache, with a new entry under the key of the query or not.
  abbrev pub Grows : Option Store → Option Store → CacheKey → Type 0
  Grows s s' k =
      (s' ≡ s) ⊎ ((st : Store) × (v : CacheValue) × (s ≡ some st) × (s' ≡ some (add st k v)))

  moved_Grows : (s s1 s' : Option Store) (k : CacheKey) → s1 ≡ s' → Grows s s' k → Grows s s1 k
  moved_Grows s s1 s' k e (inl h) = inl (e ∙ h)
  moved_Grows s s1 s' k e (inr (st, v, on, g)) = inr (st, v, on, e ∙ g)

  remember-Grows :
      (s : Option Store) (q : Query) (now : ℕ) (msg : Bytes)
      → Grows s (remember c s q now msg) (key_of [] q)
  unfolding remember
  remember-Grows none q now msg = inl refl
  remember-Grows (some st) q now msg = inr (st, _, refl, refl)

  same_cache : (o o' : Outcome c) → some o ≡ some o' → o'.cache ≡ o.cache
  same_cache o o' h = ap (λ (x : Outcome c). x.cache) (sym (some_inj h))

  settle-Grows :
      (s : Option Store) (q : Query) (now : ℕ) (info : ResolveInfo) (r : Reply) (e : Option Error)
      (o : Outcome c)
      → settle c l s q now info r e ≡ some o
      → Grows s o.cache (key_of [] q)
  settle-Grows s q now info r (some e) o h = inl (same_cache _ o h)
  settle-Grows s q now info r none o h =
      let (buf, e, h') = >>=-eq-some (cap_response l.max_ttl r.buf r.n) _ h in
      moved_Grows s o.cache _ (key_of [] q) (same_cache _ o h')
        (remember-Grows s q now (take r.n r.buf))

  ask-Grows :
      (s : Option Store) (q : Query) (now : ℕ) (net : Network) (buf : Bytes) (n : ℕ)
      (info : ResolveInfo) (o : Outcome c)
      → ask c l s q now net buf n info ≡ some o
      → Grows s o.cache (key_of [] q)
  unfolding ask
  ask-Grows s q now net buf n info o h = elim (Bool-cases net.dials) [
    | inr down ↦ inl (same_cache _ o (rw down at h))
    | inl up ↦ elim (Bool-cases net.writes) [
      | inr deaf ↦ inl (same_cache _ o (rw (up, deaf) at h))
      | inl sent ↦
          let (r, e, h') =
            >>=-eq-some (read_loop max_retries net.reads q.id 0 buf 0) _ (rw (up, sent) at h) in
          settle-Grows s q now info r r.error o h'
    ]
  ]

  dns53_resolve-Grows :
      (s : Option Store) (q : Query) (now : ℕ) (net : Network) (buf : Bytes) (o : Outcome c)
      → Dns53.resolve c l s q now net buf ≡ some o
      → Grows s o.cache (key_of [] q)
  unfolding Dns53.resolve
  dns53_resolve-Grows s q now net buf o h =
      let (hit, e, h') = >>=-eq-some (look_up c l s q now buf) _ h in found hit h'
    where
      found :
          (hit : Option Adjusted)
          → after_look_up c l s q now net buf hit ≡ some o
          → Grows s o.cache (key_of [] q)
      found none h' = ask-Grows s q now net buf 0 (udp c) o h'
      found (some r) h' = elim (Bool-cases (ltb 0 r.min_ttl)) [
        | inl fresh ↦ inl (same_cache _ o (rw fresh at h'))
        | inr stale ↦ ask-Grows s q now net r.buf r.n _ o (rw stale at h')
      ]

  doh_resolve-Grows :
      (s : Doh.State c) (url : Bytes) (q : Query) (now : ℕ) (net : Doh.RoundTrip) (buf : Bytes)
      (o : Doh.Outcome c)
      → Sound.Effect c l s url q now net o
      → Grows s.cache o.state.cache (key_of url q)
  doh_resolve-Grows s url q now net buf o (Sound.nothing same) =
      inl (ap (λ (x : Doh.State c). x.cache) same)
  doh_resolve-Grows s url q now net buf o (Sound.stored st res on sent ok fine e) =
      inr (st, _, on, ap (λ (x : Doh.State c). x.cache) e)

  -- The key under which the transport of an endpoint looks and stores.
  abbrev pub key_at : Asked → Endpoint → CacheKey
  key_at a (doh hostname path bootstrap alpn) = key_of a.url a.query
  key_at a (dns addr) = key_of [] a.query

  -- The buffer holds an entry of the cache, under the id of the query and with the TTLs left.
  abbrev pub Holds : Asked → ℕ → CacheValue → ℕ → Bytes → Type 0
  Holds a now v n buf =
      take n buf
      ≡ aged (ageing v l.max_age l.max_ttl now) (with_id v.msg a.query.id) (all_records v.msg)

  holds :
      (a : Asked) (now : ℕ) (v : CacheValue) (n n' : ℕ) (buf buf' : Bytes)
      → n ≡ n'
      → buf ≡ buf'
      → Holds a now v n' buf'
      → Holds a now v n buf
  holds a now v n n' buf buf' e f h = ap (λ i. take i buf) e ∙ ap (take n') f ∙ h

  -- An answer of a transport: the buffer keeps its length, a hit is what the cache had under the key,
  -- and the cache grows under that key alone.
  pub record IsRun (s : Doh.State c) (a : Asked) (now : ℕ) (buf : Bytes) (e : Endpoint)
      (r : Ran c l) : Type 0 where
    pub buffer : length r.buf ≡ length buf
    pub within : r.n ≤ length buf
    pub grows : Grows s.cache r.doh_state.cache (key_at a e)
    pub hit :
        r.failed ≡ false
        → r.info.from_cache ≡ true
        → (st : Store) × (v : CacheValue) × (s.cache ≡ some st)
          × (get st (key_at a e) ≡ some v)
          × Holds a now v r.n r.buf

  no_error {ℓ} : {E : Type ℓ} (o : Option E) → is_error o ≡ false → o ≡ none
  no_error none h = refl
  no_error (some e) h = cc

  pub act-IsRun :
      (w : World) (s : Doh.State c) (a : Asked) (now : ℕ) (buf : Bytes) (e : Endpoint)
      → a.query.id < 2 ^ 16
      → 3 ≤ length buf
      → (r : Ran c l) × (act c l w s a now buf (some e) ≡ some r) × IsRun s a now buf e r
  unfolding act
  act-IsRun w s a now buf (doh hostname path bootstrap alpn) small big =
      let net = w.round_trip (doh hostname path bootstrap alpn) in
      let (o, e, (ok, hit)) =
        Sound.doh_resolve-IsSound c l s a.url a.query now a.profile net buf big in
      (
        ran_doh c l o,
        rw e,
        record {
          buffer = ok.buffer;
          within = ok.within;
          grows = doh_resolve-Grows s a.url a.query now net buf o ok.effect;
          hit = λ fine cached.
              let k = hit (no_error o.error fine) cached in
              (
                k.store,
                k.entry,
                k.kept,
                k.found,
                holds a now k.entry o.n k.adjusted.n o.buf k.adjusted.buf k.given.0 k.given.1
                    k.served.content,
              );
        },
      )
  act-IsRun w s a now buf (dns addr) small big =
      let net = w.datagrams addr in
      let (o, e, (ok, hit)) = Answers.dns53_resolve-IsSound c l s.cache a.query now net small buf in
      (
        ran_dns c l s o,
        rw e,
        record {
          buffer = ok.buffer;
          within = ok.within;
          grows = dns53_resolve-Grows s.cache a.query now net buf o e;
          hit = λ fine cached.
              let k = hit (no_error o.error fine) cached in
              (
                k.store,
                k.entry,
                k.kept,
                k.found,
                holds a now k.entry o.n k.adjusted.n o.buf k.adjusted.buf k.given.0 k.given.1
                    k.served.content,
              );
        },
      )
