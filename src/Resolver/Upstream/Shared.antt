-- ===== src/Resolver/Upstream/Shared.antt =====
-- `DNS.Resolve` of resolver/resolver.go with an active endpoint: the answer, the counters, and the cache
-- that plain DNS and DoH share.
use nextdns.Prelude.{
  Bool, Bytes, List, Option, ap, arith, false, get_elem?, if◌then◌else◌, inl, inr, length, none,
  some, sym, true, ℕ, ◌%◌, ◌+◌, ◌<◌, ◌^◌, ◌∙◌, ◌≡◌, ◌≤◌, ◌⊎◌,
}
use nextdns.Endpoint.{Endpoint}
use nextdns.Endpoint.Manager.{Active, Offer, Settings, get_active_endpoint}
use nextdns.Endpoint.Request.{before_action, claim_test, looks_due, set_testing, should_test, test}
use nextdns.Resolver.Cache.{CacheKey, CacheValue}
use nextdns.Resolver.Cacher.{Cacher, Limits}
use nextdns.Resolver.Upstream.{
  Answer, Asked, CacheStats, Dns, World, answered, count, finish, resolve,
}
use nextdns.Resolver.Upstream.Runs.{Grows, Holds, act-IsRun, key_at}

-- A success is counted once, a failure not at all.
count_sum :
    (s : CacheStats) (failed from_cache : Bool)
    → ((count s failed from_cache).hit + (count s failed from_cache).miss) % 2 ^ 32
      ≡ (s.hit + s.miss + (if failed then 0 else 1)) % 2 ^ 32
unfolding count
count_sum s true b = omega arith
count_sum s false true = omega arith
count_sum s false false = omega arith

-- The opportunistic test leaves the endpoint as it is.
before_action_endpoint : (a : Active) (now : ℕ) → (before_action a now).0.endpoint ≡ a.endpoint
unfolding before_action should_test looks_due claim_test test set_testing
before_action_endpoint a now = ground arith

module _ (c : Cacher) (l : Limits) where
  open c use {Store, get, add}

  -- What the cache has under a key.
  abbrev pub cached_in : Option Store → CacheKey → Option CacheValue
  cached_in none k = none
  cached_in (some st) k = get st k

  cached_at :
      (s : Option Store) (st : Store) (k : CacheKey) (v : CacheValue)
      → s ≡ some st
      → get st k ≡ some v
      → cached_in s k ≡ some v
  cached_at s st k v on found = ap (λ x. cached_in x k) on ∙ found

  grown :
      (s s' : Option Store) (key k : CacheKey) (v : CacheValue)
      → Grows c l s s' key
      → cached_in s' k ≡ some v
      → (cached_in s k ≡ some v) ⊎ (k ≡ key)
  grown s s' key k v (inl same) h = inl (ap (λ x. cached_in x k) (sym same) ∙ h)
  grown s s' key k v (inr (st, w, on, e)) h =
      more (c.get-add st key k w v (ap (λ x. cached_in x k) (sym e) ∙ h))
    where
      more : ((key ≡ k) × (w ≡ v)) ⊎ (get st k ≡ some v) → (cached_in s k ≡ some v) ⊎ (k ≡ key)
      more (inl (same, _)) = inr (sym same)
      more (inr old) = inl (cached_at s st k v on old)

  -- The answer of a call on an active endpoint: the buffer keeps its length; a success is counted
  -- once; a hit holds an entry that the cache had under the key of the endpoint's transport, with the
  -- id of the query and the TTLs that are left; and whatever the
  -- cache has afterwards it had before, or it is under that key.
  pub record IsAnswered (d : Dns c l) (a : Asked) (now : ℕ) (e : Endpoint) (buf : Bytes)
      (r : Answer c l) : Type 0 where
    pub buffer : length r.buf ≡ length buf
    pub within : r.n ≤ length buf
    pub counted :
        (r.state.stats.hit + r.state.stats.miss) % 2 ^ 32
        ≡ (d.stats.hit + d.stats.miss + (if r.failed then 0 else 1)) % 2 ^ 32
    pub hit :
        r.failed ≡ false
        → r.info.from_cache ≡ true
        → (v : CacheValue) × (cached_in d.doh_state.cache (key_at c l a e) ≡ some v)
          × Holds c l a now v r.n r.buf
    pub stored :
        (k : CacheKey) (v : CacheValue)
        → cached_in r.state.doh_state.cache k ≡ some v
        → (cached_in d.doh_state.cache k ≡ some v) ⊎ (k ≡ key_at c l a e)

  -- With the lock free and an active endpoint, a call always returns, whatever the network does: the
  -- buffer keeps its length, and a success is counted once, a failure not at all. An answer that it
  -- says is from the cache is an entry that the cache had under the key of the endpoint's transport, with
  -- the id of the query and what is left of its TTLs, and
  -- nothing is added to the cache under any other key.
  pub resolve-IsAnswered :
      (s : Settings) (w : World) (d : Dns c l) (a : Asked) (now : ℕ) (os : List Offer) (buf : Bytes)
      (i : ℕ) (active : Active) (e : Endpoint)
      → d.manager.locked ≡ false
      → d.manager.active ≡ some i
      → get_elem? d.manager.heap i ≡ some active
      → active.endpoint ≡ some e
      → a.query.id < 2 ^ 16
      → 3 ≤ length buf
      → (r : Answer c l) × (resolve c l s w d a now os buf ≡ some (answered r))
        × IsAnswered d a now e buf r
  unfolding resolve get_active_endpoint
  resolve-IsAnswered s w d a now os buf i active e free on at has small big =
      let (active', opportunistic) = before_action active now in
      let same = before_action_endpoint active now ∙ has in
      let (r, ran, ok) = act-IsRun c l w d.doh_state a now buf e small big in
      (
        finish c l s d d.manager now i active' opportunistic r,
        simp (free, on, at, same, ran),
        record {
          buffer = ok.buffer;
          within = ok.within;
          counted = count_sum d.stats r.failed r.info.from_cache;
          hit = λ fine cached.
              let (st, v, there, found, held) = ok.hit fine cached in
              (v, cached_at _ st (key_at c l a e) v there found, held);
          stored = λ k v. grown d.doh_state.cache r.doh_state.cache (key_at c l a e) k v ok.grows;
        },
      )
