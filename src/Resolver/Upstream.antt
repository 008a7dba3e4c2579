-- ===== src/Resolver/Upstream.antt =====
-- `DNS.Resolve` of resolver/resolver.go, over the manager of endpoints and the two transports. run.go
-- gives both transports the same cache and the same limits. What the network answers to an endpoint,
-- and the offers of the providers to a first test, are inputs.
pub mod Runs
pub mod Shared
use nextdns.Prelude.{
  Bool, Bytes, List, Option, [], false, get_elem?, none, not, set, some, true, ℕ, ◌%◌, ◌+◌, ◌>>=◌,
  ◌^◌,
}
use nextdns.Query.{Query}
use nextdns.Endpoint.{Endpoint, dns, doh}
use nextdns.Endpoint.Manager.{
  Active, Got, Manager, Offer, Settings, blocked, get_active_endpoint, got, no_endpoint,
  test_failed,
}
use nextdns.Endpoint.Request.{after_action, before_action}
use nextdns.Resolver.Cacher.{Cacher, Limits, ResolveInfo}
use nextdns.Resolver.Dns53
use nextdns.Resolver.Doh

-- The network: a round trip to a DoH endpoint, and datagrams of a DNS server.
pub record World : Type 0 where
  pub round_trip : Endpoint → Doh.RoundTrip
  pub datagrams : Bytes → Dns53.Network

-- A query with the URL and the profile that `GetProfileURL` gives for it.
pub record Asked : Type 0 where
  pub query : Query
  pub url : Bytes
  pub profile : Bytes

abbrev pub no_info : ResolveInfo
no_info = record { transport = []; profile = []; from_cache = false }

-- `CacheStats`
pub record CacheStats : Type 0 where
  pub hit : ℕ
  pub miss : ℕ

-- `atomic.AddUint32(&r.cacheStats.Hit, 1)` or of `Miss`
unfoldable pub count : CacheStats → Bool → Bool → CacheStats
count s true from_cache = s
count s false true = record s { hit = (s.hit + 1) % 2 ^ 32 }
count s false false = record s { miss = (s.miss + 1) % 2 ^ 32 }

abbrev pub is_error {ℓ} : {E : Type ℓ} → Option E → Bool
is_error none = false
is_error (some e) = true

module _ (c : Cacher) (l : Limits) where
  -- What a transport brings, with the cache and the times of the configurations it leaves.
  pub record Ran : Type 0 where
    pub buf : Bytes
    pub n : ℕ
    pub info : ResolveInfo
    pub failed : Bool
    pub doh_state : Doh.State c

  -- `DNS`; the cache is that of the state of the DoH transport.
  pub record Dns : Type 0 where
    pub manager : Manager
    pub doh_state : Doh.State c
    pub stats : CacheStats

  abbrev pub ran_doh : Doh.Outcome c → Ran
  ran_doh o = record {
    buf = o.buf;
    n = o.n;
    info = o.info;
    failed = is_error o.error;
    doh_state = o.state;
  }

  abbrev pub ran_dns : Doh.State c → Dns53.Outcome c → Ran
  ran_dns s o = record {
    buf = o.buf;
    n = o.n;
    info = o.info;
    failed = is_error o.error;
    doh_state = record s { cache = o.cache };
  }

  -- The function that is given to `Do`: the switch over the kinds of endpoints.
  unfoldable pub act : World → Doh.State c → Asked → ℕ → Bytes → Option Endpoint → Option Ran
  act w s a now buf none =
      some (record { buf = buf; n = 0; info = no_info; failed = true; doh_state = s })
  act w s a now buf (some (doh hostname path bootstrap alpn)) = do
    o ←
        Doh.resolve c l s a.url a.profile a.query now
          (w.round_trip (doh hostname path bootstrap alpn)) buf
    some (ran_doh o)
  act w s a now buf (some (dns addr)) = do
    o ← Dns53.resolve c l s.cache a.query now (w.datagrams addr) buf
    some (ran_dns s o)

  -- What the caller gets, and the state that is left; `tests` tells whether an opportunistic test and
  -- a recovery test were started.
  pub record Answer : Type 0 where
    pub buf : Bytes
    pub n : ℕ
    pub info : ResolveInfo
    pub failed : Bool
    pub tests : Bool × Bool
    pub state : Dns

  pub data Result : Type 0 where
    answered : Answer → Result
    waits_forever : Result

  -- `do` of an active endpoint, behind which the counters are changed.
  abbrev pub finish : Settings → Dns → Manager → ℕ → ℕ → Active → Bool → Ran → Answer
  finish s d m now i a opportunistic r =
      let (a', recovery) = after_action s a now (not r.failed) in
      record {
        buf = r.buf;
        n = r.n;
        info = r.info;
        failed = r.failed;
        tests = (opportunistic, recovery);
        state = record {
          manager = record m { heap = set m.heap i a' };
          doh_state = r.doh_state;
          stats = count d.stats r.failed r.info.from_cache;
        };
      }

  abbrev pub do_action :
      Settings → World → Dns → Manager → Asked → ℕ → Bytes → ℕ → Option Active → Option Result
  do_action s w d m a now buf i none = none
  do_action s w d m a now buf i (some active) =
      let (active', opportunistic) = before_action active now in
      do
        r ← act w d.doh_state a now buf active'.endpoint
        some (answered (finish s d m now i active' opportunistic r))

  -- `Manager.Do` with an error before the action
  abbrev pub refuse : Dns → Manager → Bytes → Result
  refuse d m buf = answered (record {
    buf = buf;
    n = 0;
    info = no_info;
    failed = true;
    tests = (false, false);
    state = record d { manager = m };
  })

  abbrev pub with_endpoint :
      Settings → World → Dns → Asked → ℕ → Bytes → Manager × Got → Option Result
  with_endpoint s w d a now buf (m, got i) = do_action s w d m a now buf i (get_elem? m.heap i)
  with_endpoint s w d a now buf (m, test_failed) = some (refuse d m buf)
  with_endpoint s w d a now buf (m, no_endpoint) = some (refuse d m buf)
  with_endpoint s w d a now buf (m, blocked) = some waits_forever

  -- `Resolve`; the outer `none` is a panic.
  unfoldable pub resolve : Settings → World → Dns → Asked → ℕ → List Offer → Bytes → Option Result
  resolve s w d a now os buf = do
    g ← get_active_endpoint s d.manager now os
    with_endpoint s w d a now buf g
