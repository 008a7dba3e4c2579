-- ===== src/Resolver/Doh.antt =====
-- resolver/doh.go: one query over HTTPS, with the response cache in front of it. The HTTP client is
-- an input: what a round trip brings.
pub mod Reading
pub mod Content
pub mod Reload
pub mod Sound
use Reading.{Body, BodyRead, read_dns_response}
use nextdns.Prelude.{
  Bool, Bytes, Option, [], bytes_eq, codes, false, if◌then◌else◌, ltb, none, not, some, take, true,
  ℕ, ◌&&◌, ◌==◌, ◌>>=◌,
}
use nextdns.Resolver.Cache.{Adjusted, CacheValue, adjusted_response, type_ptr}
use nextdns.Query.{Query}
use nextdns.Resolver.Cacher.{Cacher, Limits, ResolveInfo, cap_response, key_of}

-- What a round trip brings: the status, the protocol, the parsed `X-Conf-Last-Modified` header if
-- it parses, and the body.
pub record Response : Type 0 where
  pub status : ℕ
  pub proto : Bytes
  pub conf_modified : Option ℕ
  pub body : Body

-- A request that cannot be built, a round trip that fails, or a response.
pub data RoundTrip : Type 0 where
  bad_request unreachable : RoundTrip
  responds : Response → RoundTrip

pub data Error : Type 0 where
  request round_trip bad_status read : Error

-- `lastModified`: the zero time where nothing is known.
abbrev pub Modified : Type 0
Modified = Bytes → ℕ

-- `updateLastMod`
unfoldable pub update_last_mod : Modified → Bytes → Option ℕ → Modified
update_last_mod known url none = known
update_last_mod known url (some t) = λ u. if ltb (known url) t && bytes_eq u url then t else known u

-- The URL of the query: `https://0.0.0.0` where none is configured.
unfoldable pub upstream_url : Bytes → Option Bytes → Bytes
upstream_url url none = if bytes_eq url [] then codes "https://0.0.0.0" else url
upstream_url url (some u) = if bytes_eq u [] then codes "https://0.0.0.0" else u

abbrev pub status_ok : ℕ
status_ok = 200

abbrev pub fresh_info : Bytes → ResolveInfo
fresh_info profile = record { transport = []; profile = profile; from_cache = false }

module _ (c : Cacher) where
  open c use {Store, get, add}

  pub record State : Type 0 where
    pub cache : Option Store
    pub modified : Modified

  pub record Outcome : Type 0 where
    pub buf : Bytes
    pub n : ℕ
    pub info : ResolveInfo
    pub error : Option Error
    pub state : State

  -- What `AdjustedResponse` did with an entry.
  abbrev pub adjust :
      Limits → Query → ℕ → Bytes → CacheValue → Option (Option (CacheValue × Adjusted))
  adjust l q now buf v = do
    r ← adjusted_response v buf q.id l.max_age l.max_ttl now
    some (some (v, r))

  -- The look into the cache.
  unfoldable pub look_up :
      Limits → State → Bytes → Query → ℕ → Bytes → Option (Option (CacheValue × Adjusted))
  look_up l s url q now buf = if q.qtype == type_ptr then some none else elim s.cache [
    | none ↦ some none
    | some st ↦ elim (get st (key_of url q)) [ none ↦ some none | some v ↦ adjust l q now buf v ]
  ]

  -- An entry is used if its TTL is in the future and the configuration did not change since.
  unfoldable pub is_usable : State → Bytes → CacheValue → Adjusted → Bool
  is_usable s url v r = ltb 0 r.min_ttl && ltb (s.modified url) v.time

  abbrev pub stamp : Query → ℕ → ℕ
  stamp q now = if q.qtype == type_ptr then 0 else now

  -- An entry is added, and the configuration's time goes forward with it.
  abbrev pub with_entry : State → Store → Bytes → Query → ℕ → Response → Bytes → State
  with_entry s st url q now res msg = record {
    cache =
        some (add st (key_of url q) (record { time = stamp q now; msg = msg; trans = res.proto }));
    modified = update_last_mod s.modified url res.conf_modified;
  }

  -- `if n > 0 && !truncated && err == nil && r.Cache != nil`
  unfoldable pub remember : State → Option Store → Bytes → Query → ℕ → Response → BodyRead → State
  remember s none url q now res b = s
  remember s (some st) url q now res b =
      if ltb 0 b.n && not b.truncated && not b.failed
      then with_entry s st url q now res (take b.n b.buf)
      else s

  abbrev pub read_error : Bool → Option Error
  read_error true = some read
  read_error false = none

  -- Behind the round trip, for a response with status 200.
  unfoldable pub accept :
      Limits → State → Bytes → Query → ℕ → ResolveInfo → Response → Bytes → Option Outcome
  accept l s url q now info res buf = do
    b ← read_dns_response res.body buf 0
    buf' ← (if ltb 0 b.n then cap_response l.max_ttl b.buf b.n else some b.buf)
    some (record {
      buf = buf';
      n = b.n;
      info = record info { transport = res.proto; from_cache = false };
      error = read_error b.failed;
      state = remember s s.cache url q now res b;
    })

  unfoldable pub ask :
      Limits → State → Bytes → Query → ℕ → RoundTrip → Bytes → ℕ → ResolveInfo → Option Outcome
  ask l s url q now bad_request buf n info =
      some (record { buf = buf; n = n; info = info; error = some request; state = s })
  ask l s url q now unreachable buf n info =
      some (record { buf = buf; n = n; info = info; error = some round_trip; state = s })
  ask l s url q now (responds res) buf n info =
      if res.status == status_ok
      then accept l s url q now info res buf
      else some (record { buf = buf; n = n; info = info; error = some bad_status; state = s })

  abbrev pub after_look_up :
      Limits
      → State
      → Bytes
      → Query
      → ℕ
      → RoundTrip
      → Bytes
      → ResolveInfo
      → Option (CacheValue × Adjusted)
      → Option Outcome
  after_look_up l s url q now net buf info none = ask l s url q now net buf 0 info
  after_look_up l s url q now net buf info (some (v, r)) =
      let info' : ResolveInfo = record info { transport = v.trans; from_cache = true } in
      if is_usable s url v r
      then some (record { buf = r.buf; n = r.n; info = info'; error = none; state = s })
      else ask l s url q now net r.buf r.n info'

  -- `url` and `profile` are those of the query.
  unfoldable pub resolve :
      Limits → State → Bytes → Bytes → Query → ℕ → RoundTrip → Bytes → Option Outcome
  resolve l s url profile q now net buf = do
    hit ← look_up l s url q now buf
    after_look_up l s url q now net buf (fresh_info profile) hit
