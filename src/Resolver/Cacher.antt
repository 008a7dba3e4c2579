-- ===== src/Resolver/Cacher.antt =====
-- The storage behind the response cache, `Cacher` of resolver/resolver.go. The program fills it
-- with an ARC cache of another package, so it is an interface here.
pub mod Buffer
use nextdns.Prelude.{Bool, Bytes, Option, if◌then◌else◌, ltb, some, take, ℕ, ◌>>=◌, ◌≡◌, ◌⊎◌}
use nextdns.Query.{Query}
use nextdns.Resolver.Cache.{CacheKey, CacheValue, copy_into, update_ttl}

-- A cache may forget entries, and never returns what was not added under the key.
pub record Cacher : Type 1 where
  pub Store : Type 0
  pub get : Store → CacheKey → Option CacheValue
  pub add : Store → CacheKey → CacheValue → Store
  pub get-add :
      (s : Store) (k j : CacheKey) (v w : CacheValue)
      → get (add s k v) j ≡ some w
      → ((k ≡ j) × (v ≡ w)) ⊎ (get s j ≡ some w)

-- `CacheMaxAge` and `MaxTTL`
pub record Limits : Type 0 where
  pub max_age : ℕ
  pub max_ttl : ℕ

pub record ResolveInfo : Type 0 where
  pub transport : Bytes
  pub profile : Bytes
  pub from_cache : Bool

-- `cacheKey{ctx, q.Class, q.Type, q.Name}`
abbrev pub key_of : Bytes → Query → CacheKey
key_of ctx q = record { ctx = ctx; qclass = q.qclass; qtype = q.qtype; qname = q.name }

-- `if r.MaxTTL > 0 { updateTTL(buf[:n], 0, 0, r.MaxTTL) }`
unfoldable pub cap_response : ℕ → Bytes → ℕ → Option Bytes
cap_response max_ttl buf n =
    if ltb 0 max_ttl
    then (do
      (m, ret) ← update_ttl (take n buf) (record { age = 0; max_age = 0; max_ttl = max_ttl })
      some (copy_into buf m))
    else some buf
