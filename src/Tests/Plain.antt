-- ===== src/Tests/Plain.antt =====
-- resolver/dns53.go with a cache that is a list.
use nextdns.Prelude.{
  Bool, Bool-cases, List, Option, [], arith, bytes_eq, bytes_eq_iff, false, if◌then◌else◌, inl, inr,
  none, some, some_inj, true, ◌&&◌, ◌==◌, ◌∷◌, ◌≡◌, ◌⊎◌,
}
use nextdns.Resolver.Cache.{CacheKey, CacheValue}
use nextdns.Resolver.Cacher.{Cacher, Limits}
use nextdns.Resolver.Dns53.{Network, Outcome, resolve}
use nextdns.Resolver.Dns53.Answers.{IsSound, dns53_resolve-IsSound}
use nextdns.Tests.Messages.{a_query, a_response, buffer}

abbrev pub key_eq : CacheKey → CacheKey → Bool
key_eq k j =
    bytes_eq k.ctx j.ctx
    && (k.qclass == j.qclass && (k.qtype == j.qtype && bytes_eq k.qname j.qname))

key_eq-eq : (k j : CacheKey) → key_eq k j ≡ true → k ≡ j
key_eq-eq k j h =
    let ctx : k.ctx ≡ j.ctx = (bytes_eq_iff k.ctx j.ctx).0 (ground (arith, h)) in
    let qclass : k.qclass ≡ j.qclass = ground (arith, h) in
    let qtype : k.qtype ≡ j.qtype = ground (arith, h) in
    let qname : k.qname ≡ j.qname = (bytes_eq_iff k.qname j.qname).0 (ground (arith, h)) in
    cc (ctx, qclass, qtype, qname)

abbrev pub Entries : Type 0
Entries = List (CacheKey × CacheValue)

abbrev pub get_entry : Entries → CacheKey → Option CacheValue
get_entry [] j = none
get_entry ((k, v) ∷ s) j = if key_eq k j then some v else get_entry s j

pub get_entry-add :
    (s : Entries) (k j : CacheKey) (v w : CacheValue)
    → get_entry ((k, v) ∷ s) j ≡ some w
    → ((k ≡ j) × (v ≡ w)) ⊎ (get_entry s j ≡ some w)
get_entry-add s k j v w h = elim (Bool-cases (key_eq k j)) [
  | inl e ↦ inl (key_eq-eq k j e, some_inj (rw e at h))
  | inr e ↦ inr (rw e at h)
]

abbrev pub list_cacher : Cacher
list_cacher = record {
  Store = Entries;
  get = get_entry;
  add = λ s k v. (k, v) ∷ s;
  get-add = get_entry-add;
}

abbrev pub no_limits : Limits
no_limits = record { max_age = 0; max_ttl = 0 }

abbrev net : Network
net = record {
  dials = true;
  writes = true;
  reads = λ k. record { bytes = a_response; failed = false };
}

dns53_resolve-IsSound_example :
    (o : Outcome list_cacher) × (resolve list_cacher no_limits (some []) a_query 5 net buffer
      ≡ some o)
    × IsSound list_cacher no_limits (some []) a_query 5 net buffer o
dns53_resolve-IsSound_example =
    dns53_resolve-IsSound list_cacher no_limits (some []) a_query 5 net (omega arith) buffer
