-- ===== src/Tests/Lookups.antt =====
-- discovery/dns.go with a cache that forgets nothing, and resolver/endpoint/ with small parsers.
use nextdns.Prelude.{
  All, Bool-cases, Bytes, IsByte, List, Option, [], arith, bytes_eq, bytes_eq_iff, bytes_eq_refl,
  codes, false, find, if◌then◌else◌, inl, inr, length, ltb, none, refl, some, sym, true, ℕ, ◌+◌,
  ◌∷◌, ◌≡◌, ◌⊎◌,
}
use nextdns.Net.{Ip}
use nextdns.Discovery.Lookups.{
  Answers, CacheEntry, Dns, Lru, Network, cache_get, five_minutes, lookup_addr, or_nothing,
  query_ptr,
}
use nextdns.Discovery.Lookups.Cached.{lookup_addr_cached}
use nextdns.Tests.Readers.{reader}

peek_add :
    (s : List (Bytes × CacheEntry)) (k j : Bytes) (v w : CacheEntry)
    → find ((k, v) ∷ s) j ≡ some w
    → ((k ≡ j) × (v ≡ w)) ⊎ (find s j ≡ some w)
unfolding find
peek_add s k j v w e = elim (Bool-cases (bytes_eq k j)) [
  | inl same ↦ inl ((bytes_eq_iff k j).0 same, cc (rw same at e))
  | inr other ↦ inr (rw other at e)
]

peek_add_self :
    (s : List (Bytes × CacheEntry)) (k : Bytes) (v : CacheEntry) → find ((k, v) ∷ s) k ≡ some v
unfolding find
peek_add_self s k v = rw (bytes_eq_refl k)

abbrev store : Lru
store = record {
  Store = List (Bytes × CacheEntry);
  peek = find;
  touch = λ s k. s;
  add = λ s k v. (k, v) ∷ s;
  peek-touch = λ s k j. refl;
  peek-add_self = peek_add_self;
  peek-add = peek_add;
}

abbrev print_ip : Ip → Bytes
print_ip ip = ip

abbrev an_ip : Ip
an_ip = 0 ∷ 0 ∷ 0 ∷ 0 ∷ 0 ∷ 0 ∷ 0 ∷ 0 ∷ 0 ∷ 0 ∷ 255 ∷ 255 ∷ 10 ∷ 0 ∷ 0 ∷ 9 ∷ []

abbrev parse_ip : Bytes → Option Ip
parse_ip text = some an_ip

abbrev network : Network reader store print_ip parse_ip
network q = record {
  builds = true;
  dials = true;
  writes = true;
  id = 258;
  reads = λ n. some (1 ∷ 2 ∷ []);
}

abbrev unplugged : Network reader store print_ip parse_ip
unplugged q = record { builds = true; dials = false; writes = true; id = 258; reads = λ n. none }

abbrev idle : Dns reader store print_ip parse_ip
idle = record { upstream = codes "10.0.0.1"; cache = []; rd = true }

abbrev addr : Bytes
addr = codes "10.0.0.9"

parses_bytes : (ip : Ip) → parse_ip addr ≡ some ip → (length ip ≡ 16) × All IsByte ip
parses_bytes ip e = let same : an_ip ≡ ip = cc in rw (sym same) (refl, omega arith)

missed : cache_get reader store print_ip parse_ip 100 idle.cache addr ≡ none
unfolding cache_get find
missed = refl

lookup_addr_cached_example :
    (a : Answers) × (d' : Dns reader store print_ip parse_ip) × (query_ptr reader store print_ip
        parse_ip network true addr
      ≡ some a)
    × (lookup_addr reader store print_ip parse_ip network idle 100 200 addr
        ≡ some (or_nothing a, d'))
    × (lookup_addr reader store print_ip parse_ip unplugged d' 300 400 addr
        ≡ some (or_nothing a, d'))
    × ((t : ℕ)
        → cache_get reader store print_ip parse_ip t d'.cache addr
          ≡ (if ltb (200 + five_minutes) t then none else some (or_nothing a)))
lookup_addr_cached_example =
    lookup_addr_cached reader store print_ip parse_ip network unplugged idle 100 200 300 400 addr
      parses_bytes (λ e. cc) missed (omega arith)
