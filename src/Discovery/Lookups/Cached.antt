-- ===== src/Discovery/Lookups/Cached.antt =====
-- What the cache of discovery/dns.go answers.
use nextdns.Prelude.{
  All, Bool, Bool-cases, Bytes, IsByte, List, Option, Option-cases, [], arith, codes, false,
  if◌then◌else◌, inl, inr, length, ltb, ne-none, none, not, refl, some, suc, zero, ℕ, ◌++◌, ◌+◌,
  ◌<◌, ◌||◌, ◌∙◌, ◌∷◌, ◌≡◌, ◌≢◌, ◌≤◌,
}
use nextdns.Discovery.Dns.{reverse_ip}
use nextdns.Proxy.Reverse.RoundTrip.{ptr_ip-reverse_ip}
use nextdns.Message.{Reader, type_a, type_aaaa, type_ptr}
use nextdns.Net.{Ip, to4}
use nextdns.Discovery.Lookups.{
  Answers, Dns, Exchange, Lru, Network, after_reply, answered, await_reply, cache_get, cache_set,
  failed, five_minutes, keep_valid, lookup_addr, lookup_host, max_retries, no_upstream, or_nothing,
  other_error, query_name, query_ptr, read_reply, send_query,
}

-- The filter keeps every name.
keep_valid_lem : (names : List Bytes) → keep_valid names ≡ names
unfolding keep_valid
keep_valid_lem [] = refl
keep_valid_lem (name ∷ names) = ground (arith, keep_valid_lem names)

no_upstream_ne : (s : Bytes) → s ≢ [] → no_upstream s ≡ false
no_upstream_ne [] ne = absurd (ne refl)
no_upstream_ne (b ∷ s) ne = refl

-- The loop over the datagrams ends within the retries.
await_reply_total :
    (fuel : ℕ) (reads : ℕ → Option Bytes) (id retries : ℕ)
    → max_retries ≤ fuel + retries
    → 0 < fuel
    → await_reply fuel reads id retries ≢ none
unfolding await_reply
await_reply_total zero reads id retries le pos = absurd (omega arith)
await_reply_total (suc fuel) reads id retries le pos = elim (Option-cases (reads retries)) [
  | inl e ↦ λ h. ground (arith, h, e)
  | inr (buf, e) ↦ λ h. ground (arith, h, e, await_reply_total fuel reads id (retries + 1))
]

module _ (r : Reader) (c : Lru) (print_ip : Ip → Bytes) (parse_ip : Bytes → Option Ip) where
  cache_set-get :
      (s : c.Store) (key : Bytes) (values : List Bytes) (later now : ℕ)
      → cache_get r c print_ip parse_ip now (cache_set r c print_ip parse_ip later s key values) key
        ≡ (if ltb (later + five_minutes) now then none else some values)
  unfolding cache_get cache_set
  cache_set-get s key values later now =
      rw (c.peek-add_self s key (record { values = values; expiry = later + five_minutes }))

  send_query_total :
      (x : Exchange) (typ : ℕ) → (a : Answers) × (send_query r c print_ip parse_ip x typ ≡ some a)
  unfolding send_query
  send_query_total x typ = elim (Bool-cases (not x.builds || not x.dials || not x.writes)) [
    | inl fails ↦ (failed other_error, rw fails)
    | inr sent ↦
        let (reply, e) =
          ne-none (await_reply max_retries x.reads x.id 0)
            (await_reply_total max_retries x.reads x.id 0 (omega arith) (omega arith)) in
        rw (sent, e) (answer reply)
  ]
    where
      answer :
          (reply : Option Bytes)
          → (a : Answers) × (after_reply r c print_ip parse_ip typ (some reply) ≡ some a)
      answer none = (failed other_error, refl)
      answer (some buf) = (read_reply r c print_ip parse_ip typ buf, refl)

  query_name_total :
      (net : Network r c print_ip parse_ip) (rd : Bool) (typ : ℕ) (name : Bytes)
      → (a : Answers) × (query_name r c print_ip parse_ip net rd typ name ≡ some a)
  unfolding query_name
  query_name_total net rd typ name = send_query_total _ typ

  -- The reverse name of an address exists.
  reverse_name :
      (o : Option Ip)
      → ((ip : Ip) → o ≡ some ip → (length ip ≡ 16) × All IsByte ip)
      → (name : Bytes) × (reverse_ip (elim o [ none ↦ [] | some ip ↦ ip ]) ≡ some name)
  unfolding reverse_ip to4 nextdns.Discovery.Dns.reverse_nibbles
  reverse_name none h = (codes "ip6.arpa.", refl)
  reverse_name (some ip) h =
      let (name, e, back) = ptr_ip-reverse_ip ip (h ip refl).0 (h ip refl).1 in (name, e)

  query_ptr_total :
      (net : Network r c print_ip parse_ip) (rd : Bool) (addr : Bytes)
      → ((ip : Ip) → parse_ip addr ≡ some ip → (length ip ≡ 16) × All IsByte ip)
      → (a : Answers) × (query_ptr r c print_ip parse_ip net rd addr ≡ some a)
  unfolding query_ptr
  query_ptr_total net rd addr h =
      let (name, e) = reverse_name (parse_ip addr) h in rw e (send_query_total _ type_ptr)

  cached_soon :
      (s : c.Store) (key : Bytes) (values : List Bytes) (later now : ℕ)
      → now ≤ later + five_minutes
      → cache_get r c print_ip parse_ip now (cache_set r c print_ip parse_ip later s key values) key
        ≡ some values
  cached_soon s key values later now soon =
      cache_set-get s key values later now ∙ ground (arith, soon)

  -- A lookup of an address that is not in the cache answers with the names of the server's reply,
  -- the invalid ones too, or with none where that fails. For five minutes a second lookup gives the
  -- same answer, whatever the network then says, and after that the entry is not used. Parsed
  -- addresses have 16 bytes.
  pub lookup_addr_cached :
      (net net' : Network r c print_ip parse_ip) (d : Dns r c print_ip parse_ip)
      (now later now' later' : ℕ) (addr : Bytes)
      → ((ip : Ip) → parse_ip addr ≡ some ip → (length ip ≡ 16) × All IsByte ip)
      → d.upstream ≢ []
      → cache_get r c print_ip parse_ip now d.cache addr ≡ none
      → now' ≤ later + five_minutes
      → (a : Answers) × (d' : Dns r c print_ip parse_ip) × (query_ptr r c print_ip parse_ip net d.rd
            addr
          ≡ some a)
        × (lookup_addr r c print_ip parse_ip net d now later addr ≡ some (or_nothing a, d'))
        × (lookup_addr r c print_ip parse_ip net' d' now' later' addr
            ≡ some (or_nothing a, record d' { cache = c.touch d'.cache addr }))
        × ((t : ℕ)
            → cache_get r c print_ip parse_ip t d'.cache addr
              ≡ (if ltb (later + five_minutes) t then none else some (or_nothing a)))
  unfolding lookup_addr
  lookup_addr_cached net net' d now later now' later' addr bytes up miss soon =
      let busy = no_upstream_ne d.upstream up in
      let (a, e) = query_ptr_total net d.rd addr bytes in
      let s = c.touch d.cache addr in
      (
        a,
        (answered r c print_ip parse_ip (record d { cache = s }) addr later (or_nothing a)).1,
        e,
        rw (busy, miss, e, keep_valid_lem (or_nothing a)),
        rw (busy, cached_soon s addr (or_nothing a) later now' soon),
        λ t. cache_set-get s addr (or_nothing a) later t,
      )

  -- A lookup of a host that is not in the cache answers with the IPv4 addresses of the server's
  -- reply and the IPv6 addresses behind them, where a query that fails has none. For five minutes a
  -- second lookup gives the same answer, whatever the network then says, and after that the entry is
  -- not used.
  pub lookup_host_cached :
      (net net' : Network r c print_ip parse_ip) (d : Dns r c print_ip parse_ip)
      (now later now' later' : ℕ) (name : Bytes)
      → d.upstream ≢ []
      → cache_get r c print_ip parse_ip now d.cache name ≡ none
      → now' ≤ later + five_minutes
      → (a b : Answers) × (d' : Dns r c print_ip parse_ip) × (query_name r c print_ip parse_ip net
            d.rd type_a name
          ≡ some a)
        × (query_name r c print_ip parse_ip net d.rd type_aaaa name ≡ some b)
        × (lookup_host r c print_ip parse_ip net d now later name
            ≡ some (or_nothing a ++ or_nothing b, d'))
        × (lookup_host r c print_ip parse_ip net' d' now' later' name
            ≡ some (or_nothing a ++ or_nothing b, record d' { cache = c.touch d'.cache name }))
        × ((t : ℕ)
            → cache_get r c print_ip parse_ip t d'.cache name ≡ (
                if ltb (later + five_minutes) t then none else some (or_nothing a ++ or_nothing b)))
  unfolding lookup_host
  lookup_host_cached net net' d now later now' later' name up miss soon =
      let busy = no_upstream_ne d.upstream up in
      let (a, ea) = query_name_total net d.rd type_a name in
      let (b, eb) = query_name_total net d.rd type_aaaa name in
      let s = c.touch d.cache name in
      let values = or_nothing a ++ or_nothing b in
      (
        a,
        b,
        (answered r c print_ip parse_ip (record d { cache = s }) name later values).1,
        ea,
        eb,
        rw (busy, miss, ea, eb),
        rw (busy, cached_soon s name values later now' soon),
        λ t. cache_set-get s name values later t,
      )
