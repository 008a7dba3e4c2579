-- ===== src/Discovery/Lookups.antt =====
-- discovery/dns.go: the queries to the DNS server of the network, and the cache in front of them.
-- The cache is that of a library; the parser of messages and the network are inputs. Times are
-- nanoseconds.
pub mod Cached
use nextdns.Prelude.{
  Bool, Bytes, List, Option, [], bit_and, codes, false, get_or, if◌then◌else◌, leb, length, ltb,
  none, not, some, suc, true, zero, ℕ, ◌&&◌, ◌*◌, ◌++◌, ◌+◌, ◌==◌, ◌>>=◌, ◌^◌, ◌||◌, ◌∷◌, ◌≡◌, ◌⊎◌,
}
use nextdns.Discovery.Dns.{reverse_ip}
use nextdns.Net.{Ip, to4}
use nextdns.Message.{
  Reader, RecordHeader, Skip, malformed, nothing_left, record_at, section_done, skip_failed,
  skipped, type_a, type_aaaa, type_ptr,
}
use nextdns.Discovery.Names.{is_valid_name}

-- `cacheEntry`
pub record CacheEntry : Type 0 where
  pub values : List Bytes
  pub expiry : ℕ

-- The LRU cache: it may forget entries, and returns what was added last under the key. A read
-- alters what will be forgotten, and nothing that is read.
pub record Lru : Type 1 where
  pub Store : Type 0
  pub peek : Store → Bytes → Option CacheEntry
  pub touch : Store → Bytes → Store
  pub add : Store → Bytes → CacheEntry → Store
  pub peek-touch : (s : Store) (k j : Bytes) → peek (touch s k) j ≡ peek s j
  pub peek-add_self : (s : Store) (k : Bytes) (v : CacheEntry) → peek (add s k v) k ≡ some v
  pub peek-add :
      (s : Store) (k j : Bytes) (v w : CacheEntry)
      → peek (add s k v) j ≡ some w
      → ((k ≡ j) × (v ≡ w)) ⊎ (peek s j ≡ some w)

-- Errors: that of the server, with its code, and all others.
pub data Error : Type 0 where
  dns_error : ℕ → Error
  other_error : Error

pub data Answers : Type 0 where
  answers : List Bytes → Answers
  failed : Error → Answers

-- One exchange with the server: whether the message can be built, dialled and written, its random
-- id, and the datagrams, cut to 514 bytes; a read that fails is `none`.
pub record Exchange : Type 0 where
  pub builds : Bool
  pub dials : Bool
  pub writes : Bool
  pub id : ℕ
  pub reads : ℕ → Option Bytes

-- The question: a type, a name, and whether recursion is desired.
pub record Question : Type 0 where
  pub qtype : ℕ
  pub name : Bytes
  pub recursion_desired : Bool

abbrev pub max_retries : ℕ
max_retries = 5

abbrev pub max_records : ℕ
max_records = 100

abbrev pub five_minutes : ℕ
five_minutes = 5 * 60 * 10 ^ 9

abbrev pub rcode_server_failure : ℕ
rcode_server_failure = 2

-- The loop of `sendQuery` over the datagrams. A round that goes on counts a retry, so `max_retries`
-- rounds are enough; an error is `none` in the inner option.
unfoldable pub await_reply : ℕ → (ℕ → Option Bytes) → ℕ → ℕ → Option (Option Bytes)
await_reply zero reads id retries = none
await_reply (suc fuel) reads id retries =
    let rest = await_reply fuel reads id (retries + 1) in
    let again : Option (Option Bytes) = if leb max_retries (retries + 1) then some none else rest in
    elim (reads retries) [
      | none ↦ some none
      | some buf ↦
          if ltb (length buf) 2
          then again
          else if id == get_or buf 0 0 * 256 + get_or buf 1 0
          then some (some buf)
          else again
    ]

-- `isPrivateIP`
unfoldable pub is_private_ip : Option Ip → Bool
is_private_ip none = false
is_private_ip (some ip) = elim (to4 ip) [
  | [] ↦ get_or ip 0 0 == 0xfd
  | a ∷ rest ↦
      a == 10
      || (a == 172 && bit_and (get_or rest 0 0) 0xf0 == 16)
      || (a == 192 && get_or rest 0 0 == 168)
]

-- The loop of `lookupAddr` over the names: what is valid is written back to its place.
unfoldable pub keep_valid : List Bytes → List Bytes
keep_valid [] = []
keep_valid (name ∷ names) = (if is_valid_name name then name else name) ∷ keep_valid names

-- `names, _ = queryPTR(...)`, and nil made an empty list
abbrev pub or_nothing : Answers → List Bytes
or_nothing (answers rrs) = rrs
or_nothing (failed e) = []

-- `probeBuggyDNSMasq`: the query without the RD flag fails with SERVFAIL, and that with it does not.
unfoldable pub is_buggy_dnsmasq : Answers → Answers → Bool
is_buggy_dnsmasq (answers rrs) with_rd = false
is_buggy_dnsmasq (failed e) (failed e') = false
is_buggy_dnsmasq (failed other_error) (answers rrs) = false
is_buggy_dnsmasq (failed (dns_error code)) (answers rrs) = code == rcode_server_failure

-- `r.Upstream == ""`
abbrev pub no_upstream : Bytes → Bool
no_upstream [] = true
no_upstream (b ∷ s) = false

-- What is in the cache and not over.
abbrev pub fresh : ℕ → Option CacheEntry → Option (List Bytes)
fresh now none = none
fresh now (some e) = if ltb e.expiry now then none else some e.values

module _ (r : Reader) (c : Lru) (print_ip : Ip → Bytes) (parse_ip : Bytes → Option Ip) where
  open r use {
    start, skip_all_questions, answer_header, skip_answer, a_resource, aaaa_resource, ptr_resource,
  }
  open c use {Store, peek, touch, add}

  -- A record that is skipped, and one whose text is kept; `rest` goes on with the next.
  abbrev pub skip_on : Skip r.State → List Bytes → (r.State → List Bytes → Answers) → Answers
  skip_on (skipped s) rrs rest = rest s rrs
  skip_on (nothing_left s) rrs rest = failed other_error
  skip_on skip_failed rrs rest = failed other_error

  abbrev pub keep_text :
      Option (Bytes × r.State) → List Bytes → (r.State → List Bytes → Answers) → Answers
  keep_text none rrs rest = failed other_error
  keep_text (some (text, s)) rrs rest = rest s (rrs ++ text ∷ [])

  abbrev pub keep_ip :
      Option (Ip × r.State) → List Bytes → (r.State → List Bytes → Answers) → Answers
  keep_ip none rrs rest = failed other_error
  keep_ip (some (ip, s)) rrs rest = rest s (rrs ++ print_ip ip ∷ [])

  abbrev pub read_record :
      ℕ → RecordHeader → r.State → List Bytes → (r.State → List Bytes → Answers) → Answers
  read_record typ h s rrs rest =
      if not (h.rtype == typ)
      then skip_on (skip_answer s) rrs rest
      else if h.rtype == type_ptr
      then keep_text (ptr_resource s) rrs rest
      else if h.rtype == type_a
      then keep_ip (a_resource s) rrs rest
      else if h.rtype == type_aaaa
      then keep_ip (aaaa_resource s) rrs rest
      else skip_on (skip_answer s) rrs rest

  -- The loop over the answers, of `max_records` rounds at most.
  unfoldable pub read_answers : ℕ → ℕ → r.State → List Bytes → Answers
  read_answers zero typ s rrs = answers rrs
  read_answers (suc n) typ s rrs = elim (answer_header s) [
    | section_done ↦ answers rrs
    | malformed ↦ failed other_error
    | record_at h s' ↦ read_record typ h s' rrs (read_answers n typ)
  ]

  abbrev pub read_reply : ℕ → Bytes → Answers
  read_reply typ buf = elim (start buf) [
    | none ↦ failed other_error
    | some (rcode, s) ↦
        if not (rcode == 0) then failed (dns_error rcode) else elim (skip_all_questions s) [
          | none ↦ failed other_error
          | some s' ↦ read_answers max_records typ s' []
        ]
  ]

  abbrev pub after_reply : ℕ → Option (Option Bytes) → Option Answers
  after_reply typ none = none
  after_reply typ (some none) = some (failed other_error)
  after_reply typ (some (some buf)) = some (read_reply typ buf)

  -- `queryPTR` and `queryName`, which build a message, and `sendQuery`
  unfoldable pub send_query : Exchange → ℕ → Option Answers
  send_query x typ =
      if not x.builds || not x.dials || not x.writes
      then some (failed other_error)
      else after_reply typ (await_reply max_retries x.reads x.id 0)

  -- `DNS`; the network answers each question by an exchange.
  pub record Dns : Type 0 where
    pub upstream : Bytes
    pub cache : Store
    pub rd : Bool

  abbrev pub Network : Type 0
  Network = Question → Exchange

  unfoldable pub query_ptr : Network → Bool → Bytes → Option Answers
  query_ptr net rd addr = do
    name ← reverse_ip (elim (parse_ip addr) [ none ↦ [] | some ip ↦ ip ])
    send_query (net (record { qtype = type_ptr; name = name; recursion_desired = rd })) type_ptr

  unfoldable pub query_name : Network → Bool → ℕ → Bytes → Option Answers
  query_name net rd typ name =
      send_query (net (record { qtype = typ; name = name; recursion_desired = rd })) typ

  -- The first private server of the host, where no upstream is set.
  abbrev pub first_private : List Bytes → Bytes
  first_private [] = []
  first_private (ip ∷ ips) = if is_private_ip (parse_ip ip) then ip else first_private ips

  abbrev pub upstream_of : Bytes → List Bytes → Bytes
  upstream_of [] servers = first_private servers
  upstream_of (b ∷ s) servers = b ∷ s

  -- `init`, which the first lookup runs
  unfoldable pub init : Bytes → List Bytes → Store → Network → Option Dns
  init upstream servers empty net = do
    without_rd ← query_name net false type_a (codes "localhost.")
    with_rd ← query_name net true type_a (codes "localhost.")
    some (record {
      upstream = upstream_of upstream servers;
      cache = empty;
      rd = is_buggy_dnsmasq without_rd with_rd;
    })

  -- `cacheGet` and `cacheSet`
  unfoldable pub cache_get : ℕ → Store → Bytes → Option (List Bytes)
  cache_get now s key = fresh now (peek s key)

  unfoldable pub cache_set : ℕ → Store → Bytes → List Bytes → Store
  cache_set now s key values = add s key (record { values = values; expiry = now + five_minutes })

  -- `lookupAddr` and `lookupHost` with the clock where the cache is read and where it is written.
  abbrev pub answered : Dns → Bytes → ℕ → List Bytes → List Bytes × Dns
  answered d key now values = (values, record d { cache = cache_set now d.cache key values })

  abbrev pub or_ask :
      Dns
      → Bytes
      → Option (List Bytes)
      → (Dns → Option (List Bytes × Dns))
      → Option (List Bytes × Dns)
  or_ask d key none ask = ask (record d { cache = touch d.cache key })
  or_ask d key (some values) ask = some (values, record d { cache = touch d.cache key })

  unfoldable pub lookup_addr : Network → Dns → ℕ → ℕ → Bytes → Option (List Bytes × Dns)
  lookup_addr net d now later addr =
      if no_upstream d.upstream
      then some ([], d)
      else or_ask d addr (cache_get now d.cache addr) λ d'. do
        names ← query_ptr net d'.rd addr
        some (answered d' addr later (keep_valid (or_nothing names)))

  unfoldable pub lookup_host : Network → Dns → ℕ → ℕ → Bytes → Option (List Bytes × Dns)
  lookup_host net d now later name =
      if no_upstream d.upstream
      then some ([], d)
      else or_ask d name (cache_get now d.cache name) λ d'. do
        a ← query_name net d'.rd type_a name
        aaaa ← query_name net d'.rd type_aaaa name
        some (answered d' name later (or_nothing a ++ or_nothing aaaa))
