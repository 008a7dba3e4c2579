-- ===== src/Neighbors.antt =====
-- arp/ and ndp/: the tables of the network cards on the local network, and the cache in front of each.
-- The two packages have the same cache and the same searches. What the kernel's file and the command
-- hold are lists of lines; the parsing of addresses is a pair of functions.
pub mod Refresh
use nextdns.Prelude.{
  Bool, Bytes, List, Option, [], bytes_eq, drop, get_elem?, if◌then◌else◌, length, ltb, none, not,
  some, suc, true, zero, ℕ, ◌++◌, ◌+◌, ◌-◌, ◌==◌, ◌>>=◌, ◌∷◌,
}
use nextdns.Net.{Ip, ip_equal}

-- `Entry`; an address that is nil is empty.
pub record Entry : Type 0 where
  pub ip : Ip
  pub mac : Bytes

abbrev pub Table : Type 0
Table = List Entry

-- `SearchMAC` and `SearchIP`
unfoldable pub search_mac : Table → Ip → Bytes
search_mac [] ip = []
search_mac (e ∷ t) ip = if ip_equal e.ip ip then e.mac else search_mac t ip

unfoldable pub search_ip : Table → Bytes → Ip
search_ip [] mac = []
search_ip (e ∷ t) mac = if bytes_eq e.mac mac then e.ip else search_ip t mac

-- `net.ParseIP`, `net.ParseMAC` and `strings.Fields`, where nil is empty
pub record Parsing : Type 0 where
  pub parse_ip : Bytes → Ip
  pub parse_mac : Bytes → Bytes
  pub fields : Bytes → List Bytes

-- `parseMAC`: the parts of a short address get their leading zeros back.
unfoldable pub split_colons : Bytes → Bytes → List Bytes
split_colons word [] = word ∷ []
split_colons word (c ∷ s) =
    let next = split_colons [] s in
    let longer = split_colons (word ++ c ∷ []) s in if c == 58 then word ∷ next else longer

unfoldable pub join_colons : List Bytes → Bytes
join_colons [] = []
join_colons (a ∷ []) = a
join_colons (a ∷ b ∷ as') = a ++ 58 ∷ join_colons (b ∷ as')

abbrev pub pad : Bytes → Bytes
pad (c ∷ []) = 48 ∷ c ∷ []
pad s = s

abbrev pub pad_all : List Bytes → List Bytes
pad_all [] = []
pad_all (s ∷ comp) = pad s ∷ pad_all comp

unfoldable pub parse_mac : Parsing → Bytes → Bytes
parse_mac p s =
    let comp = split_colons [] s in
    if ltb (length s) 17
    then (if not (length comp == 6) then [] else p.parse_mac (join_colons (pad_all comp)))
    else p.parse_mac s

-- `Get` of arp/arp_linux.go behind its first line: the fields 0 and 3. A line with fewer panics.
unfoldable pub read_arp : Parsing → List Bytes → Option Table
read_arp p [] = some []
read_arp p (line ∷ lines) = do
  ip ← get_elem? (p.fields line) 0
  mac ← get_elem? (p.fields line) 3
  t ← read_arp p lines
  some (record { ip = p.parse_ip ip; mac = parse_mac p mac } ∷ t)

unfoldable pub get_arp : Parsing → List Bytes → Option Table
get_arp p lines = read_arp p (drop 1 lines)

-- `Get` of ndp/ndp_linux.go: the fields 0 and 4 of the lines that have them.
abbrev pub add_neighbor : Ip → Bytes → Table → Table
add_neighbor [] mac t = t
add_neighbor (b ∷ ip) [] t = t
add_neighbor (b ∷ ip) (c ∷ mac) t = record { ip = b ∷ ip; mac = c ∷ mac } ∷ t

abbrev pub neighbor : Parsing → List Bytes → Table → Table
neighbor p (a ∷ b ∷ c ∷ d ∷ m ∷ fs) t = add_neighbor (p.parse_ip a) (p.parse_mac m) t
neighbor p fs t = t

unfoldable pub get_ndp : Parsing → List Bytes → Table
get_ndp p [] = []
get_ndp p (line ∷ lines) = neighbor p (p.fields line) (get_ndp p lines)

-- A call of `get` behind the load of `lastUpdate`: the time it read, and what it loaded. Seconds since
-- 1970 are natural numbers.
pub record Call : Type 0 where
  pub now : ℕ
  pub last : ℕ

-- The cache with the calls between the load and the swap, the refreshes that begin and those that get
-- the table, and how many were started so far.
pub record Cache : Type 0 where
  pub last_update : ℕ
  pub table : Table
  pub stopped : Bool
  pub calls : List Call
  pub running : ℕ
  pub getting : ℕ
  pub started : ℕ

-- What happens, one atomic step each: a call loads; it swaps, or it does not as the time is not up; a
-- refresh checks that the cache is not stopped; it ends with a table, nil on an error; the cache is
-- stopped.
pub data Event : Type 0 where
  loads : ℕ → Event
  swaps : ℕ → Event
  checks : Event
  refreshed : Table → Event
  stops : Event

unfoldable pub remove_at {ℓ} : {A : Type ℓ} → List A → ℕ → List A
remove_at [] i = []
remove_at (x ∷ xs) zero = xs
remove_at (x ∷ xs) (suc i) = x ∷ remove_at xs i

abbrev pub swap : Cache → Call → Cache
swap c k =
    if ltb 30 (k.now - k.last)
    then (if c.last_update == k.last
        then record c { last_update = k.now; running = c.running + 1; started = c.started + 1 }
        else record c { last_update = k.now })
    else c

abbrev pub swap_at : Cache → ℕ → Option Call → Option Cache
swap_at c i none = none
swap_at c i (some k) = some (record (swap c k) { calls = remove_at c.calls i })

abbrev pub check : Cache → ℕ → Option Cache
check c zero = none
check c (suc n) = some (
    if c.stopped
    then record c { running = n }
    else record c { running = n; getting = c.getting + 1 })

abbrev pub store_table : Cache → Table → ℕ → Option Cache
store_table c t zero = none
store_table c t (suc n) = some (record c { getting = n; table = t })

unfoldable pub step : Cache → Event → Option Cache
step c (loads now) =
    some (record c { calls = c.calls ++ record { now = now; last = c.last_update } ∷ [] })
step c (swaps i) = swap_at c i (get_elem? c.calls i)
step c checks = check c c.running
step c (refreshed t) = store_table c t c.getting
step c stops = some (record c { stopped = true })

unfoldable pub run : Cache → List Event → Option Cache
run c [] = some c
run c (e ∷ es) = do c' ← step c e; run c' es
