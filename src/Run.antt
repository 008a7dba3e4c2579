-- ===== src/Run.antt =====
-- run.go: how the parts of the program are put together, as far as it decides something. What the
-- standard library parses, the hosts file, the hash and the discovered names are inputs.
pub mod Clients
pub mod Upstream
pub mod Endpoints
use nextdns.Prelude.{
  Bool, Bytes, List, Option, [], bytes_eq, codes, drop, false, if◌then◌else◌, index_byte, leb,
  length, ltb, map, none, replicate, some, suc, take, true, zero, ℕ, ◌%◌, ◌&&◌, ◌++◌, ◌+◌, ◌-◌, ◌/◌,
  ◌==◌, ◌||◌, ◌∷◌,
}
use nextdns.Config.Forwarder.{Resolver}
use nextdns.Net.{Ip, is_loopback}
use nextdns.Config.Profile.{Profile, get}
use nextdns.Config.Forwarder

-- `isLocalhostMode`: the parsing of an address, the hosts file, and `net.ParseIP`, where nil is the
-- empty address
pub record Names : Type 0 where
  pub split_host_port : Bytes → Option (Bytes × Bytes)
  pub hosts : Bytes → List Bytes
  pub parse_ip : Bytes → Ip

abbrev pub is_local_name : Bytes → Bool
is_local_name host =
    bytes_eq host (codes "localhost")
    || bytes_eq host (codes "127.0.0.1")
    || bytes_eq host (codes "::1")

abbrev pub all_loopback : Names → List Bytes → Bool
all_loopback n [] = true
all_loopback n (ip ∷ ips) = is_loopback (n.parse_ip ip) && all_loopback n ips

abbrev pub is_local_by : Names → Bytes → List Bytes → Bool
is_local_by n host [] = is_loopback (n.parse_ip host)
is_local_by n host (ip ∷ ips) = all_loopback n (ip ∷ ips)

-- One address to listen on; one that cannot be split is passed over.
abbrev pub is_local_host : Names → Option (Bytes × Bytes) → Bool
is_local_host n none = true
is_local_host n (some (host, port)) = is_local_name host || is_local_by n host (n.hosts host)

unfoldable pub all_local : Names → List Bytes → Bool
all_local n [] = true
all_local n (listen ∷ listens) = is_local_host n (n.split_host_port listen) && all_local n listens

unfoldable pub is_localhost_mode : Names → Bool → List Bytes → Bool
is_localhost_mode n setup_router listens = if setup_router then false else all_local n listens

-- `normalizeName`: the first name up to its first dot.
abbrev pub before_dot : Bytes → Option ℕ → Bytes
before_dot name none = name
before_dot name (some i) = take i name

unfoldable pub normalize_name : List Bytes → Bytes
normalize_name [] = []
normalize_name (name ∷ names) = before_dot name (index_byte name 46)

-- `strconv.AppendUint` in base 32, of at most `fuel` digits; 13 hold 64 bits.
abbrev pub digit32 : ℕ → ℕ
digit32 d = if ltb d 10 then 48 + d else 87 + d

unfoldable pub base32 : ℕ → ℕ → Bytes
base32 zero n = []
base32 (suc fuel) n =
    let front = base32 fuel (n / 32) in
    if ltb n 32 then digit32 n ∷ [] else front ++ digit32 (n % 32) ∷ []

-- `buf[i] ^= 1 << 5` of a byte that has the bit, and of one that lacks it
abbrev pub upper : ℕ → ℕ
upper c = if leb 97 c then (if c / 32 % 2 == 1 then c - 32 else c + 32) else c

-- `shortID`: the digits are written over the front of the buffer that was hashed, and five bytes of
-- it are kept. The buffer has room for 13 bytes at least.
unfoldable pub short_id : (Bytes → ℕ) → Bytes → Bytes → Bytes
short_id sum64 conf_id device_id =
    let buf = conf_id ++ device_id in
    let digits = base32 13 (sum64 buf) in
    map upper (take 5 (digits ++ drop (length digits) (buf ++ replicate (13 - length buf) 0)))

-- `ClientInfo`
pub record ClientInfo : Type 0 where
  pub id : Bytes
  pub ip : Bytes
  pub model : Bytes
  pub name : Bytes

-- A query, as far as the client is read from it: a MAC that is nil is none.
pub record Peer : Type 0 where
  pub peer_ip : Ip
  pub local_ip : Ip
  pub mac : Option Bytes

-- `HardwareAddr.String`
abbrev pub hex_digit : ℕ → ℕ
hex_digit d = if ltb d 10 then 48 + d else 87 + d

unfoldable pub print_mac : Bytes → Bytes
print_mac [] = []
print_mac (b ∷ []) = hex_digit (b / 16) ∷ hex_digit (b % 16) ∷ []
print_mac (b ∷ c ∷ mac) = hex_digit (b / 16) ∷ hex_digit (b % 16) ∷ 58 ∷ print_mac (c ∷ mac)

-- What the client info is made of: the printing of addresses, the discovered names, the profiles, the
-- hash, and what is known of this host.
pub record Reporting : Type 0 where
  pub print_ip : Ip → Bytes
  pub lookup_addr : Bytes → List Bytes
  pub lookup_mac : Bytes → List Bytes
  pub profile_of : Ip → Ip → Bytes → Bytes
  pub sum64 : Bytes → ℕ
  pub this_host : ClientInfo

abbrev pub named_by : List Bytes → ClientInfo → ClientInfo
named_by [] ci = ci
named_by (n ∷ names) ci = record ci { name = normalize_name (n ∷ names) }

abbrev pub mac_bytes : Option Bytes → Bytes
mac_bytes none = []
mac_bytes (some mac) = mac

abbrev pub model_of : Bytes → Bytes
model_of hex = if leb 8 (length hex) then codes "mac:" ++ take 8 hex else []

abbrev pub with_mac : Reporting → Peer → Option Bytes → ClientInfo → ClientInfo
with_mac r q none ci = ci
with_mac r q (some mac) ci = named_by (r.lookup_mac (print_mac mac)) (record ci {
  id = short_id r.sum64 (r.profile_of q.peer_ip q.local_ip mac) mac;
  model = model_of (print_mac mac);
})

abbrev pub or_peer_id : Reporting → Peer → ClientInfo → Bytes → ClientInfo
or_peer_id r q ci [] = record ci {
  id = short_id r.sum64 (r.profile_of q.peer_ip q.local_ip (mac_bytes q.mac)) q.peer_ip;
}
or_peer_id r q ci (c ∷ id) = ci

unfoldable pub lan_client : Reporting → Peer → ClientInfo
lan_client r q =
    let ci : ClientInfo = with_mac r q q.mac (record {
      id = [];
      ip = r.print_ip q.peer_ip;
      model = [];
      name = normalize_name (r.lookup_addr (r.print_ip q.peer_ip));
    }) in
    or_peer_id r q ci ci.id

-- The function that `setupClientReporting` sets
unfoldable pub client_info : Reporting → Peer → ClientInfo
client_info r q = if is_loopback q.peer_ip then r.this_host else lan_client r q

-- `GetProfileURL`: with no profile, or with one that has no condition, the answer is made once.
abbrev pub is_static_one : Bytes → Bool
is_static_one [] = false
is_static_one (c ∷ id) = true

unfoldable pub is_static : List Profile → Bool
is_static [] = true
is_static (p ∷ []) = is_static_one (get (p ∷ []) [] [] [])
is_static (p ∷ q ∷ ps) = false

abbrev pub base_url : Bytes
base_url = codes "https://dns.nextdns.io/"

unfoldable pub profile_url : List Profile → Ip → Ip → Bytes → Bytes × Bytes
profile_url ps peer_ip local_ip mac =
    let profile = if is_static ps then get ps [] [] [] else get ps peer_ip local_ip mac in
    (base_url ++ profile, profile)

-- The resolvers behind the proxy: the forwarders with the default resolver as the last, where there
-- are some.
unfoldable pub with_catch_all :
    {A : Type 0} → List (Forwarder.Resolver A) → A → List (Forwarder.Resolver A)
with_catch_all rs default = rs ++ (record { server = default; addr = []; domain = [] }) ∷ []
