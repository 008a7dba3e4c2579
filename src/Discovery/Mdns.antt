-- ===== src/Discovery/Mdns.antt =====
-- discovery/mdns.go: the names that the hosts of the network announce. A Go map is a list of keys
-- with their values, in the order of its iteration; a map that is nil is an empty one. Times are
-- inputs. What the sockets bring is a list of messages.
pub mod Announced
pub mod Eviction
pub mod Leak
use nextdns.Prelude.{
  Bytes, List, Option, [], bytes_eq, delete, find, if◌then◌else◌, length, ltb, none, put, some, suc,
  zero, ℕ, ◌>>=◌, ◌∷◌,
}
use nextdns.Discovery.Names.{
  abs_domain_name, append_uniq, is_valid_name, lower_ascii_bytes, prepare_host_lookup,
}

-- `mdnsEntry`
pub record Entry : Type 0 where
  pub last_update : ℕ
  pub values : List Bytes

abbrev pub Entries : Type 0
Entries = List (Bytes × Entry)

pub record Mdns : Type 0 where
  pub addrs : Entries
  pub names : Entries

abbrev pub max_entries : ℕ
max_entries = 1000

-- `entries[key]`, with the zero value of a key that is missing
abbrev pub or_zero : Option Entry → Entry
or_zero none = record { last_update = 0; values = [] }
or_zero (some e) = e

abbrev pub entry_of : Entries → Bytes → Entry
entry_of m key = or_zero (find m key)

-- `addEntry`
unfoldable pub add_entry : ℕ → Entries → Bytes → Bytes → Entries
add_entry now m key value =
    put m key
      (record { last_update = now; values = append_uniq (entry_of m key).values (value ∷ []) })

-- The loop of `removeEntry`: the first value that is equal is taken out.
abbrev pub without_first : List Bytes → Bytes → List Bytes
without_first [] value = []
without_first (v ∷ vs) value = if bytes_eq v value then vs else v ∷ without_first vs value

abbrev pub store_rest : Entries → Bytes → Entry → List Bytes → Entries
store_rest m key e [] = delete m key
store_rest m key e (v ∷ vs) = put m key (record e { values = v ∷ vs })

-- `removeEntry`
unfoldable pub remove_entry : Entries → Bytes → Bytes → Entries
remove_entry m key value =
    store_rest m key (entry_of m key) (without_first (entry_of m key).values value)

-- The first loop of `removeOldestEntry`: the name that was updated first, before `time`.
unfoldable pub oldest : Entries → Bytes → ℕ → Bytes
oldest [] name time = name
oldest ((k, e) ∷ m) name time =
    if ltb e.last_update time then oldest m k e.last_update else oldest m name time

-- Its second loop
unfoldable pub remove_all : Entries → List Bytes → Bytes → Entries
remove_all m [] name = m
remove_all m (addr ∷ addrs) name = remove_all (remove_entry m addr name) addrs name

-- The addresses are looked up in the map that is keyed by addresses.
abbrev pub remove_named : Mdns → Bytes → Mdns
remove_named r [] = r
remove_named r (c ∷ name) = record {
  addrs = remove_all r.addrs (entry_of r.addrs (c ∷ name)).values (c ∷ name);
  names = delete r.names (c ∷ name);
}

unfoldable pub remove_oldest_entry : ℕ → Mdns → Mdns
remove_oldest_entry now r = remove_named r (oldest r.names [] now)

-- The loop of `read` that makes room; `rounds` are the readings of the clock, and the fuel is used
-- up by a clock that does not move.
unfoldable pub evict : ℕ → (ℕ → ℕ) → ℕ → Mdns → Option Mdns
evict zero rounds k r = none
evict (suc fuel) rounds k r =
    let rest = evict fuel rounds (suc k) (remove_oldest_entry (rounds k) r) in
    if ltb max_entries (length r.names) then rest else some r

-- The readings of the clock while an entry of a message is stored.
pub record Times : Type 0 where
  pub addr_time : ℕ
  pub name_time : ℕ
  pub rounds : ℕ → ℕ

-- An entry of a message: an address and its name.
abbrev pub key_of : Bytes → Bytes
key_of name = abs_domain_name (lower_ascii_bytes (abs_domain_name name))

unfoldable pub learn_one : ℕ → Mdns → Times → Bytes → Bytes → Option Mdns
learn_one fuel r t addr name =
    if is_valid_name name
    then evict fuel t.rounds 0 (record {
      addrs = add_entry t.addr_time r.addrs addr (abs_domain_name name);
      names = add_entry t.name_time r.names (key_of name) addr;
    })
    else some r

-- The loop of `read` over the entries of a message.
unfoldable pub learn : ℕ → Mdns → List (Times × Bytes × Bytes) → Option Mdns
learn fuel r [] = some r
learn fuel r ((t, addr, name) ∷ items) = do r' ← learn_one fuel r t addr name; learn fuel r' items

-- `LookupAddr` and `LookupHost`
unfoldable pub lookup_addr : Mdns → Bytes → List Bytes
lookup_addr r addr = (entry_of r.addrs addr).values

unfoldable pub lookup_host : Mdns → Bytes → List Bytes
lookup_host r name = (entry_of r.names (prepare_host_lookup name)).values
