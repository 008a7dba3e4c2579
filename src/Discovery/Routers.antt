-- ===== src/Discovery/Routers.antt =====
-- discovery/merlin_linux.go, ubios_linux.go and firewalla_linux.go: the names that a router has for the
-- network cards of its clients. What its commands print is an input; its JSON is decoded by a library.
-- MACs are ASCII.
pub mod Clients
use nextdns.Prelude.{
  Bool, Bytes, List, Option, [], drop, find, if◌then◌else◌, index_byte, leb, length, ltb, none, put,
  some, suc, take, zero, ℕ, ◌*◌, ◌+◌, ◌==◌, ◌^◌, ◌||◌, ◌∷◌,
}
use nextdns.Discovery.Names.{append_uniq, lower_ascii_bytes}

abbrev pub Macs : Type 0
Macs = List (Bytes × List Bytes)

-- `macs[mac] = appendUniq(macs[mac], name)`
abbrev pub or_empty : Option (List Bytes) → List Bytes
or_empty none = []
or_empty (some names) = names

unfoldable pub add_client : Macs → Bytes → Bytes → Macs
add_client macs mac name = put macs mac (append_uniq (or_empty (find macs mac)) (name ∷ []))

-- An outer `none` is fuel that ran out, an inner one an error.
abbrev pub Result : Type 0
Result = Option (Option Macs)

abbrev pub or_end : Option ℕ → Bytes → ℕ
or_end none b = length b
or_end (some i) b = i

-- The item up to `eol`, where the name ends at `idx` and the MAC before `idx + 18`.
abbrev pub name_client : Macs → Bytes → ℕ → Macs
name_client macs b zero = macs
name_client macs b (suc i) =
    add_client macs (lower_ascii_bytes (take 17 (drop (suc (suc i)) b))) (take (suc i) b)

abbrev pub is_cut : Bytes → ℕ → ℕ → Bool
is_cut b eol idx = ltb eol (idx + 18) || leb (length b) (idx + 18)

abbrev pub byte_at : Bytes → ℕ → ℕ
byte_at [] i = 0
byte_at (c ∷ b) zero = c
byte_at (c ∷ b) (suc i) = byte_at b i

abbrev pub read_item : Macs → Bytes → ℕ → Option ℕ → (Macs → Bytes → Result) → Result
read_item macs b eol none rest = some none
read_item macs b eol (some idx) rest =
    if is_cut b eol idx
    then some none
    else if byte_at b (idx + 18) == 62
    then rest (name_client macs b idx) (drop eol b)
    else some none

-- The loop of `readClientList`; a round takes a byte at least.
unfoldable pub read_from : ℕ → Macs → Bytes → Result
read_from zero macs b = none
read_from (suc fuel) macs [] = some (some macs)
read_from (suc fuel) macs (c ∷ b) =
    let next = read_from fuel macs b in
    if c == 60
    then read_item macs b (or_end (index_byte b 60) b) (index_byte b 62) (read_from fuel)
    else if c == 10 || c == 13
    then next
    else some none

-- `readClientList`
unfoldable pub read_client_list : Bytes → Result
read_client_list b = read_from (suc (length b)) [] b

-- `clientListLocked` of Merlin puts the separator in front that the variable may lack.
abbrev pub with_separator : Bytes → Bytes
with_separator [] = []
with_separator (c ∷ b) = if c == 60 then c ∷ b else 60 ∷ c ∷ b

-- A source: whether it was found out what the router is, and when the names are to be read again.
pub record Source : Type 0 where
  pub supported : Option Bool
  pub macs : Macs
  pub expires : ℕ

abbrev pub is_supported : Option Bool → Bool → Bool
is_supported none probed = probed
is_supported (some b) probed = b

abbrev pub or_before : Option Macs → Macs → Macs
or_before none macs = macs
or_before (some read) macs = read

-- `refreshLocked`; `read` is what the list of clients brings, with what was there before.
unfoldable pub refresh : ℕ → Bool → ℕ → (Macs → Option Macs) → Source → Source
refresh interval probed now read r =
    let supported = is_supported r.supported probed in
    let r' : Source = record r { supported = some supported } in
    if supported
    then (if ltb now r.expires
        then r'
        else record r' { expires = now + interval; macs = or_before (read r.macs) r.macs })
    else r'

abbrev pub thirty_seconds : ℕ
thirty_seconds = 30 * 10 ^ 9

abbrev pub five_minutes : ℕ
five_minutes = 5 * 60 * 10 ^ 9

-- The list of Merlin; an error leaves the names as they are.
abbrev pub flat : Result → Option Macs
flat none = none
flat (some r) = r

unfoldable pub merlin_list : Option Bytes → Macs → Option Macs
merlin_list none macs = none
merlin_list (some b) macs = flat (read_client_list (with_separator b))

-- The records that UniFi's database prints replace the names.
unfoldable pub ubios_records : Macs → List (Bytes × Bytes) → Macs
ubios_records macs [] = macs
ubios_records macs ((mac, name) ∷ recs) =
    ubios_records (add_client macs (lower_ascii_bytes mac) name) recs

unfoldable pub ubios_list : Option (List (Bytes × Bytes)) → Macs → Option Macs
ubios_list none macs = none
ubios_list (some recs) macs = some (ubios_records [] recs)

-- Firewalla's object is decoded into the map that is there: its keys are set, and others stay.
unfoldable pub firewalla_list : Option Macs → Macs → Option Macs
firewalla_list none macs = none
firewalla_list (some []) macs = some macs
firewalla_list (some ((mac, names) ∷ obj)) macs = firewalla_list (some obj) (put macs mac names)

-- `LookupMAC`, behind the refresh
unfoldable pub lookup_mac : Source → Bytes → List Bytes
lookup_mac r mac = or_empty (find r.macs mac)
