-- ===== src/Discovery/Dhcp.antt =====
-- discovery/dhcp.go: the leases of a DHCP server, in the formats of dnsmasq and of ISC dhcpd.
pub mod Refresh
use nextdns.Prelude.{
  Bool, Bytes, List, Option, [], bytes_eq, codes, false, if◌then◌else◌, ltb, none, some, true, ℕ,
  ◌*◌, ◌++◌, ◌+◌, ◌==◌, ◌^◌, ◌||◌, ◌∷◌,
}
use nextdns.Discovery.Names.{abs_domain_name, append_uniq, lower_ascii_bytes, prepare_host_lookup}
use nextdns.Discovery.Hosts.{FileInfo, FileView, Table, fields, info_equal, put}

-- The tables of names by MAC, of names by address, and of addresses by name.
pub record Leases : Type 0 where
  pub macs : Table
  pub addrs : Table
  pub names : Table

abbrev pub no_leases : Leases
no_leases = record { macs = λ k. []; addrs = λ k. []; names = λ k. [] }

-- `m[key] = appendUniq(m[key], value)`
abbrev pub add_to : Table → Bytes → Bytes → Table
add_to m key value = put m key (append_uniq (m key) (value ∷ []))

-- `strings.ToLower`, on ASCII, and `strings.HasPrefix(line, "}")`
abbrev pub to_lower : Bytes → Bytes
to_lower s = lower_ascii_bytes s

abbrev pub is_close : Bytes → Bool
is_close [] = false
is_close (c ∷ line) = c == 125

-- `strings.Trim` and `strings.TrimRight` with a set of bytes
abbrev pub drop_while : (ℕ → Bool) → Bytes → Bytes
drop_while p [] = []
drop_while p (c ∷ s) = if p c then drop_while p s else c ∷ s

abbrev pub drop_while_end : (ℕ → Bool) → Bytes → Bytes
drop_while_end p [] = []
drop_while_end p (c ∷ s) = elim (drop_while_end p s) [
  | [] ↦ if p c then [] else c ∷ []
  | d ∷ t ↦ c ∷ d ∷ t
]

-- One line of dnsmasq: the time, the MAC, the address, the name and the client.
abbrev pub add_lease : Leases → Bytes → Bytes → Bytes → Leases
add_lease t mac ip hostname = if bytes_eq hostname (42 ∷ []) then t else record {
  macs = add_to t.macs (to_lower mac) (abs_domain_name hostname);
  addrs = add_to t.addrs (to_lower ip) (abs_domain_name hostname);
  names =
      add_to (add_to t.names (to_lower (abs_domain_name hostname)) (to_lower ip))
        (to_lower (abs_domain_name hostname) ++ codes "local.") (to_lower ip);
}

abbrev pub add_dnsmasq_fields : Leases → List Bytes → Leases
add_dnsmasq_fields t (time ∷ mac ∷ ip ∷ hostname ∷ client ∷ more_fields) =
    add_lease t mac ip hostname
add_dnsmasq_fields t short = t

-- `readDNSMasqLease`
abbrev pub add_dnsmasq_lines : Leases → List Bytes → Leases
add_dnsmasq_lines t [] = t
add_dnsmasq_lines t (line ∷ lines) = add_dnsmasq_lines (add_dnsmasq_fields t (fields line)) lines

unfoldable pub read_dnsmasq_lease : List Bytes → Leases
read_dnsmasq_lease lines = add_dnsmasq_lines no_leases lines

-- The lease of ISC dhcpd that the lines have described so far.
pub record Lease : Type 0 where
  pub name : Bytes
  pub ip : Bytes
  pub mac : Bytes

abbrev pub no_lease : Lease
no_lease = record { name = []; ip = []; mac = [] }

abbrev pub add_addr : Leases → Bytes → Bytes → Leases
add_addr t name [] = t
add_addr t name (c ∷ ip) = record t {
  names =
      add_to (add_to t.names (abs_domain_name (lower_ascii_bytes name)) (c ∷ ip))
        (abs_domain_name (lower_ascii_bytes name) ++ codes "local.") (c ∷ ip);
  addrs = add_to t.addrs (c ∷ ip) name;
}

abbrev pub add_mac : Leases → Bytes → Bytes → Leases
add_mac t name [] = t
add_mac t name (c ∷ mac) = record t { macs = add_to t.macs (c ∷ mac) name }

abbrev pub close_lease : Leases → Bytes → Bytes → Bytes → Leases
close_lease t [] ip mac = t
close_lease t (c ∷ name) ip mac =
    add_mac (add_addr t (abs_domain_name (c ∷ name)) ip) (abs_domain_name (c ∷ name)) mac

abbrev pub hardware_of : Lease → List Bytes → Lease
hardware_of l [] = l
hardware_of l (hw ∷ rest) = record l { mac = to_lower (drop_while_end (λ c. c == 59) hw) }

abbrev pub read_fields : Lease → List Bytes → Lease
read_fields l (key ∷ value ∷ rest) =
    if bytes_eq key (codes "lease")
    then record l { ip = to_lower value }
    else (if bytes_eq key (codes "hardware")
        then hardware_of l rest
        else (if bytes_eq key (codes "client-hostname")
            then record l {
              name =
                  drop_while_end (λ c. c == 34 || c == 59)
                    (drop_while (λ c. c == 34 || c == 59) value);
            }
            else l))
read_fields l short = l

-- `readDHCPDLease`
abbrev pub add_dhcpd_lines : Leases → Lease → List Bytes → Leases
add_dhcpd_lines t l [] = t
add_dhcpd_lines t l (line ∷ lines) =
    if is_close line
    then add_dhcpd_lines (close_lease t l.name l.ip l.mac) no_lease lines
    else add_dhcpd_lines t (read_fields l (fields line)) lines

unfoldable pub read_dhcpd_lease : List Bytes → Leases
read_dhcpd_lease lines = add_dhcpd_lines no_leases no_lease lines

-- `DHCP`, and its refresh at most once in five seconds
pub data Format : Type 0 where
  isc_dhcpd dnsmasq : Format

pub record Dhcp : Type 0 where
  pub leases : Leases
  pub file_info : FileInfo
  pub expires : ℕ

abbrev pub read_format : Format → List Bytes → Leases
read_format isc_dhcpd lines = read_dhcpd_lease lines
read_format dnsmasq lines = read_dnsmasq_lease lines

-- `getFileInfo`, whose error leaves the zero value
abbrev pub info_or_zero_of : Option FileInfo → FileInfo
info_or_zero_of none = record { path = []; mtime = 0; size = 0 }
info_or_zero_of (some fi) = fi

abbrev pub read_lease_lines : Dhcp → Format → FileView → Option (List Bytes × Bool) → Dhcp
read_lease_lines r format f none = r
read_lease_lines r format f (some (lines, true)) = r
read_lease_lines r format f (some (lines, false)) = record r {
  leases = read_format format lines;
  file_info = info_or_zero_of f.stat;
}

unfoldable pub read_lease : Dhcp → Format → FileView → Dhcp
read_lease r format f = if info_equal r.file_info f then r else read_lease_lines r format f f.lines

abbrev pub read_found_lease : Dhcp → Option (FileView × Format) → Dhcp
read_found_lease r none = r
read_found_lease r (some (f, format)) = read_lease r format f

unfoldable pub refresh_leases : Dhcp → ℕ → Option (FileView × Format) → Dhcp
refresh_leases r now found =
    if ltb now r.expires
    then r
    else read_found_lease (record r { expires = now + 5 * 10 ^ 9 }) found

-- The three lookups
unfoldable pub lookup_mac : Dhcp → ℕ → Option (FileView × Format) → Bytes → Dhcp × List Bytes
lookup_mac r now found mac =
    (refresh_leases r now found, (refresh_leases r now found).leases.macs mac)

unfoldable pub lookup_addr : Dhcp → ℕ → Option (FileView × Format) → Bytes → Dhcp × List Bytes
lookup_addr r now found addr =
    (refresh_leases r now found, (refresh_leases r now found).leases.addrs addr)

unfoldable pub lookup_host : Dhcp → ℕ → Option (FileView × Format) → Bytes → Dhcp × List Bytes
lookup_host r now found name = (
  refresh_leases r now found,
  (refresh_leases r now found).leases.names (prepare_host_lookup name),
)
