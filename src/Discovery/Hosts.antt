-- ===== src/Discovery/Hosts.antt =====
-- discovery/hosts.go: the hosts file. A table of names is a function, which is empty where nothing
-- was written. The parsing and printing of addresses are a record of functions, and what the file
-- system shows is an input.
pub mod Tables
pub mod Complete
use nextdns.Prelude.{
  Bool, Bytes, List, Option, [], bytes_eq, codes, drop, false, if◌then◌else◌, index_byte, is_space,
  last_index_byte, ltb, none, some, suc, take, true, zero, ℕ, ◌&&◌, ◌*◌, ◌++◌, ◌+◌, ◌==◌, ◌>>=◌,
  ◌^◌, ◌||◌, ◌∷◌,
}
use nextdns.Net.{Ip}
use nextdns.Discovery.Names.{abs_domain_name, lower_ascii_bytes, prepare_host_lookup}

-- `net.ParseIP` and `IP.String`
pub record Literals : Type 0 where
  pub parse_ip : Bytes → Option Ip
  pub print_ip : Ip → Bytes

abbrev pub Table : Type 0
Table = Bytes → List Bytes

-- `m[key] = values`
abbrev pub put : Table → Bytes → List Bytes → Table
put m key values = λ k. if bytes_eq k key then values else m k

-- `fileInfo`, and a file as `os.Stat` and the scanner show it: `lines` is missing where it cannot
-- be opened, and the flag is an error of the scanner.
pub record FileInfo : Type 0 where
  pub path : Bytes
  pub mtime : ℕ
  pub size : ℕ

pub record FileView : Type 0 where
  pub path : Bytes
  pub stat : Option FileInfo
  pub lines : Option (List Bytes × Bool)

-- `fileInfo.Equal`
abbrev pub same_stat : FileInfo → Option FileInfo → Bool
same_stat fi none = false
same_stat fi (some fi2) = fi.mtime == fi2.mtime && fi.size == fi2.size

unfoldable pub info_equal : FileInfo → FileView → Bool
info_equal fi f = bytes_eq fi.path f.path && same_stat fi f.stat

-- `strings.Fields`
abbrev pub flush : Bytes → List Bytes → List Bytes
flush [] fs = fs
flush (c ∷ word) fs = (c ∷ word) ∷ fs

abbrev pub fields_from : Bytes → Bytes → List Bytes
fields_from word [] = flush word []
fields_from word (c ∷ s) =
    if is_space c then flush word (fields_from [] s) else fields_from (word ++ c ∷ []) s

unfoldable pub fields : Bytes → List Bytes
fields s = fields_from [] s

-- `splitHostZone`: a zone behind the last percent sign, unless that is the first byte.
abbrev pub split_at : Bytes → Option ℕ → Bytes × Bytes
split_at s none = (s, [])
split_at s (some zero) = (s, [])
split_at s (some (suc i)) = (take (suc i) s, drop (suc (suc i)) s)

unfoldable pub split_host_zone : Bytes → Bytes × Bytes
split_host_zone s = split_at s (last_index_byte s 37)

-- The first dot or colon of an address.
abbrev pub first_mark : Bytes → Option ℕ
first_mark [] = none
first_mark (c ∷ s) = if c == 46 || c == 58 then some c else first_mark s

-- The addresses of this host for two names that have none.
abbrev pub local_addrs : List Bytes
local_addrs = codes "127.0.0.1" ∷ codes "::1" ∷ []

abbrev pub default_to : List Bytes → List Bytes → List Bytes
default_to ds [] = ds
default_to ds (v ∷ vs) = v ∷ vs

module _ (l : Literals) where
  -- `parseIPZone`
  abbrev pub parse_marked : Bytes → Option ℕ → Option (Ip × Bytes)
  parse_marked s none = none
  parse_marked s (some c) =
      if c == 46
      then (do ip ← l.parse_ip s; some (ip, []))
      else (do ip ← l.parse_ip (split_host_zone s).0; some (ip, (split_host_zone s).1))

  unfoldable pub parse_ip_zone : Bytes → Option (Ip × Bytes)
  parse_ip_zone s = parse_marked s (first_mark s)

  -- `parseLiteralIP`: the empty string where it is no address.
  abbrev pub print_literal : Option (Ip × Bytes) → Bytes
  print_literal none = []
  print_literal (some (ip, [])) = l.print_ip ip
  print_literal (some (ip, c ∷ zone)) = l.print_ip ip ++ 37 ∷ c ∷ zone

  unfoldable pub parse_literal_ip : Bytes → Bytes
  parse_literal_ip s = print_literal (parse_ip_zone s)

  -- The names and the addresses that are read so far.
  pub record Maps : Type 0 where
    pub names : Table
    pub addrs : Table

  -- One name of a line.
  unfoldable pub add_name : Bytes → Maps → Bytes → Maps
  add_name addr m field = record {
    names =
        put m.names (abs_domain_name (lower_ascii_bytes field))
          (m.names (abs_domain_name (lower_ascii_bytes field)) ++ addr ∷ []);
    addrs = put m.addrs addr (m.addrs addr ++ abs_domain_name field ∷ []);
  }

  abbrev pub add_names : Bytes → Maps → List Bytes → Maps
  add_names addr m [] = m
  add_names addr m (field ∷ fs) = add_names addr (add_name addr m field) fs

  -- A line without its comment: its address and the names behind it.
  abbrev pub uncomment_at : Bytes → Option ℕ → Bytes
  uncomment_at line none = line
  uncomment_at line (some i) = take i line

  abbrev pub add_literal : Maps → Bytes → List Bytes → Maps
  add_literal m [] fs = m
  add_literal m (c ∷ addr) fs = add_names (c ∷ addr) m fs

  abbrev pub add_fields : Maps → List Bytes → Maps
  add_fields m [] = m
  add_fields m (a ∷ []) = m
  add_fields m (a ∷ f ∷ fs) = add_literal m (parse_literal_ip a) (f ∷ fs)

  unfoldable pub add_line : Maps → Bytes → Maps
  add_line m line = add_fields m (fields (uncomment_at line (index_byte line 35)))

  abbrev pub add_lines : Maps → List Bytes → Maps
  add_lines m [] = m
  add_lines m (line ∷ lines) = add_lines (add_line m line) lines

  abbrev pub with_default : Maps → Bytes → Maps
  with_default m key = record m { names = put m.names key (default_to local_addrs (m.names key)) }

  abbrev pub no_maps : Maps
  no_maps = record { names = λ k. []; addrs = λ k. [] }

  -- `readHostsFile`, of a file that opens
  unfoldable pub read_hosts_file : List Bytes → Maps
  read_hosts_file lines =
      with_default (with_default (add_lines no_maps lines) (codes "localhost"))
        (codes "localhost.localdomain.")

  -- `Hosts`
  pub record Hosts : Type 0 where
    pub maps : Maps
    pub file_info : FileInfo
    pub expires : ℕ

  abbrev pub no_file_info : FileInfo
  no_file_info = record { path = []; mtime = 0; size = 0 }

  abbrev pub info_or_zero : Option FileInfo → FileInfo
  info_or_zero none = no_file_info
  info_or_zero (some fi) = fi

  -- `readHostsLocked`
  abbrev pub read_lines : Hosts → FileView → Option (List Bytes × Bool) → Hosts
  read_lines r f none = r
  read_lines r f (some (lines, true)) = r
  read_lines r f (some (lines, false)) = record r {
    maps = read_hosts_file lines;
    file_info = info_or_zero f.stat;
  }

  unfoldable pub read_hosts : Hosts → FileView → Hosts
  read_hosts r f = if info_equal r.file_info f then r else read_lines r f f.lines

  -- `refreshLocked`, at most once in five seconds
  abbrev pub read_found : Hosts → Option FileView → Hosts
  read_found r none = r
  read_found r (some f) = read_hosts r f

  unfoldable pub refresh : Hosts → ℕ → Option FileView → Hosts
  refresh r now found =
      if ltb now r.expires then r else read_found (record r { expires = now + 5 * 10 ^ 9 }) found

  -- `LookupAddr` and `LookupHost`
  unfoldable pub lookup_addr : Hosts → ℕ → Option FileView → Bytes → Hosts × List Bytes
  lookup_addr r now found addr = (refresh r now found, (refresh r now found).maps.addrs addr)

  unfoldable pub lookup_host : Hosts → ℕ → Option FileView → Bytes → Hosts × List Bytes
  lookup_host r now found name =
      (refresh r now found, (refresh r now found).maps.names (prepare_host_lookup name))
