-- ===== src/Config/Profile.antt =====
-- config/profile.go: profiles of clients. What the standard library parses and the interfaces of the
-- host are a record of functions.
pub mod Choice
pub mod Reload
use nextdns.Prelude.{
  Bool, Bytes, List, Option, [], bit_and, bytes_eq, drop, false, if◌then◌else◌, index_byte, length,
  none, not, some, suc, take, trim_space, true, ℕ, ◌&&◌, ◌++◌, ◌==◌, ◌>>=◌, ◌||◌, ◌∷◌,
}
use nextdns.Net.{Ip, ip_equal, to4}

-- `net.IPNet`
pub record IpNet : Type 0 where
  pub ip : Bytes
  pub mask : Bytes

pub record Host : Type 0 where
  pub parse_cidr : Bytes → Option IpNet
  pub parse_mac : Bytes → Option Bytes
  pub interface_ips : Bytes → Option (List Ip)
  pub print_net : IpNet → Bytes
  pub print_mac : Bytes → Bytes

-- A nil MAC is `none`; the addresses are nil where there is none.
pub record Profile : Type 0 where
  pub id : Bytes
  pub prefix : Option IpNet
  pub mac : Option Bytes
  pub dest_ips : List Ip

-- `IPNet.Contains`, where the mask has the length of the address.
abbrev pub masked_eq : Bytes → Bytes → Bytes → Bool
masked_eq (a ∷ net) (m ∷ mask) (b ∷ ip) = bit_and a m == bit_and b m && masked_eq net mask ip
masked_eq net mask ip = true

abbrev pub v4_or_self : Ip → Ip
v4_or_self ip = if length (to4 ip) == 4 then to4 ip else ip

unfoldable pub contains : IpNet → Ip → Bool
contains n ip = length (v4_or_self ip) == length n.ip && masked_eq n.ip n.mask (v4_or_self ip)

-- `newConfig`: the condition of a value, in the order in which it is tried.
abbrev pub no_condition : Bytes → Profile
no_condition id = record { id = id; prefix = none; mac = none; dest_ips = [] }

abbrev pub by_interface : Bytes → Option (List Ip) → Option Profile
by_interface id none = none
by_interface id (some ips) = some (record { id = id; prefix = none; mac = none; dest_ips = ips })

abbrev pub by_mac : Host → Bytes → Bytes → Option Bytes → Option Profile
by_mac h cond id (some mac) =
    some (record { id = id; prefix = none; mac = some mac; dest_ips = [] })
by_mac h cond id none = by_interface id (h.interface_ips cond)

abbrev pub by_prefix : Host → Bytes → Bytes → Option IpNet → Option Profile
by_prefix h cond id (some net) =
    some (record { id = id; prefix = some net; mac = none; dest_ips = [] })
by_prefix h cond id none = by_mac h cond id (h.parse_mac cond)

abbrev pub parse_at : Host → Bytes → Option ℕ → Option Profile
parse_at h v none = some (no_condition v)
parse_at h v (some i) =
    by_prefix h (trim_space (take i v)) (trim_space (drop (suc i) v))
      (h.parse_cidr (trim_space (take i v)))

unfoldable pub new_config : Host → Bytes → Option Profile
new_config h v = parse_at h v (index_byte v 61)

-- `Match`
abbrev pub prefix_allows : Option IpNet → Ip → Bool
prefix_allows none source = true
prefix_allows (some n) source = not (length source == 0) && contains n source

abbrev pub mac_bytes : Option Bytes → Bytes
mac_bytes none = []
mac_bytes (some mac) = mac

abbrev pub mac_allows : Bytes → Bytes → Bool
mac_allows [] mac = true
mac_allows (c ∷ m) mac = not (length mac == 0) && bytes_eq (c ∷ m) mac

abbrev pub any_equal : List Ip → Ip → Bool
any_equal [] dest = false
any_equal (ip ∷ ips) dest = ip_equal ip dest || any_equal ips dest

abbrev pub dest_allows : List Ip → Ip → Bool
dest_allows [] dest = true
dest_allows (ip ∷ ips) dest = not (length dest == 0) && any_equal (ip ∷ ips) dest

unfoldable pub match_rule : Profile → Ip → Ip → Bytes → Bool
match_rule p source dest mac =
    prefix_allows p.prefix source
    && (mac_allows (mac_bytes p.mac) mac && dest_allows p.dest_ips dest)

-- `isDefault`
abbrev pub is_none {ℓ} : {A : Type ℓ} → Option A → Bool
is_none none = true
is_none (some a) = false

abbrev pub is_empty {ℓ} : {A : Type ℓ} → List A → Bool
is_empty [] = true
is_empty (x ∷ xs) = false

unfoldable pub is_default : Profile → Bool
is_default p = is_none p.prefix && (is_empty (mac_bytes p.mac) && is_empty p.dest_ips)

-- `Profiles.Get`
unfoldable pub get_from : List Profile → Bytes → Ip → Ip → Bytes → Bytes
get_from [] def source dest mac = def
get_from (p ∷ ps) def source dest mac =
    if match_rule p source dest mac
    then (if is_default p then get_from ps p.id source dest mac else p.id)
    else get_from ps def source dest mac

unfoldable pub get : List Profile → Ip → Ip → Bytes → Bytes
get ps source dest mac = get_from ps [] source dest mac

-- `ipListEqual`
abbrev pub ip_list_equal : List Ip → List Ip → Bool
ip_list_equal [] [] = true
ip_list_equal [] (y ∷ ys) = false
ip_list_equal (x ∷ xs) [] = false
ip_list_equal (x ∷ xs) (y ∷ ys) = ip_equal x y && ip_list_equal xs ys

-- The test of `Profiles.Set` for the same criteria.
abbrev pub both_equal {ℓ} : {A : Type ℓ} → (A → A → Bool) → Option A → Option A → Bool
both_equal eq none y = false
both_equal eq (some x) none = false
both_equal eq (some x) (some y) = eq x y

unfoldable pub same_criteria : Host → Profile → Profile → Bool
same_criteria h p x =
    both_equal bytes_eq p.mac x.mac
    || ((not (is_empty p.dest_ips)
          && (not (is_empty x.dest_ips) && ip_list_equal p.dest_ips x.dest_ips))
        || (both_equal (λ m n. bytes_eq (h.print_net m) (h.print_net n)) p.prefix x.prefix
            || (is_none p.mac
                && (is_none p.prefix && is_empty p.dest_ips)
                && (is_none x.mac && (is_none x.prefix && is_empty x.dest_ips)))))

unfoldable pub insert : Host → List Profile → Profile → List Profile
insert h [] p = p ∷ []
insert h (x ∷ ps) p = if same_criteria h p x then p ∷ ps else x ∷ insert h ps p

-- `Profiles.Set`
unfoldable pub set_value : Host → List Profile → Bytes → Option (List Profile)
set_value h ps v = do p ← new_config h v; some (insert h ps p)

-- `profile.String` and `Profiles.Strings`: a MAC comes before a prefix, and the addresses of an
-- interface are not printed.
abbrev pub print_prefix : Host → Option IpNet → Bytes → Bytes
print_prefix h none id = id
print_prefix h (some n) id = h.print_net n ++ 61 ∷ id

abbrev pub print_condition : Host → Option Bytes → Option IpNet → Bytes → Bytes
print_condition h none prefix id = print_prefix h prefix id
print_condition h (some mac) prefix id = h.print_mac mac ++ 61 ∷ id

unfoldable pub print_profile : Host → Profile → Bytes
print_profile h p = print_condition h p.mac p.prefix p.id

unfoldable pub strings_of : Host → List Profile → List Bytes
strings_of h [] = []
strings_of h (p ∷ ps) = print_profile h p ∷ strings_of h ps
