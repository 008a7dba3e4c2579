-- ===== src/Net.antt =====
-- The standard library's `net.IP`, as the code uses it: a slice of 4 or 16 bytes, or nil.
use nextdns.Prelude.{
  Bool, Bytes, [], bit_and, bytes_eq, drop, get_or, if◌then◌else◌, length, replicate, take, ◌&&◌,
  ◌++◌, ◌==◌, ◌∷◌,
}

abbrev pub Ip : Type 0
Ip = Bytes

abbrev pub v4_in_v6_prefix : Bytes
v4_in_v6_prefix = replicate 10 0 ++ 255 ∷ 255 ∷ []

abbrev pub ipv6_loopback : Ip
ipv6_loopback = replicate 15 0 ++ 1 ∷ []

-- `ip.To4()`: nil is the empty list.
unfoldable pub to4 : Ip → Ip
to4 ip =
    if length ip == 4
    then ip
    else (if length ip == 16 && bytes_eq (take 12 ip) v4_in_v6_prefix then drop 12 ip else [])

-- `ip.Equal(x)`: an IPv4 address and its mapped form are the same.
unfoldable pub ip_equal : Ip → Ip → Bool
ip_equal ip x =
    if length ip == length x
    then bytes_eq ip x
    else (if length ip == 4 && length x == 16
        then bytes_eq (take 12 x) v4_in_v6_prefix && bytes_eq ip (drop 12 x)
        else (length ip == 16
            && length x == 4
            && bytes_eq (take 12 ip) v4_in_v6_prefix
            && bytes_eq (drop 12 ip) x))

unfoldable pub is_loopback : Ip → Bool
is_loopback ip = elim (to4 ip) [ [] ↦ ip_equal ip ipv6_loopback | a ∷ rest ↦ a == 127 ]

unfoldable pub is_link_local_unicast : Ip → Bool
is_link_local_unicast ip = elim (to4 ip) [
  | [] ↦ length ip == 16 && get_or ip 0 0 == 254 && bit_and (get_or ip 1 0) 192 == 128
  | a ∷ rest ↦ a == 169 && get_or rest 0 0 == 254
]
