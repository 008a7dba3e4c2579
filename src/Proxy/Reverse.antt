-- ===== src/Proxy/Reverse.antt =====
-- proxy/util.go: reverse names (`ptrIP`) and the private ones among them.
pub mod Labels
pub mod RoundTrip
pub mod Private
use nextdns.Prelude.{
  Bool, Bytes, Option, [], bit_and, bit_or, codes, drop, false, get_or, has_suffix, if◌then◌else◌,
  last_index_byte, leb, length, ltb, none, replicate, set, some, suc, take, zero, ℕ, ◌%◌, ◌&&◌, ◌*◌,
  ◌+◌, ◌-◌, ◌/◌, ◌==◌, ◌>>=◌, ◌||◌, ◌∷◌,
}
use nextdns.Net.{Ip, is_link_local_unicast, is_loopback, to4}

-- `strconv.ParseUint(s, base, 8)` for a base of 10 or 16: `none` is its error.
unfoldable pub digit : ℕ → Option ℕ
digit c =
    if leb 48 c && leb c 57
    then some (c - 48)
    else (if leb 97 c && leb c 122
        then some (c - 87)
        else (if leb 65 c && leb c 90 then some (c - 55) else none))

unfoldable pub parse_digits : ℕ → ℕ → Bytes → Option ℕ
parse_digits base n [] = some n
parse_digits base n (c ∷ s) = do
  d ← digit c
  if leb base d || ltb 255 (n * base + d) then none else parse_digits base (n * base + d) s

abbrev pub parse_uint : Bytes → ℕ → Option ℕ
parse_uint [] base = none
parse_uint (c ∷ s) base = parse_digits base 0 (c ∷ s)

-- The last label of a name and what stands before it; `none` where the name ends with a dot.
abbrev pub cut_at : Bytes → Option ℕ → Option (Bytes × Bytes)
cut_at ptr none = some (ptr, [])
cut_at ptr (some i) = if suc i == length ptr then none else some (drop (suc i) ptr, take i ptr)

unfoldable pub cut : Bytes → Option (Bytes × Bytes)
cut ptr = cut_at ptr (last_index_byte ptr 46)

-- `ip[ii] = b`, where two nibbles of an IPv6 address are joined.
unfoldable pub place : ℕ → ℕ → ℕ → Ip → Ip
place base i b ip =
    if base == 16
    then (if i % 2 == 1
        then set ip (i / 2) (bit_or b (get_or ip (i / 2) 0 * 16 % 256))
        else set ip (i / 2) b)
    else set ip i b

-- The loop over the labels, from `i` to `i + n`; `none` is a nil address.
unfoldable pub fill_ip : ℕ → ℕ → ℕ → Bytes → Ip → Option Ip
fill_ip base zero i ptr ip = some ip
fill_ip base (suc n) i [] ip = some ip
fill_ip base (suc n) i (c ∷ s) ip = do
  (label, rest) ← cut (c ∷ s)
  b ← parse_uint label base
  fill_ip base n (suc i) rest (place base i b ip)

-- `ptrIP`
abbrev pub arpa : Bytes
arpa = codes ".arpa."

abbrev pub in_addr : Bytes
in_addr = codes ".in-addr"

abbrev pub ip6 : Bytes
ip6 = codes ".ip6"

abbrev pub strip : ℕ → Bytes → Bytes
strip n ptr = take (length ptr - n) ptr

abbrev pub address_of : Bytes → Option Ip
address_of ptr =
    if has_suffix ptr in_addr
    then fill_ip 10 4 0 (strip 8 ptr) (replicate 4 0)
    else (if has_suffix ptr ip6 then fill_ip 16 32 0 (strip 4 ptr) (replicate 16 0) else none)

unfoldable pub ptr_ip : Bytes → Option Ip
ptr_ip ptr = if has_suffix ptr arpa then address_of (strip 6 ptr) else none

-- `isPrivateReverse`
abbrev pub is_private_v4 : Ip → Bool
is_private_v4 ip =
    get_or ip 0 0 == 10
    || (get_or ip 0 0 == 172 && bit_and (get_or ip 1 0) 240 == 16)
    || (get_or ip 0 0 == 192 && get_or ip 1 0 == 168)

unfoldable pub is_private : Ip → Bool
is_private ip =
    is_loopback ip
    || is_link_local_unicast ip
    || elim (to4 ip) [ [] ↦ get_or ip 0 0 == 253 | a ∷ rest ↦ is_private_v4 (a ∷ rest) ]

abbrev pub is_private_ptr : Option Ip → Bool
is_private_ptr none = false
is_private_ptr (some ip) = is_private ip

unfoldable pub is_private_reverse : Bytes → Bool
is_private_reverse name = is_private_ptr (ptr_ip name)
