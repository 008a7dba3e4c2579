-- ===== src/Discovery/Dns.antt =====
-- discovery/dns.go: the names that queries to the local DNS server ask for.
use nextdns.Prelude.{
  Bytes, Option, [], bit_and, codes, false, get_elem?, get_or, if◌then◌else◌, leb, none, some, suc,
  true, zero, ℕ, ◌%◌, ◌*◌, ◌++◌, ◌+◌, ◌-◌, ◌/◌, ◌==◌, ◌>>=◌, ◌∷◌,
}
use nextdns.Net.{Ip, to4}

-- The loop of `uitoaSlow`, which fills a buffer of 20 bytes from its end; `none` is an index below
-- the buffer.
unfoldable pub put_digits : ℕ → ℕ → Bytes → Option Bytes
put_digits zero val buf = none
put_digits (suc i) val buf = elim (leb 10 val) [
  | true ↦ put_digits i (val / 10) ((48 + val - val / 10 * 10) % 256 ∷ buf)
  | false ↦ some ((48 + val) % 256 ∷ buf)
]

unfoldable pub uitoa_slow : ℕ → Option Bytes
uitoa_slow val = if val == 0 then some (codes "0") else put_digits 20 val []

-- `uitoa`: the cache holds what `uitoaSlow` makes of the numbers below 256.
unfoldable pub uitoa : ℕ → Option Bytes
uitoa val = uitoa_slow val

abbrev pub hex_digit : ℕ → ℕ
hex_digit d = get_or (codes "0123456789abcdef") d 0

-- The loop over the bytes of an IPv6 address, from the last one.
unfoldable pub reverse_nibbles : Bytes → Bytes
reverse_nibbles [] = []
reverse_nibbles (v ∷ ip) =
    reverse_nibbles ip ++ hex_digit (bit_and v 15) ∷ 46 ∷ hex_digit (v / 16) ∷ 46 ∷ []

-- `reverseIP`: it panics on an IPv4 address of 4 bytes.
abbrev pub reverse_v4 : Ip → Option Bytes
reverse_v4 ip = do
  d ← get_elem? ip 15
  c ← get_elem? ip 14
  b ← get_elem? ip 13
  a ← get_elem? ip 12
  d' ← uitoa d
  c' ← uitoa c
  b' ← uitoa b
  a' ← uitoa a
  some (d' ++ 46 ∷ c' ++ 46 ∷ b' ++ 46 ∷ a' ++ codes ".in-addr.arpa.")

abbrev pub reverse_by : Ip → Ip → Option Bytes
reverse_by ip [] = some (reverse_nibbles ip ++ codes "ip6.arpa.")
reverse_by ip (a ∷ rest) = reverse_v4 ip

unfoldable pub reverse_ip : Ip → Option Bytes
reverse_ip ip = reverse_by ip (to4 ip)
