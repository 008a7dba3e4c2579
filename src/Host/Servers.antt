-- ===== src/Host/Servers.antt =====
-- host/dns_linux.go and host/dns_util_unix.go: the DNS servers that the system knows. What the
-- commands print and the files hold are lists of lines; a server that answers is a test.
pub mod Gateway
use nextdns.Prelude.{
  Bool, Bytes, List, Option, [], bytes_eq, codes, drop, false, has_prefix, if◌then◌else◌,
  index_byte, is_space, leb, length, none, not, replicate, set, some, suc, trim_space, ℕ, ◌&&◌, ◌*◌,
  ◌++◌, ◌+◌, ◌-◌, ◌==◌, ◌>>=◌, ◌||◌, ◌∷◌,
}
use nextdns.Net.{Ip}

-- `appendUniq` of host/dns_util_unix.go: a value is added unless it is there.
unfoldable pub has_server : List Bytes → Bytes → Bool
has_server [] a = false
has_server (s ∷ set) a = bytes_eq a s || has_server set a

unfoldable pub append_uniq : List Bytes → List Bytes → List Bytes
append_uniq set [] = set
append_uniq set (a ∷ adds) = append_uniq (if has_server set a then set else set ++ a ∷ []) adds

-- `guessDNS`, with what the strategies find in the order in which they end
unfoldable pub guess_dns : List Bytes → List (List Bytes) → List Bytes
guess_dns dns [] = dns
guess_dns dns (found ∷ rest) = guess_dns (append_uniq dns found) rest

-- `nmcliGet`: the value behind the first colon of a line.
abbrev pub behind_colon : Bytes → Option ℕ → List Bytes
behind_colon line none = []
behind_colon line (some i) = trim_space (drop (suc i) line) ∷ []

unfoldable pub nmcli_lines : List Bytes → List Bytes
nmcli_lines [] = []
nmcli_lines (line ∷ rest) =
    (if has_prefix line (codes "IP4.DNS") then behind_colon line (index_byte line 58) else [])
    ++ nmcli_lines rest

unfoldable pub nmcli_get : Option (List Bytes) → List Bytes
nmcli_get none = []
nmcli_get (some lines) = nmcli_lines lines

-- `strings.Split(line, " ")`
unfoldable pub split_spaces : Bytes → Bytes → List Bytes
split_spaces word [] = word ∷ []
split_spaces word (c ∷ s) =
    let next = split_spaces [] s in
    let longer = split_spaces (word ++ c ∷ []) s in if c == 32 then word ∷ next else longer

-- `dhcpcdGet`: the slice from byte 21 panics for a line of 20 bytes. `unquote` is `strconv.Unquote`.
abbrev pub slice_from : ℕ → Bytes → Option Bytes
slice_from n s = if leb n (length s) then some (drop n s) else none

abbrev pub unquoted : Option Bytes → List Bytes
unquoted none = []
unquoted (some line) = split_spaces [] line

unfoldable pub dhcpcd_lines : (Bytes → Option Bytes) → List Bytes → Option (List Bytes)
dhcpcd_lines unquote [] = some []
dhcpcd_lines unquote (line ∷ rest) =
    let later = dhcpcd_lines unquote rest in
    if has_prefix line (codes "domain_name_servers=")
    then (do value ← slice_from 21 line; dns ← later; some (unquoted (unquote value) ++ dns))
    else later

-- `systemdLeaseDNSGet`
unfoldable pub lease_dns : List Bytes → List Bytes
lease_dns [] = []
lease_dns (line ∷ rest) =
    if has_prefix line (codes "DNS=") then drop 4 line ∷ lease_dns rest else lease_dns rest

-- `bytes.Fields`
abbrev pub flush : Bytes → List Bytes → List Bytes
flush [] fs = fs
flush (c ∷ word) fs = (c ∷ word) ∷ fs

unfoldable pub fields_from : Bytes → Bytes → List Bytes
fields_from word [] = flush word []
fields_from word (c ∷ s) =
    let next = fields_from [] s in
    let longer = fields_from (word ++ c ∷ []) s in if is_space c then flush word next else longer

-- `hex.Decode` of an even number of digits
abbrev pub hex_value : ℕ → Option ℕ
hex_value c =
    if leb 48 c && leb c 57
    then some (c - 48)
    else if leb 97 c && leb c 102
    then some (c - 87)
    else if leb 65 c && leb c 70
    then some (c - 55)
    else none

unfoldable pub hex_decode : Bytes → Option Bytes
hex_decode [] = some []
hex_decode (c ∷ []) = none
hex_decode (c ∷ d ∷ s) = do
  h ← hex_value c
  l ← hex_value d
  rest ← hex_decode s
  some ((h * 16 + l) ∷ rest)

-- `gatewayDNSCommon`: `ip` holds zeros first, and then the gateway that was decoded last.
module _ (print_ip : Ip → Bytes) (probe : Bytes → Bool) where
  abbrev pub decoded : Option Bytes → List Bytes → (Bytes → List Bytes → List Bytes) → List Bytes
  decoded none dns rest = dns
  decoded (some ip) dns rest =
      rest ip (if probe (print_ip ip) then dns ++ print_ip ip ∷ [] else dns)

  abbrev pub route :
      ℕ → Bytes → List Bytes → List Bytes → (Bytes → List Bytes → List Bytes) → List Bytes
  route size ip (a ∷ b ∷ c ∷ fs) dns rest =
      if not (length b == size * 2) || not (length c == size * 2)
      then rest ip dns
      else if not (bytes_eq b ip)
      then rest ip dns
      else decoded (hex_decode c) dns rest
  route size ip fs dns rest = rest ip dns

  unfoldable pub gateway_lines : ℕ → List Bytes → Bytes → List Bytes → List Bytes
  gateway_lines size [] ip dns = dns
  gateway_lines size (line ∷ lines) ip dns =
      route size ip (fields_from [] line) dns (gateway_lines size lines)

  unfoldable pub gateway_dns_common : Option (List Bytes) → ℕ → List Bytes
  gateway_dns_common none size = []
  gateway_dns_common (some lines) size = gateway_lines size lines (replicate size 0) []

  -- `gatewayDNS` and `gatewayDNS6`
  unfoldable pub gateway_dns : Option (List Bytes) → List Bytes
  gateway_dns routes = gateway_dns_common routes 4

  unfoldable pub gateway_dns6 : Option (List Bytes) → List Bytes
  gateway_dns6 routes = gateway_dns_common routes 16
