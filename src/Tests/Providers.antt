-- ===== src/Tests/Providers.antt =====
-- resolver/endpoint/ at concrete answers and addresses.
use nextdns.Prelude.{
  Bytes, [], ap, arith, bytes_eq, codes, if◌then◌else◌, none, refl, some, suc, sym, true, zero, ◌∷◌,
  ◌≡◌,
}
use nextdns.Net.{Ip}
use nextdns.Endpoint.{Endpoint, doh}
use nextdns.Endpoint.Address.{Texts}
use nextdns.Endpoint.Providers.{Found, Progress, parse_alpn, read_answers}
use nextdns.Endpoint.Providers.Hang.{Skips, read_answers_ends, read_answers_hang}
use nextdns.Tests.Readers.{an_address, reader, skip_one, stuck_reader}

abbrev print_ip : Ip → Bytes
print_ip ip = ip

abbrev host : Bytes
host = codes "dns.nextdns.io"

abbrev fresh_start : Progress
fresh_start = record { endpoints = []; priority = 0; current = none }

read_answers_hang_example : read_answers stuck_reader print_ip host 1000 2 fresh_start ≡ none
read_answers_hang_example =
    read_answers_hang stuck_reader print_ip host 2 2 an_address fresh_start refl refl refl 1000

skips : Skips reader print_ip host 2
skips zero s' h later e other = absurd cc
skips (suc n) s' h later e other = let same : suc n ≡ s' = cc in (n, ap skip_one (sym same))

read_answers_ends_example :
    (out : Found) × (read_answers reader print_ip host 3 2 fresh_start ≡ some out)
read_answers_ends_example =
    read_answers_ends reader print_ip host 2 fresh_start 3 skips (omega arith)

-- What is parsed and printed of two servers.
abbrev texts : Texts
texts = record {
  parse_url = λ s.
      if bytes_eq s (codes "https://dns.nextdns.io/abc#45.90.28.0,45.90.30.0")
      then some
          (record { host = host; path = codes "/abc"; fragment = codes "45.90.28.0,45.90.30.0" })
      else none;
  split_host_port = λ s. none;
  join_host_port = λ h p. h;
  is_ip = λ h. true;
}

abbrev server : Endpoint
server = doh host (codes "/abc") (codes "45.90.28.0" ∷ codes "45.90.30.0" ∷ []) (codes "h2" ∷ [])

parses_ids : parse_alpn (2 ∷ 104 ∷ 50 ∷ 0 ∷ []) ≡ some (some (codes "h2" ∷ [] ∷ []))
unfolding parse_alpn nextdns.Endpoint.Providers.alpn_from
parses_ids = refl
