-- ===== src/Host/Servers/Gateway.antt =====
-- What `gatewayDNS` of host/dns_linux.go finds.
use nextdns.Prelude.{
  Bool, Bool-cases, Bytes, List, Option, [], ap, arith, bytes_eq, bytes_eq_iff, false, inl, inr,
  length, length-replicate, none, not, refl, replicate, some, ℕ, ◌*◌, ◌<◌, ◌==◌, ◌||◌, ◌∙◌, ◌∷◌,
  ◌≡◌, ◌≢◌,
}
use nextdns.Host.Servers.{
  fields_from, gateway_dns, gateway_dns6, gateway_dns_common, gateway_lines, route,
}
use nextdns.Net.{Ip}
use nextdns.Host.Servers.{
  fields_from, gateway_dns, gateway_dns6, gateway_dns_common, gateway_lines, route,
}

bytes_eq-length : (a b : Bytes) → length a ≢ length b → bytes_eq a b ≡ false
bytes_eq-length a b ne = elim (Bool-cases (bytes_eq a b)) [
  | inl same ↦ absurd (ne (ap length ((bytes_eq_iff a b).0 same)))
  | inr other ↦ other
]

module _ (print_ip : Ip → Bytes) (probe : Bytes → Bool) where
  route_skips :
      (size : ℕ) (ip : Bytes) (fs dns : List Bytes) (rest : Bytes → List Bytes → List Bytes)
      → 0 < size
      → length ip ≡ size
      → route print_ip probe size ip fs dns rest ≡ rest ip dns
  route_skips size ip [] dns rest pos l = refl
  route_skips size ip (a ∷ []) dns rest pos l = refl
  route_skips size ip (a ∷ b ∷ []) dns rest pos l = refl
  route_skips size ip (a ∷ b ∷ c ∷ fs) dns rest pos l =
      elim (Bool-cases (not (length b == size * 2) || not (length c == size * 2))) [
        | inl bad ↦ rw bad
        | inr good ↦
            let ne : length b ≢ length ip = λ e. ground (arith, good, e, l, pos) in
            rw (good, bytes_eq-length b ip ne)
      ]

  gateway_lines_skips :
      (size : ℕ) (lines : List Bytes) (ip : Bytes) (dns : List Bytes)
      → 0 < size
      → length ip ≡ size
      → gateway_lines print_ip probe size lines ip dns ≡ dns
  unfolding gateway_lines
  gateway_lines_skips size [] ip dns pos l = refl
  gateway_lines_skips size (line ∷ lines) ip dns pos l =
      route_skips size ip (fields_from [] line) dns (gateway_lines print_ip probe size lines) pos l
      ∙ gateway_lines_skips size lines ip dns pos l

  gateway_dns_common_nil :
      (o : Option (List Bytes)) (size : ℕ)
      → 0 < size
      → gateway_dns_common print_ip probe o size ≡ []
  unfolding gateway_dns_common
  gateway_dns_common_nil none size pos = refl
  gateway_dns_common_nil (some lines) size pos =
      gateway_lines_skips size lines (replicate size 0) [] pos (length-replicate size 0)

  -- Whatever the table of routes holds, no gateway is found: the destination of a route, in
  -- hexadecimal digits, is compared with as many bytes as an address has.
  pub gateway_dns_never :
      (routes routes6 : Option (List Bytes))
      → (gateway_dns print_ip probe routes ≡ []) × (gateway_dns6 print_ip probe routes6 ≡ [])
  unfolding gateway_dns gateway_dns6
  gateway_dns_never routes routes6 = (
    gateway_dns_common_nil routes 4 (omega arith),
    gateway_dns_common_nil routes6 16 (omega arith),
  )
