-- ===== src/Discovery/Sources.antt =====
-- discovery/resolver.go: the sources of names, in order.
pub mod Order
use nextdns.Prelude.{Bytes, List, Option, [], map, none, some, ◌∷◌}
use nextdns.Discovery.Names.{lower_ascii_bytes}

-- `Source`; a source that knows no MAC addresses has no last function.
pub record Source : Type 0 where
  pub lookup_addr : Bytes → List Bytes
  pub lookup_host : Bytes → List Bytes
  pub lookup_mac : Option (Bytes → List Bytes)

-- The first answer that is not empty.
abbrev pub or_else : List Bytes → List Bytes → List Bytes
or_else [] rest = rest
or_else (x ∷ xs) rest = x ∷ xs

unfoldable pub first_answer : List (Bytes → List Bytes) → Bytes → List Bytes
first_answer [] key = []
first_answer (s ∷ sources) key = or_else (s key) (first_answer sources key)

abbrev pub mac_sources : List Source → List (Bytes → List Bytes)
mac_sources [] = []
mac_sources (s ∷ sources) = elim s.lookup_mac [
  | none ↦ mac_sources sources
  | some f ↦ f ∷ mac_sources sources
]

-- `LookupAddr`, `LookupHost` and `LookupMAC`; `strings.ToLower` is that of ASCII.
unfoldable pub lookup_addr : List Source → Bytes → List Bytes
lookup_addr r addr = first_answer (map (λ s. s.lookup_addr) r) (lower_ascii_bytes addr)

unfoldable pub lookup_host : List Source → Bytes → List Bytes
lookup_host r name = first_answer (map (λ s. s.lookup_host) r) (lower_ascii_bytes name)

unfoldable pub lookup_mac : List Source → Bytes → List Bytes
lookup_mac r mac = first_answer (mac_sources r) (lower_ascii_bytes mac)
