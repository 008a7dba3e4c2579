-- ===== src/Run/Endpoints.antt =====
-- `nextdnsEndpointManager` of run.go: the providers of the endpoint manager, the last of which is plain
-- DNS. What the HTTPS records bring, the health of the endpoints, and the DNS servers of the host are
-- inputs.
pub mod Encrypted
use nextdns.Prelude.{
  Bool, Bytes, List, Option, [], codes, if◌then◌else◌, ltb, map, none, some, ℕ, ◌*◌, ◌++◌, ◌-◌, ◌^◌,
  ◌||◌, ◌∷◌,
}
use nextdns.Endpoint.{Endpoint, dns, doh}
use nextdns.Endpoint.Manager.{Health, Offer, Settings, healthy, offers}

abbrev pub anycast1 : Endpoint
anycast1 = doh (codes "dns1.nextdns.io") [] (codes "45.90.28.0" ∷ codes "2a07:a8c0::" ∷ []) []

abbrev pub anycast2 : Endpoint
anycast2 = doh (codes "dns2.nextdns.io") [] (codes "45.90.30.0" ∷ codes "2a07:a8c1::" ∷ []) []

abbrev pub init_endpoint : Endpoint
init_endpoint =
    doh (codes "dns.nextdns.io") []
      (codes "45.90.28.0" ∷ codes "2a07:a8c0::" ∷ codes "45.90.30.0" ∷ codes "2a07:a8c1::" ∷ []) []

-- The fallback: the servers of the host, whose tests never fail, and an anycast address behind them.
unfoldable pub plain_endpoints : (Bytes → Bytes → Bytes) → List Bytes → List (Endpoint × Health)
plain_endpoints join_host_port ips =
    map (λ ip. (dns (join_host_port ip (codes "53")), healthy)) ips
    ++ (dns (codes "45.90.28.0:53"), healthy) ∷ []

abbrev pub ten_minutes : ℕ
ten_minutes = 10 * 60 * 10 ^ 9

-- The function that is given as `canFallback`
unfoldable pub can_fallback : Bool → ℕ → ℕ → Bool
can_fallback detect_captive_portals startup now =
    detect_captive_portals || ltb (now - startup) ten_minutes

-- What the providers offer to a test, with the health of the two anycast endpoints.
unfoldable pub nextdns_offers :
    (Bytes → Bytes → Bytes) → Offer → Health → Health → Bool → List Bytes → List Offer
nextdns_offers join_host_port svc h1 h2 can ips =
    svc
    ∷ offers ((anycast1, h1) ∷ (anycast2, h2) ∷ [])
    ∷ offers (if can then plain_endpoints join_host_port ips else [])
    ∷ []

-- `GetMinTestInterval`: plain DNS is left as soon as possible.
abbrev pub five_seconds : ℕ
five_seconds = 5 * 10 ^ 9

unfoldable pub min_test_interval : Option Endpoint → ℕ
min_test_interval none = 0
min_test_interval (some (doh hostname path bootstrap alpn)) = 0
min_test_interval (some (dns addr)) = five_seconds

abbrev pub nextdns_settings : Settings
nextdns_settings = record {
  init_endpoint = some init_endpoint;
  error_threshold = 0;
  min_test_interval = 0;
  get_min_test_interval = min_test_interval;
}
