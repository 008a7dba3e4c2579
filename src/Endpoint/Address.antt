-- ===== src/Endpoint/Address.antt =====
-- resolver/endpoint/endpoint.go and resolver/resolver.go: endpoints made of their texts, and the texts
-- of endpoints. What net and net/url parse and print is a record of functions.
pub mod RoundTrip
use nextdns.Prelude.{
  Bool, Bytes, List, Option, [], codes, has_prefix, if◌then◌else◌, none, some, trim_space, ◌++◌,
  ◌==◌, ◌>>=◌, ◌∷◌,
}
use nextdns.Endpoint.{Endpoint, dns, doh}

-- `url.URL`
pub record Url : Type 0 where
  pub host : Bytes
  pub path : Bytes
  pub fragment : Bytes

-- `url.Parse`, `net.SplitHostPort`, `net.JoinHostPort`, and whether `net.ParseIP` reads an address
pub record Texts : Type 0 where
  pub parse_url : Bytes → Option Url
  pub split_host_port : Bytes → Option (Bytes × Bytes)
  pub join_host_port : Bytes → Bytes → Bytes
  pub is_ip : Bytes → Bool

-- `strings.Split(s, ",")` and `strings.Join(a, ",")`
unfoldable pub split_commas : Bytes → Bytes → List Bytes
split_commas word [] = word ∷ []
split_commas word (c ∷ s) =
    let next = split_commas [] s in
    let longer = split_commas (word ++ c ∷ []) s in if c == 44 then word ∷ next else longer

unfoldable pub join_commas : List Bytes → Bytes
join_commas [] = []
join_commas (a ∷ []) = a
join_commas (a ∷ b ∷ as') = a ++ 44 ∷ join_commas (b ∷ as')

abbrev pub scheme : Bytes
scheme = codes "https://"

abbrev pub bootstrap_of : Bytes → List Bytes
bootstrap_of [] = []
bootstrap_of (c ∷ fragment) = split_commas [] (c ∷ fragment)

abbrev pub doh_of : Option Url → Option Endpoint
doh_of none = none
doh_of (some u) = some (doh u.host u.path (bootstrap_of u.fragment) [])

abbrev pub host_and_port : Bytes → Option (Bytes × Bytes) → Bytes × Bytes
host_and_port server none = (server, codes "53")
host_and_port server (some (host, port)) = (host, port)

abbrev pub dns_of : Texts → Bytes × Bytes → Option Endpoint
dns_of t (host, port) = if t.is_ip host then some (dns (t.join_host_port host port)) else none

-- `New`; `none` is an error.
unfoldable pub new : Texts → Bytes → Option Endpoint
new t server =
    if has_prefix server scheme
    then doh_of (t.parse_url server)
    else dns_of t (host_and_port server (t.split_host_port server))

-- `DOHEndpoint.String` and `DNSEndpoint.String`
abbrev pub with_fragment : Bytes → List Bytes → Bytes
with_fragment s [] = s
with_fragment s (b ∷ bootstrap) = s ++ 35 ∷ join_commas (b ∷ bootstrap)

unfoldable pub print : Endpoint → Bytes
print (doh hostname path bootstrap alpn) = with_fragment (scheme ++ hostname ++ path) bootstrap
print (dns addr) = addr

-- `resolver.New`: the endpoints of a list of servers, or the error of the first that is none.
unfoldable pub new_all : Texts → List Bytes → Option (List Endpoint)
new_all t [] = some []
new_all t (addr ∷ addrs) = do e ← new t (trim_space addr); es ← new_all t addrs; some (e ∷ es)

unfoldable pub new_resolver : Texts → Bytes → Option (List Endpoint)
new_resolver t servers = new_all t (split_commas [] servers)
