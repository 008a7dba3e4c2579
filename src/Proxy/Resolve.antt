-- ===== src/Proxy/Resolve.antt =====
-- `Proxy.Resolve` of proxy/proxy.go: the hosts of this network, the upstream, the discovered hosts.
-- A size of zero or below is 0, and `none` is a run-time panic.
pub mod Order
use nextdns.Prelude.{
  Bool, Bytes, Option, [], bit_and, false, get_or, if◌then◌else◌, length, ltb, none, not, some,
  take, true, ℕ, ◌&&◌, ◌==◌, ◌>>=◌,
}
use nextdns.Query.{Query}
use nextdns.Resolver.Cacher.{ResolveInfo}
use nextdns.Proxy.Reverse.{is_private_reverse}
use nextdns.Proxy.Hosts.{HostResolver, Messages, hosts_resolve, reply_rcode, type_ptr}

-- What a resolver returns, with the buffer that it wrote.
pub record Answer : Type 0 where
  pub size : ℕ
  pub info : ResolveInfo
  pub is_error : Bool
  pub buffer : Bytes

pub record Proxy : Type 0 where
  pub local_resolver : Option HostResolver
  pub upstream : Query → Bytes → Option Answer
  pub discovery_resolver : Option HostResolver
  pub bogus_priv : Bool

abbrev pub rcode_name_error : ℕ
rcode_name_error = 3

abbrev pub no_info : ResolveInfo
no_info = record { transport = []; profile = []; from_cache = false }

-- `isNXDomain`
unfoldable pub is_nxdomain : Bytes → Bool
is_nxdomain msg = not (ltb (length msg) 4) && bit_and (get_or msg 3 0) 15 == 3

-- `q.Type == query.TypePTR && isPrivateReverse(q.Name)`
unfoldable pub is_private_query : Query → Bool
is_private_query q = q.qtype == type_ptr && is_private_reverse q.name

-- `n <= 0 || isNXDomain(buf[:n])`
unfoldable pub has_no_result : Answer → Option Bool
has_no_result a =
    if a.size == 0
    then some true
    else (if ltb (length a.buffer) a.size then none else some (is_nxdomain (take a.size a.buffer)))

module _ (m : Messages) where
  -- An answer of a host table ends the search; otherwise the next step goes on with its buffer.
  abbrev pub or_hosts : Option ℕ × Bytes → (Bytes → Option Answer) → Option Answer
  or_hosts (some n, buf) next =
      some (record { size = n; info = no_info; is_error = false; buffer = buf })
  or_hosts (none, buf) next = next buf

  abbrev pub try_hosts :
      Option HostResolver → Query → Bytes → (Bytes → Option Answer) → Option Answer
  try_hosts none q buf next = next buf
  try_hosts (some r) q buf next = or_hosts (hosts_resolve m r q buf) next

  abbrev pub ask_upstream : Proxy → Query → Bytes → Option Answer
  ask_upstream p q buf =
      if p.bogus_priv && is_private_query q
      then some (record { size = 0; info = no_info; is_error = false; buffer = buf })
      else p.upstream q buf

  -- The last step: the NXDOMAIN of a private name, or what the upstream brought.
  abbrev pub name_error : Answer → ℕ × Bytes → Answer
  name_error a (n, buf) = record { size = n; info = a.info; is_error = false; buffer = buf }

  abbrev pub conclude : Proxy → Query → Answer → Bytes → Option Answer
  conclude p q a buf =
      if p.bogus_priv && is_private_query q
      then some (name_error a (reply_rcode m rcode_name_error q buf))
      else some (record a { buffer = buf })

  abbrev pub discover : Proxy → Query → Answer → HostResolver → Bool → Option Answer
  discover p q a r true = try_hosts (some r) q a.buffer (conclude p q a)
  discover p q a r false = conclude p q a a.buffer

  abbrev pub with_discovery : Proxy → Query → Answer → Option HostResolver → Option Answer
  with_discovery p q a none = conclude p q a a.buffer
  with_discovery p q a (some r) = do missing ← has_no_result a; discover p q a r missing

  abbrev pub after_upstream : Proxy → Query → Answer → Option Answer
  after_upstream p q a =
      if q.recursion_desired
      then with_discovery p q a p.discovery_resolver
      else conclude p q a a.buffer

  unfoldable pub resolve : Proxy → Query → Bytes → Option Answer
  resolve p q buf =
      try_hosts p.local_resolver q buf (λ buf'. do a ← ask_upstream p q buf'; after_upstream p q a)
