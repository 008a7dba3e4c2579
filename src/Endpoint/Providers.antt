-- ===== src/Endpoint/Providers.antt =====
-- resolver/endpoint/endpoint.go: the providers of endpoints, and what they read of HTTPS records. The
-- parser of messages and the printing of addresses are inputs.
pub mod Alpn
pub mod Hang
use nextdns.Prelude.{
  Bytes, List, Option, [], drop, if◌then◌else◌, leb, length, ltb, none, some, suc, take, zero, ℕ,
  ◌++◌, ◌==◌, ◌∷◌,
}
use nextdns.Net.{Ip}
use nextdns.Message.{
  Https, Next, Reader, Skip, malformed, nothing_left, record_at, section_done, skip_failed, skipped,
  type_https,
}
use nextdns.Endpoint.{Endpoint, doh, equal}

-- An outer `none` is fuel that ran out, an inner one an error.
abbrev pub Result : Type 0 → Type 0
Result A = Option (Option A)

-- The loop of `parseAlpn` over what is left of the value: a length, and so many bytes.
unfoldable pub alpn_from : ℕ → Bytes → List Bytes → Result (List Bytes)
alpn_from zero b alpn = none
alpn_from (suc fuel) [] alpn = some (some alpn)
alpn_from (suc fuel) (l ∷ b) alpn =
    let rest = alpn_from fuel (drop l b) (alpn ++ take l b ∷ []) in
    if ltb (length b) l then some none else rest

-- Each round takes a byte at least.
unfoldable pub parse_alpn : Bytes → Result (List Bytes)
parse_alpn b = alpn_from (suc (length b)) b []

abbrev pub param_alpn : ℕ
param_alpn = 1

abbrev pub param_ipv4_hint : ℕ
param_ipv4_hint = 4

abbrev pub param_ipv6_hint : ℕ
param_ipv6_hint = 6

-- A DoH endpoint while its records are read.
pub record Draft : Type 0 where
  pub bootstrap : List Bytes
  pub alpn : List Bytes

-- What was read: the endpoints that are complete, the priority, and the one in work.
pub record Progress : Type 0 where
  pub endpoints : List Endpoint
  pub priority : ℕ
  pub current : Option Draft

pub data Found : Type 0 where
  provider_error : Found
  found : List Endpoint → Found

-- `SourceURLProvider.GetEndpoints`: an endpoint that was there before is used again. The last equal
-- one counts.
unfoldable pub reuse_one : List Endpoint → Endpoint → Endpoint → Endpoint
reuse_one [] fetched e = e
reuse_one (pe ∷ prev) fetched e = reuse_one prev fetched (if equal fetched pe then pe else e)

unfoldable pub reuse : List Endpoint → List Endpoint → List Endpoint
reuse prev [] = []
reuse prev (e ∷ es) = reuse_one prev e e ∷ reuse prev es

-- `StaticProvider.GetEndpoints`
abbrev pub static_endpoints : List Endpoint → Found
static_endpoints p = found p

module _ (r : Reader) (print_ip : Ip → Bytes) (hostname : Bytes) where
  open r use {State, answer_header, skip_answer, https_resource}

  -- `appendIPHint`: addresses of a size, until less is left.
  unfoldable pub append_ip_hint : ℕ → List Bytes → Bytes → ℕ → Result (List Bytes)
  append_ip_hint zero hints hint size = none
  append_ip_hint (suc fuel) hints hint size =
      let rest =
        append_ip_hint fuel (hints ++ print_ip (take size hint) ∷ []) (drop size hint) size in
      if leb size (length hint)
      then rest
      else if length hint == 0
      then some (some hints)
      else some none

  abbrev pub with_bootstrap : Draft → Result (List Bytes) → Result Draft
  with_bootstrap e none = none
  with_bootstrap e (some none) = some none
  with_bootstrap e (some (some ips)) = some (some (record e { bootstrap = ips }))

  abbrev pub with_alpn : Draft → Result (List Bytes) → Result Draft
  with_alpn e none = none
  with_alpn e (some none) = some none
  with_alpn e (some (some ids)) = some (some (record e { alpn = ids }))

  -- One parameter of a record; others are passed over.
  unfoldable pub read_param : Draft → ℕ × Bytes → Result Draft
  read_param e (key, value) =
      if key == param_ipv4_hint
      then with_bootstrap e (append_ip_hint (suc (length value)) e.bootstrap value 4)
      else if key == param_ipv6_hint
      then with_bootstrap e (append_ip_hint (suc (length value)) e.bootstrap value 16)
      else if key == param_alpn
      then with_alpn e (parse_alpn value)
      else some (some e)

  abbrev pub and_params : Result Draft → (Draft → Result Draft) → Result Draft
  and_params none next = none
  and_params (some none) next = some none
  and_params (some (some e)) next = next e

  unfoldable pub read_params : Draft → List (ℕ × Bytes) → Result Draft
  read_params e [] = some (some e)
  read_params e (p ∷ params) = and_params (read_param e p) λ e'. read_params e' params

  -- `endpoints = append(endpoints, e)`
  abbrev pub finish : List Endpoint → Option Draft → List Endpoint
  finish es none = es
  finish es (some e) = es ++ doh hostname [] e.bootstrap e.alpn ∷ []

  -- A record with a higher priority than the last begins a new endpoint.
  abbrev pub draft_of : Option Draft → Draft
  draft_of none = record { bootstrap = []; alpn = [] }
  draft_of (some e) = e

  unfoldable pub begin_record : Progress → ℕ → Progress
  begin_record p priority =
      if ltb p.priority priority
      then record {
        endpoints = finish p.endpoints p.current;
        priority = priority;
        current = some (draft_of none);
      }
      else record p { priority = priority; current = some (draft_of p.current) }

  abbrev pub after_params : Progress → Result Draft → (Progress → Option Found) → Option Found
  after_params p none rest = none
  after_params p (some none) rest = some provider_error
  after_params p (some (some e)) rest = rest (record p { current = some e })

  abbrev pub read_https :
      Option (Https × State) → Progress → (State → Progress → Option Found) → Option Found
  read_https none p rest = some provider_error
  read_https (some (rr, s)) p rest =
      let p' = begin_record p rr.priority in
      after_params p' (read_params (draft_of p'.current) rr.params) (rest s)

  -- A record of another type: the error of `SkipAnswer` is dropped, and the parser stays.
  abbrev pub pass_over :
      State → Skip State → Progress → (State → Progress → Option Found) → Option Found
  pass_over s (skipped s') p rest = rest s' p
  pass_over s (nothing_left s') p rest = rest s' p
  pass_over s skip_failed p rest = rest s p

  abbrev pub read_header : Next State → Progress → (State → Progress → Option Found) → Option Found
  read_header malformed p rest = some provider_error
  read_header section_done p rest = some (found (finish p.endpoints p.current))
  read_header (record_at h s) p rest =
      if h.rtype == type_https
      then read_https (https_resource s) p rest
      else pass_over s (skip_answer s) p rest

  -- The loop of `SourceHTTPSSVCProvider.GetEndpoints`, which takes any fuel as it may not end.
  unfoldable pub read_answers : ℕ → State → Progress → Option Found
  read_answers zero s p = none
  read_answers (suc fuel) s p = read_header (answer_header s) p (read_answers fuel)

  -- The whole answer, behind the exchange with the server
  abbrev pub start_progress : Progress
  start_progress = record { endpoints = []; priority = 0; current = none }

  abbrev pub read_questions : ℕ → Option State → Option Found
  read_questions fuel none = some provider_error
  read_questions fuel (some s) = read_answers fuel s start_progress

  unfoldable pub get_endpoints : ℕ → Option Bytes → Option Found
  get_endpoints fuel none = some provider_error
  get_endpoints fuel (some reply) = elim (r.start reply) [
    | none ↦ some provider_error
    | some (rcode, s) ↦ read_questions fuel (r.skip_all_questions s)
  ]
