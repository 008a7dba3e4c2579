-- ===== src/Tests/Proxies.antt =====
-- proxy/ and discovery/ at concrete queries, with a builder of messages that writes two bytes.
use nextdns.Prelude.{
  All, Bytes, IsByte, [], arith, bit_or, bytes_eq, codes, false, get_elem?, length, max, min, none,
  refl, replicate, set, some, take, true, ℕ, ◌++◌, ◌<◌, ◌↔◌, ◌∷◌, ◌≡◌, ◌≤◌,
}
use nextdns.Discovery.Dns.{reverse_ip}
use nextdns.Discovery.AntiLoop.{Reach, World, calls_of, has_key}
use nextdns.Discovery.AntiLoop.Leak.{run_single_leaks}
use nextdns.Proxy.Reverse.{is_private_reverse, ptr_ip}
use nextdns.Proxy.Reverse.RoundTrip.{canonical, ptr_ip-reverse_ip}
use nextdns.Proxy.Reverse.Private.{InPrivateRange, is_private_reverse_iff}
use nextdns.Proxy.Hosts.{HostResolver, Messages}
use nextdns.Proxy.Resolve.{Answer, Proxy, is_private_query, no_info, resolve}
use nextdns.Proxy.Resolve.Order.{resolve_private}
use nextdns.Proxy.Serve.{message, read_tcp, serve_stream, udp_datagram, write_tcp}
use nextdns.Proxy.Serve.Udp.{udp_datagram-fits}
use nextdns.Proxy.Serve.Frames.{read_tcp-write_tcp, serve_stream-write_all, write_all}
use nextdns.Proxy.Pool.{TieredBufferPool, new_buffer, new_tiered_buffer_pool}
use nextdns.Proxy.Pool.Sizes.{IsTiered}
use nextdns.Tests.Messages.{a_response, buffer, private_ip, private_name, ptr_query}

abbrev builders : Messages
builders = record {
  Parser = ℕ;
  Header = ℕ;
  Question = ℕ;
  Name = Bytes;
  Builder = Bytes;
  print_ip = λ ip. codes "10.155.16.8";
  parse_ip = λ s. take 4 s;
  start = λ payload. some (0, 0);
  question = λ p. some 0;
  new_builder = λ buf h. buf;
  as_answer = λ h. h;
  start_answers = λ b x. set b 0 1;
  new_name = λ name. some name;
  a_resource = λ b x ip. (set b 1 1, false);
  aaaa_resource = λ b x ip. (set b 1 2, false);
  ptr_resource = λ b x name. (set b 1 3, false);
  finish = λ b. (some 2, b);
  buffer = λ b. b;
  reply_header = λ id rcode. rcode;
  add_question = λ b c t name. b;
}

-- Everyone knows one host.
abbrev hosts : HostResolver
hosts = record {
  lookup_addr = λ ip. codes "printer." ∷ [];
  lookup_host = λ name. codes "10.0.0.9" ∷ [];
}

abbrev nothing : Answer
nothing = record { size = 0; info = no_info; is_error = true; buffer = buffer }

abbrev proxy : Proxy
proxy = record {
  local_resolver = none;
  upstream = λ q buf. some nothing;
  discovery_resolver = some hosts;
  bogus_priv = true;
}

private_ptr : is_private_query ptr_query ≡ true
unfolding is_private_query is_private_reverse ptr_ip nextdns.Prelude.has_suffix bytes_eq
    nextdns.Proxy.Reverse.fill_ip nextdns.Proxy.Reverse.cut nextdns.Prelude.last_index_byte
    nextdns.Proxy.Reverse.parse_digits nextdns.Proxy.Reverse.digit nextdns.Proxy.Reverse.is_private
    nextdns.Net.is_loopback nextdns.Net.to4 nextdns.Proxy.Reverse.place
    nextdns.Net.is_link_local_unicast
private_ptr = refl

resolve_private_example :
    (resolve builders proxy ptr_query buffer
      ≡ resolve builders (record proxy { upstream = λ q buf. none }) ptr_query buffer)
    × ((a : Answer) → resolve builders proxy ptr_query buffer ≡ some a → a.is_error ≡ false)
resolve_private_example =
    resolve_private builders proxy (λ q buf. none) ptr_query buffer refl private_ptr

bytes_private_ip : All IsByte private_ip
bytes_private_ip = ground arith

ptr_ip-reverse_ip_example :
    (name : Bytes) × (reverse_ip private_ip ≡ some name)
    × (ptr_ip name ≡ some (canonical private_ip))
ptr_ip-reverse_ip_example = ptr_ip-reverse_ip private_ip refl bytes_private_ip

reads_private_name : ptr_ip private_name ≡ some (10 ∷ 155 ∷ 16 ∷ 8 ∷ [])
unfolding ptr_ip nextdns.Prelude.has_suffix bytes_eq nextdns.Proxy.Reverse.fill_ip
    nextdns.Proxy.Reverse.cut nextdns.Prelude.last_index_byte nextdns.Proxy.Reverse.parse_digits
    nextdns.Proxy.Reverse.digit nextdns.Proxy.Reverse.place
reads_private_name = refl

is_private_reverse_iff_example : (is_private_reverse private_name ≡ true) ↔ InPrivateRange 10 155
is_private_reverse_iff_example =
    is_private_reverse_iff private_name 10 155 16 8 (omega arith) reads_private_name

abbrev long_answer : Bytes
long_answer = replicate 600 1

udp_datagram-fits_example :
    (d : Bytes) × (udp_datagram 512 (600, long_answer) ≡ some d)
    × (length d ≡ min 600 (max 512 512))
    × (600 ≤ max 512 512 → 600 ≤ 4094 → d ≡ take 600 long_answer)
    × ((max 512 512 < 600)
        → (b : ℕ) × (get_elem? long_answer 2 ≡ some b) × (get_elem? d 2 ≡ some (bit_or b 2)))
udp_datagram-fits_example = udp_datagram-fits 512 600 long_answer (omega arith)

read_tcp-write_tcp_example :
    read_tcp (write_tcp a_response ++ (9 ∷ [])) ≡ message a_response (9 ∷ [])
read_tcp-write_tcp_example = read_tcp-write_tcp a_response (9 ∷ []) (omega arith)

serve_stream-write_all_example :
    serve_stream 3 (write_all (a_response ∷ buffer ∷ [])) ≡ (a_response ∷ buffer ∷ [], false)
serve_stream-write_all_example =
    serve_stream-write_all (a_response ∷ buffer ∷ []) 3
      ((omega arith, omega arith), ((omega arith, omega arith), tt)) (omega arith)

abbrev pool : TieredBufferPool
pool = record new_tiered_buffer_pool { medium = new_buffer 4096 ∷ [] }

pool-IsTiered : IsTiered pool
pool-IsTiered = record { smalls = tt; mediums = ((refl, refl), tt); larges = tt }

abbrev busy : World
busy = record { acquired = codes "a." ∷ []; running = codes "a." ∷ []; refused = [] }

held : has_key busy.acquired (codes "a.") ≡ true
unfolding bytes_eq
held = refl

run_single_leaks_example :
    (v : World) × Reach busy v
    × (v.running ≡ codes "a." ∷ codes "a." ∷ [])
    × (2 ≤ calls_of v.running (codes "a."))
run_single_leaks_example = run_single_leaks busy (codes "a.") held held
