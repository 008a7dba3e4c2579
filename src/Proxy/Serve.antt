-- ===== src/Proxy/Serve.antt =====
-- proxy/udp.go and proxy/tcp.go: what a handler sends for one query, and how queries are framed on a
-- TCP stream. `none` is a panic, which the handler recovers from without an answer.
pub mod Udp
pub mod Frames
use nextdns.Prelude.{
  Bool, Bytes, List, Option, [], bit_or, drop, false, get_elem?, if◌then◌else◌, leb, length, ltb,
  none, set, some, suc, take, true, zero, ℕ, ◌%◌, ◌&&◌, ◌*◌, ◌+◌, ◌/◌, ◌==◌, ◌>>=◌, ◌||◌, ◌∷◌,
}
use nextdns.Query.{Query}
use nextdns.Proxy.Hosts.{Messages, reply_rcode}
use nextdns.Proxy.Resolve.{Answer, Proxy, resolve}

abbrev pub max_tcp_size : ℕ
max_tcp_size = 65535

abbrev pub max_udp_size : ℕ
max_udp_size = 512

abbrev pub max_dns0_size : ℕ
max_dns0_size = 4094

abbrev pub rcode_server_failure : ℕ
rcode_server_failure = 2

-- The size that is sent over UDP, and whether the TC bit is set.
unfoldable pub udp_size : ℕ → ℕ → ℕ × Bool
udp_size rsize msg_size =
    if ltb max_udp_size rsize && (ltb msg_size rsize || ltb max_dns0_size rsize)
    then (if ltb max_udp_size msg_size
        then (if ltb msg_size rsize then (msg_size, true) else (rsize, true))
        else (max_udp_size, true))
    else (rsize, false)

-- `rbuf[2] |= 0x2`
abbrev pub mark_truncated : Bool → Bytes → Option Bytes
mark_truncated false rbuf = some rbuf
mark_truncated true rbuf = do b ← get_elem? rbuf 2; some (set rbuf 2 (bit_or b 2))

-- `rbuf[:rsize]`
abbrev pub slice_to : Bytes → ℕ → Option Bytes
slice_to rbuf rsize = if ltb (length rbuf) rsize then none else some (take rsize rbuf)

unfoldable pub udp_datagram : ℕ → ℕ × Bytes → Option Bytes
udp_datagram msg_size (rsize, rbuf) = do
  rbuf' ← mark_truncated (udp_size rsize msg_size).1 rbuf
  slice_to rbuf' (udp_size rsize msg_size).0

-- `writeTCP`: the length as a big-endian uint16, and the message.
unfoldable pub write_tcp : Bytes → Bytes
write_tcp msg = length msg % 65536 / 256 ∷ length msg % 256 ∷ msg

-- `readTCP` on what the client has sent: the stream may end before the message, inside it, or the
-- message is there and the rest of the stream.
pub data TcpRead : Type 0 where
  end_of_stream unexpected_end : TcpRead
  message : Bytes → Bytes → TcpRead

abbrev pub read_full : ℕ → Bytes → TcpRead
read_full n stream =
    if leb n (length stream)
    then message (take n stream) (drop n stream)
    else (if length stream == 0 then end_of_stream else unexpected_end)

unfoldable pub read_tcp : Bytes → TcpRead
read_tcp [] = end_of_stream
read_tcp (hi ∷ []) = unexpected_end
read_tcp (hi ∷ lo ∷ stream) = read_full (hi * 256 + lo) stream

-- The loop of `serveTCPConn`: the queries that are dispatched, and whether an error ends it. The
-- fuel bounds the messages: each takes two bytes or more of the stream.
abbrev pub after_read : TcpRead → (Bytes → List Bytes × Bool) → List Bytes × Bool
after_read end_of_stream rest = ([], false)
after_read unexpected_end rest = ([], true)
after_read (message q stream) rest =
    if leb (length q) 14 then ([], true) else (q ∷ (rest stream).0, (rest stream).1)

unfoldable pub serve_stream : ℕ → Bytes → List Bytes × Bool
serve_stream zero stream = ([], false)
serve_stream (suc fuel) stream = after_read (read_tcp stream) (serve_stream fuel)

module _ (m : Messages) where
  -- A failed resolution is answered with SERVFAIL, whatever the buffer holds.
  unfoldable pub response : Query → Answer → ℕ × Bytes
  response q a =
      if a.is_error || (a.size == 0 || ltb max_tcp_size a.size)
      then reply_rcode m rcode_server_failure q a.buffer
      else (a.size, a.buffer)

  -- The handlers of one query.
  unfoldable pub handle_udp : Proxy → Query → Bytes → Option Bytes
  handle_udp p q rbuf = do a ← resolve m p q rbuf; udp_datagram q.msg_size (response q a)

  unfoldable pub handle_tcp : Proxy → Query → Bytes → Option Bytes
  handle_tcp p q rbuf = do
    a ← resolve m p q rbuf
    msg ← slice_to (response q a).1 (response q a).0
    some (write_tcp msg)
