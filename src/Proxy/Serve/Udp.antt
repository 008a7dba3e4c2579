-- ===== src/Proxy/Serve/Udp.antt =====
-- The datagrams of proxy/udp.go.
use nextdns.Prelude.{
  Bool-cases, Bytes, ap, arith, bit_or, false, get_elem?, get_elem?-lt, get_elem?-set_self,
  get_elem?-take, inl, inr, length, length-set, length-take, ltb, max, min, set, some, take, true,
  ℕ, ◌<◌, ◌∙◌, ◌≡◌, ◌≤◌,
}
use mathlib.Core.Path.{ap}
use nextdns.Proxy.Serve.{slice_to, udp_datagram, udp_size}

udp_size-min : (r m : ℕ) → (udp_size r m).0 ≡ min r (max 512 m)
unfolding udp_size
udp_size-min r m = ground arith

udp_size-whole : (r m : ℕ) → r ≤ max 512 m → r ≤ 4094 → (udp_size r m).1 ≡ false
unfolding udp_size
udp_size-whole r m h k = ground arith

udp_size-cut : (r m : ℕ) → max 512 m < r → (udp_size r m).1 ≡ true
unfolding udp_size
udp_size-cut r m h = ground arith

udp_size-big : (r m : ℕ) → (udp_size r m).1 ≡ true → 512 < r
unfolding udp_size
udp_size-big r m h = ground arith

slice_to-fits : (buf : Bytes) (n : ℕ) → n ≤ length buf → slice_to buf n ≡ some (take n buf)
slice_to-fits buf n h = let ok : ltb (length buf) n ≡ false = ground arith in rw ok

-- An answer that stands in its buffer is sent, and never panics. It is cut to what the client takes:
-- the size of its query's OPT record, and 512 bytes at least. It is sent as it is where it is not
-- cut and has at most 4094 bytes, and otherwise it has the TC bit.
pub udp_datagram-fits :
    (msg_size rsize : ℕ) (rbuf : Bytes)
    → rsize ≤ length rbuf
    → (d : Bytes) × (udp_datagram msg_size (rsize, rbuf) ≡ some d)
      × (length d ≡ min rsize (max 512 msg_size))
      × (rsize ≤ max 512 msg_size → rsize ≤ 4094 → d ≡ take rsize rbuf)
      × ((max 512 msg_size < rsize)
          → (b : ℕ) × (get_elem? rbuf 2 ≡ some b) × (get_elem? d 2 ≡ some (bit_or b 2)))
unfolding udp_datagram udp_size
udp_datagram-fits msg_size rsize rbuf h =
    let n_min = udp_size-min rsize msg_size in
    let n_le : (udp_size rsize msg_size).0 ≤ length rbuf = omega (arith, n_min, h) in
    elim (Bool-cases (udp_size rsize msg_size).1) [
      | inl tc ↦
          let big = udp_size-big rsize msg_size tc in
          let (b, at2) = get_elem?-lt rbuf 2 (omega arith) in
          let same = length-set rbuf 2 (bit_or b 2) in
          (
            take (udp_size rsize msg_size).0 (set rbuf 2 (bit_or b 2)),
            rw (tc, at2)
                (slice_to-fits (set rbuf 2 (bit_or b 2)) (udp_size rsize msg_size).0
                  (omega (arith, same, n_le))),
            (length-take (udp_size rsize msg_size).0 (set rbuf 2 (bit_or b 2))
                ∙ omega (arith, same, n_min, n_le)),
            λ le le'. absurd (cc (tc, udp_size-whole rsize msg_size le le')),
            λ lt. (
              b,
              at2,
              get_elem?-take (udp_size rsize msg_size).0 (set rbuf 2 (bit_or b 2)) 2 (omega arith)
                  ∙ get_elem?-set_self rbuf 2 (bit_or b 2) (omega arith),
            ),
          )
      | inr tc ↦ (
        take (udp_size rsize msg_size).0 rbuf,
        rw tc (slice_to-fits rbuf (udp_size rsize msg_size).0 n_le),
        (length-take (udp_size rsize msg_size).0 rbuf ∙ omega (arith, n_min, n_le)),
        λ le le'.
            let whole : (udp_size rsize msg_size).0 ≡ rsize = omega (arith, n_min, le) in
            ap (λ k. take k rbuf) whole,
        λ lt. absurd (cc (tc, udp_size-cut rsize msg_size lt)),
      )
    ]
