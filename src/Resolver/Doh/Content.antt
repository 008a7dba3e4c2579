-- ===== src/Resolver/Doh/Content.antt =====
-- `readDNSResponse` of resolver/doh.go: it returns, and what it leaves is the body.
use nextdns.Resolver.Doh.Reading.{
  Body, BodyRead, chunk, fail, fill, filled, last, mark_truncated, read_dns_response,
}
use nextdns.Prelude.{
  Bool-cases, Bytes, [], ap, append-nil, append_assoc, arith, bit_or, drop, false, get_elem?-lt,
  inl, inr, leb, length, length-append, length-drop, length-set, length-take, ltb, min, refl, set,
  some, take, take-append_right, take_of_length-le, true, ℕ, ◌++◌, ◌+◌, ◌-◌, ◌∙◌, ◌≡◌, ◌≤◌,
}
use nextdns.Resolver.Cacher.Buffer.{length-copy_into}
use nextdns.Resolver.Cache.{copy_into}

-- A read that ends: the buffer keeps its length, the count lies in it, and a failure counts nothing.
pub record IsRead (buf : Bytes) (b : BodyRead) : Type 0 where
  pub buffer : length b.buf ≡ length buf
  pub within : b.n ≤ length buf
  pub truncation : b.truncated ≡ true → b.n ≡ length buf
  pub failure : b.failed ≡ true → b.n ≡ 0

length-fill :
    (buf : Bytes) (n : ℕ) (bs : Bytes) → n ≤ length buf → length (fill buf n bs) ≡ length buf
length-fill buf n bs h =
    let room = take (length buf - n) bs in
    omega (
      arith,
      length-append (take n buf) (copy_into (drop n buf) room),
      length-take n buf,
      length-drop n buf,
      length-take (length buf - n) bs,
      length-copy_into (drop n buf) room
          (omega (arith, length-drop n buf, length-take (length buf - n) bs)),
    )

mark_truncated-IsRead :
    (buf b : Bytes)
    → length b ≡ length buf
    → 3 ≤ length buf
    → (r : BodyRead) × (mark_truncated b ≡ some r) × IsRead buf r
unfolding mark_truncated
mark_truncated-IsRead buf b size h =
    let (x, p) = get_elem?-lt b 2 (omega arith) in
    let q : ltb 2 (length b) ≡ true = ground arith in
    let b' = set b 2 (bit_or x 0x2) in
    let len = length-set b 2 (bit_or x 0x2) in
    (
      record { buf = b'; n = length b'; truncated = true; failed = false },
      rw (p, q),
      record {
        buffer = omega (arith, len);
        within = omega (arith, len);
        truncation = λ e. omega (arith, len);
        failure = λ e. absurd (ground arith);
      },
    )

-- For a buffer of at least three bytes, reading a body returns, however it comes in pieces.
pub read_dns_response-IsRead :
    (body : Body) (buf b : Bytes) (n : ℕ)
    → length b ≡ length buf
    → 3 ≤ length buf
    → n ≤ length buf
    → (r : BodyRead) × (read_dns_response body b n ≡ some r) × IsRead buf r
unfolding read_dns_response
read_dns_response-IsRead fail buf b n size big fits = (
  record { buf = b; n = 0; truncated = false; failed = true },
  refl,
  record {
    buffer = size;
    within = omega arith;
    truncation = λ e. absurd (ground arith);
    failure = λ e. refl;
  },
)
read_dns_response-IsRead (last bs) buf b n size big fits =
    let size' = length-fill b n bs (omega arith) ∙ size in
    elim (Bool-cases (ltb (length b - n) (length bs))) [
      | inl over ↦ rw over (mark_truncated-IsRead buf (fill b n bs) size' big)
      | inr whole ↦ (
        record { buf = fill b n bs; n = filled b n bs; truncated = false; failed = false },
        rw whole,
        record {
          buffer = size';
          within = omega arith;
          truncation = λ e. absurd (ground arith);
          failure = λ e. absurd (ground arith);
        },
      )
    ]
read_dns_response-IsRead (chunk bs rest) buf b n size big fits =
    let size' = length-fill b n bs (omega arith) ∙ size in
    elim (Bool-cases (leb (length b) (filled b n bs))) [
      | inl full ↦ rw full (mark_truncated-IsRead buf (fill b n bs) size' big)
      | inr room ↦
          rw room (
            read_dns_response-IsRead rest buf (fill b n bs) (filled b n bs) size' big (omega arith))
    ]

-- All that a body sends.
unfoldable pub content : Body → Bytes
content (chunk bs rest) = bs ++ content rest
content (last bs) = bs
content fail = []

-- A read that fits the buffer appends its bytes to what was read.
take-fill :
    (buf : Bytes) (n : ℕ) (bs : Bytes)
    → n ≤ length buf
    → length bs ≤ length buf - n
    → take (filled buf n bs) (fill buf n bs) ≡ take n buf ++ bs
unfolding copy_into
take-fill buf n bs h k =
    let e : min (length buf - n) (length bs) ≡ length bs = omega arith in
    let room = take_of_length-le (length buf - n) bs k in
    let tail = drop (length bs) (drop n buf) in
    let z : length bs + 0 ≡ length bs = omega arith in
    rw
      (
        e,
        room,
        take-append_right n (length bs) (take n buf) (bs ++ tail)
            (omega (arith, length-take n buf)),
      )
      (ap (λ t. take n buf ++ t)
        ((rw z at (take-append_right (length bs) 0 bs tail refl)) ∙ append-nil bs))

mark_truncated-truncated :
    (b : Bytes) (r : BodyRead) → mark_truncated b ≡ some r → r.truncated ≡ true
unfolding mark_truncated
mark_truncated-truncated b r h = ground arith

-- A body that is read to its end, neither failed nor cut, has left its whole content in the buffer,
-- in whatever pieces it came.
pub read_dns_response-content :
    (body : Body) (buf : Bytes) (n : ℕ) (r : BodyRead)
    → n ≤ length buf
    → read_dns_response body buf n ≡ some r
    → r.truncated ≡ false
    → r.failed ≡ false
    → take r.n r.buf ≡ take n buf ++ content body
unfolding read_dns_response content
read_dns_response-content fail buf n r fits h t f = absurd (ground arith)
read_dns_response-content (last bs) buf n r fits h t f =
    elim (Bool-cases (ltb (length buf - n) (length bs))) [
      | inl over ↦ absurd (cc (mark_truncated-truncated (fill buf n bs) r (rw over at h), t))
      | inr whole ↦
          let e = rw whole at h in
          let p : r.n ≡ filled buf n bs = cc in
          let q : r.buf ≡ fill buf n bs = cc in rw (p, q) (take-fill buf n bs fits (ground arith))
    ]
read_dns_response-content (chunk bs rest) buf n r fits h t f =
    elim (Bool-cases (leb (length buf) (filled buf n bs))) [
      | inl full ↦ absurd (cc (mark_truncated-truncated (fill buf n bs) r (rw full at h), t))
      | inr room ↦
          let size = length-fill buf n bs fits in
          read_dns_response-content rest (fill buf n bs) (filled buf n bs) r (omega arith)
            (rw room at h) t f
          ∙ ap (λ x. x ++ content rest) (take-fill buf n bs fits (ground arith))
          ∙ append_assoc (take n buf) bs (content rest)
    ]
