-- ===== src/Resolver/Cacher/Buffer.antt =====
-- Buffers that a response is written into.
use nextdns.Prelude.{
  Bool-cases, Bytes, arith, drop, get_elem?, get_elem?-append_left, get_elem?-take, inl, inr,
  length, length-append, length-drop, length-take, ltb, refl, some, take, ℕ, ◌+◌, ◌<◌, ◌∙◌, ◌≡◌,
  ◌≤◌,
}
use nextdns.Resolver.Wire.{unpack_uint16}
use nextdns.Resolver.Cache.{copy_into}
use nextdns.Resolver.Cache.Safety.{update_ttl_total}
use nextdns.Resolver.Cacher.{cap_response}

pub length-copy_into :
    (buf m : Bytes) → length m ≤ length buf → length (copy_into buf m) ≡ length buf
unfolding copy_into
length-copy_into buf m h =
    omega (arith, length-append m (drop (length m) buf), length-drop (length m) buf)

pub get_elem?-copy_into :
    (buf m : Bytes) (i : ℕ) → i < length m → get_elem? (copy_into buf m) i ≡ get_elem? m i
unfolding copy_into
get_elem?-copy_into buf m i h = get_elem?-append_left m (drop (length m) buf) i h

-- The id field depends on the first two bytes only.
pub unpack-ext :
    (m m' : Bytes)
    → get_elem? m 0 ≡ get_elem? m' 0
    → get_elem? m 1 ≡ get_elem? m' 1
    → unpack_uint16 m 0 ≡ unpack_uint16 m' 0
unfolding unpack_uint16
unpack-ext m m' p q = let q' : get_elem? m (0 + 1) ≡ get_elem? m' (0 + 1) = q in rw (p, q')

-- A response with its TTLs capped: a buffer of the same length, with the same id.
pub cap_response_total :
    (max_ttl : ℕ) (buf : Bytes) (n : ℕ)
    → n ≤ length buf
    → (b : Bytes) × (cap_response max_ttl buf n ≡ some b)
      × (length b ≡ length buf)
      × (2 ≤ n → unpack_uint16 b 0 ≡ unpack_uint16 buf 0)
unfolding cap_response
cap_response_total max_ttl buf n fits = elim (Bool-cases (ltb 0 max_ttl)) [
  | inr off ↦ (buf, rw off, refl, λ two. refl)
  | inl on ↦
      let u = update_ttl_total (take n buf) (record { age = 0; max_age = 0; max_ttl = max_ttl }) in
      let m = u.value.0 in
      let size : length m ≡ n = omega (arith, u.same.size, length-take n buf) in
      let same : 2 ≤ n → (i : ℕ) → i < 2 → get_elem? (copy_into buf m) i ≡ get_elem? buf i =
        λ two i h.
          get_elem?-copy_into buf m i (omega arith)
          ∙ u.same.header i (omega arith)
          ∙ get_elem?-take n buf i (omega arith) in
      (
        copy_into buf m,
        rw (on, u.returned),
        length-copy_into buf m (omega arith),
        λ two. unpack-ext _ _ (same two 0 (omega arith)) (same two 1 (omega arith)),
      )
]
