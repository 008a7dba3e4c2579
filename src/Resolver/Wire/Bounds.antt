-- ===== src/Resolver/Wire/Bounds.antt =====
-- No field access that stays in range panics, and the name skipper of resolver/cache.go always
-- returns.
use nextdns.Prelude.{
  Bool-cases, Bytes, Option, arith, bit_and, drop, get_elem?, get_elem?-lt, get_elem?-set_ne, inl,
  inr, leb, length, length-set, ltb, refl, set, some, suc, zero, ℕ, ◌%◌, ◌*◌, ◌+◌, ◌/◌, ◌<◌, ◌==◌,
  ◌^◌, ◌∙◌, ◌≡◌, ◌≤◌, ◌⊎◌,
}
use nextdns.Resolver.Wire.{
  pack_uint32, skip_label, skip_name, skip_name_from, slice_from, store, unpack_uint16,
  unpack_uint32,
}

pub slice_from-le : (b : Bytes) (i : ℕ) → i ≤ length b → slice_from b i ≡ some (drop i b)
unfolding slice_from
slice_from-le b i h = ground arith

pub unpack_uint16-lt :
    (b : Bytes) (i : ℕ) → i + 2 ≤ length b → (v : ℕ) × (unpack_uint16 b i ≡ some v)
unfolding unpack_uint16
unpack_uint16-lt b i h =
    let (x, p) = get_elem?-lt b i (omega arith) in
    let (y, q) = get_elem?-lt b (i + 1) (omega arith) in (x * 256 + y, rw (p, q))

pub unpack_uint32-lt :
    (b : Bytes) (i : ℕ) → i + 4 ≤ length b → (v : ℕ) × (unpack_uint32 b i ≡ some v)
unfolding unpack_uint32
unpack_uint32-lt b i h =
    let (x, p) = get_elem?-lt b i (omega arith) in
    let (y, q) = get_elem?-lt b (i + 1) (omega arith) in
    let (z, r) = get_elem?-lt b (i + 2) (omega arith) in
    let (w, s) = get_elem?-lt b (i + 3) (omega arith) in
    (x * 2 ^ 24 + y * 2 ^ 16 + z * 2 ^ 8 + w, rw (p, q, r, s))

store-lt : (b : Bytes) (i v : ℕ) → i < length b → store b i v ≡ some (set b i v)
unfolding store
store-lt b i v h = ground arith

-- A message with a number in four of its bytes.
abbrev pub with_uint32 : Bytes → ℕ → ℕ → Bytes
with_uint32 b i n =
    set
      (set (set (set b i (n / 2 ^ 24 % 256)) (i + 1) (n / 2 ^ 16 % 256)) (i + 2) (n / 2 ^ 8 % 256))
      (i + 3) (n % 256)

pub pack_uint32-set :
    (b : Bytes) (i n : ℕ) → i + 4 ≤ length b → pack_uint32 b i n ≡ some (with_uint32 b i n)
unfolding pack_uint32
pack_uint32-set b i n h =
    let v0 : ℕ = n / 2 ^ 24 % 256 in
    let v1 : ℕ = n / 2 ^ 16 % 256 in
    let v2 : ℕ = n / 2 ^ 8 % 256 in
    let v3 : ℕ = n % 256 in
    let b1 = set b i v0 in
    let b2 = set b1 (i + 1) v1 in
    let b3 = set b2 (i + 2) v2 in
    let l1 = length-set b i v0 in
    let l2 = length-set b1 (i + 1) v1 in
    let l3 = length-set b2 (i + 2) v2 in
    rw (store-lt b i v0 (omega arith)) (
      rw (store-lt b1 (i + 1) v1 (omega arith))
        (rw (store-lt b2 (i + 2) v2 (omega arith)) (store-lt b3 (i + 3) v3 (omega arith))))

-- The result of a write in range has the same length, and the same bytes elsewhere.
pub pack_uint32-lt :
    (b : Bytes) (i n : ℕ)
    → i + 4 ≤ length b
    → (b' : Bytes) × (pack_uint32 b i n ≡ some b')
      × (b' ≡ with_uint32 b i n)
      × (length b' ≡ length b)
      × ((j : ℕ) → (j < i) ⊎ (i + 4 ≤ j) → get_elem? b' j ≡ get_elem? b j)
pack_uint32-lt b i n h =
    let v0 : ℕ = n / 2 ^ 24 % 256 in
    let v1 : ℕ = n / 2 ^ 16 % 256 in
    let v2 : ℕ = n / 2 ^ 8 % 256 in
    let v3 : ℕ = n % 256 in
    let b1 = set b i v0 in
    let b2 = set b1 (i + 1) v1 in
    let b3 = set b2 (i + 2) v2 in
    let l1 = length-set b i v0 in
    let l2 = length-set b1 (i + 1) v1 in
    let l3 = length-set b2 (i + 2) v2 in
    (
      set b3 (i + 3) v3,
      pack_uint32-set b i n h,
      refl,
      omega (arith, length-set b3 (i + 3) v3),
      λ j o.
          get_elem?-set_ne b3 v3 (λ e. omega arith)
          ∙ get_elem?-set_ne b2 v2 (λ e. omega arith)
          ∙ get_elem?-set_ne b1 v1 (λ e. omega arith)
          ∙ get_elem?-set_ne b v0 (λ e. omega arith),
    )

-- The rest of the loop is run at a later offset that lies in the slice, or not at all.
skip_label_total :
    (msg : Bytes) (c off : ℕ) (next : ℕ → Option ℕ)
    → ((o : ℕ) → off ≤ o → o ≤ length msg → (r : ℕ) × (next o ≡ some r))
    → off ≤ length msg
    → (r : ℕ) × (skip_label msg c off next ≡ some r)
unfolding skip_label
skip_label_total msg c off next h le = elim (Bool-cases (bit_and c 0xC0 == 0x00)) [
  | inl lit ↦ elim (Bool-cases (c == 0)) [
    | inl end ↦ (off, rw (lit, end))
    | inr more ↦ elim (Bool-cases (ltb (length msg) (off + c))) [
      | inl out ↦ (0, rw (lit, more, out))
      | inr fits ↦
          let (r, p) = h (off + c) (omega arith) (ground arith) in (r, rw (lit, more, fits) p)
    ]
  ]
  | inr other ↦ elim (Bool-cases (bit_and c 0xC0 == 0xC0)) [
    | inl ptr ↦ (off + 1, rw (other, ptr))
    | inr reserved ↦ (0, rw (other, reserved))
  ]
]

skip_name_from_total :
    (fuel : ℕ) (msg : Bytes) (off : ℕ)
    → length msg < off + fuel
    → off ≤ length msg
    → (r : ℕ) × (skip_name_from fuel msg off ≡ some r)
unfolding skip_name_from
skip_name_from_total zero msg off h le = absurd (omega arith)
skip_name_from_total (suc fuel) msg off h le = elim (Bool-cases (leb (length msg) off)) [
  | inl e ↦ (0, rw e)
  | inr e ↦
      let (c, p) = get_elem?-lt msg off (ground arith) in
      rw (e, p)
        (skip_label_total msg c (off + 1) (skip_name_from fuel msg)
          (λ o lo hi. skip_name_from_total fuel msg o (omega arith) hi) (ground arith))
]

-- On every input, `skipName` returns: its loop ends and no index is out of range.
pub skip_name_total : (msg : Bytes) → (r : ℕ) × (skip_name msg ≡ some r)
unfolding skip_name
skip_name_total msg = skip_name_from_total (suc (length msg)) msg 0 (omega arith) (omega arith)
