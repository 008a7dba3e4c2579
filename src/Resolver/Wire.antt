-- ===== src/Resolver/Wire.antt =====
-- The big-endian fields and the name skipper of resolver/cache.go. A read, a write or a slice out
-- of range is a run-time panic of Go, `none` here.
pub mod Bounds
use nextdns.Prelude.{
  Bytes, Option, bit_and, drop, get_elem?, if◌then◌else◌, leb, length, ltb, none, set, some, suc,
  zero, ℕ, ◌%◌, ◌*◌, ◌+◌, ◌/◌, ◌==◌, ◌>>=◌, ◌^◌,
}

-- `b[i:]`
unfoldable pub slice_from : Bytes → ℕ → Option Bytes
slice_from b i = if leb i (length b) then some (drop i b) else none

-- `b[i] = v`
unfoldable pub store : Bytes → ℕ → ℕ → Option Bytes
store b i v = if ltb i (length b) then some (set b i v) else none

-- `unpackUint16(b[i:])`; the bytes do not overlap, so `|` is a sum
unfoldable pub unpack_uint16 : Bytes → ℕ → Option ℕ
unpack_uint16 b i = do b0 ← get_elem? b i; b1 ← get_elem? b (i + 1); some (b0 * 256 + b1)

unfoldable pub unpack_uint32 : Bytes → ℕ → Option ℕ
unpack_uint32 b i = do
  b0 ← get_elem? b i
  b1 ← get_elem? b (i + 1)
  b2 ← get_elem? b (i + 2)
  b3 ← get_elem? b (i + 3)
  some (b0 * 2 ^ 24 + b1 * 2 ^ 16 + b2 * 2 ^ 8 + b3)

unfoldable pub pack_uint32 : Bytes → ℕ → ℕ → Option Bytes
unfolding store
pack_uint32 b i n = do
  b' ← store b i (n / 2 ^ 24 % 256)
  b'' ← store b' (i + 1) (n / 2 ^ 16 % 256)
  b''' ← store b'' (i + 2) (n / 2 ^ 8 % 256)
  store b''' (i + 3) (n % 256)

-- The body of the loop of `skipName` after the end test; `next` is the rest of the loop.
unfoldable pub skip_label : Bytes → ℕ → ℕ → (ℕ → Option ℕ) → Option ℕ
skip_label msg c off next =
    if bit_and c 0xC0 == 0x00
    then (if c == 0
        then some off
        else if ltb (length msg) (off + c)
        then some 0
        else next (off + c))
    else if bit_and c 0xC0 == 0xC0
    then some (off + 1)
    else some 0

-- The loop of `skipName` on fuel: the offset grows in each round, so `length msg` rounds are enough.
unfoldable pub skip_name_from : ℕ → Bytes → ℕ → Option ℕ
unfolding skip_label
skip_name_from zero msg off = none
skip_name_from (suc fuel) msg off =
    if leb (length msg) off
    then some 0
    else do c ← get_elem? msg off; skip_label msg c (off + 1) (skip_name_from fuel msg)

unfoldable pub skip_name : Bytes → Option ℕ
unfolding skip_name_from
skip_name msg = skip_name_from (suc (length msg)) msg 0
