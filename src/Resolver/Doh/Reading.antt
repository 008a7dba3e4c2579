-- ===== src/Resolver/Doh/Reading.antt =====
-- `readDNSResponse` of resolver/doh.go: the body of a response, read into a buffer.
use nextdns.Resolver.Wire.{store}
use nextdns.Prelude.{
  Bool, Bytes, Option, bit_or, drop, false, get_elem?, if◌then◌else◌, leb, length, ltb, min, some,
  take, true, ℕ, ◌++◌, ◌+◌, ◌-◌, ◌>>=◌,
}
use nextdns.Resolver.Cache.{copy_into}

-- The reads that a body answers with: some bytes, perhaps none; some bytes together with the end;
-- or a failure. Each read hands over what fits the rest of the buffer, and reports the end only
-- with the last byte.
pub data Body : Type 0 where
  chunk : Bytes → Body → Body
  last : Bytes → Body
  fail : Body

pub record BodyRead : Type 0 where
  pub buf : Bytes
  pub n : ℕ
  pub truncated : Bool
  pub failed : Bool

-- `r.Read(buf[n:])` of these bytes
abbrev pub fill : Bytes → ℕ → Bytes → Bytes
fill buf n bs = take n buf ++ copy_into (drop n buf) (take (length buf - n) bs)

-- `n += nn`
abbrev pub filled : Bytes → ℕ → Bytes → ℕ
filled buf n bs = n + min (length buf - n) (length bs)

-- `buf[2] |= 0x2; n = len(buf)`
unfoldable pub mark_truncated : Bytes → Option BodyRead
unfolding store
mark_truncated buf = do
  b ← get_elem? buf 2
  buf' ← store buf 2 (bit_or b 0x2)
  some (record { buf = buf'; n = length buf'; truncated = true; failed = false })

unfoldable pub read_dns_response : Body → Bytes → ℕ → Option BodyRead
read_dns_response fail buf n = some (record { buf = buf; n = 0; truncated = false; failed = true })
read_dns_response (last bs) buf n =
    if ltb (length buf - n) (length bs)
    then mark_truncated (fill buf n bs)
    else some
        (record { buf = fill buf n bs; n = filled buf n bs; truncated = false; failed = false })
read_dns_response (chunk bs rest) buf n =
    if leb (length buf) (filled buf n bs)
    then mark_truncated (fill buf n bs)
    else read_dns_response rest (fill buf n bs) (filled buf n bs)
