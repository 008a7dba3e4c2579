-- ===== src/Resolver/Cache.antt =====
-- resolver/cache.go: `updateTTL`, which ages the records of a cached message in place, and
-- `AdjustedResponse`. Times are nanoseconds since the zero time.
pub mod Safety
pub mod Walk
pub mod Freshness
pub mod Content
pub mod Response
use nextdns.Prelude.{
  Bool, Bytes, Option, drop, if◌then◌else◌, leb, length, ltb, min, none, some, suc, zero, ℕ, ◌%◌,
  ◌&&◌, ◌++◌, ◌+◌, ◌-◌, ◌/◌, ◌==◌, ◌>>=◌, ◌^◌,
}
use nextdns.Resolver.Wire.{pack_uint32, skip_name, slice_from, store, unpack_uint16, unpack_uint32}

pub record CacheKey : Type 0 where
  pub ctx : Bytes
  pub qclass : ℕ
  pub qtype : ℕ
  pub qname : Bytes

pub record CacheValue : Type 0 where
  pub time : ℕ
  pub msg : Bytes
  pub trans : Bytes

-- `query.TypeOPT` and `query.TypePTR`
abbrev pub type_opt : ℕ
type_opt = 41

abbrev pub type_ptr : ℕ
type_ptr = 12

-- `^minTTL` at the zero value
abbrev pub max_uint32 : ℕ
max_uint32 = 2 ^ 32 - 1

-- What the ageing of a cached message takes.
pub record Ageing : Type 0 where
  pub age : ℕ
  pub max_age : ℕ
  pub max_ttl : ℕ

-- Skips the questions: the offset behind them, or `none` inside for `return 0`.
unfoldable pub skip_questions : ℕ → Bytes → ℕ → Option (Option ℕ)
skip_questions zero msg off = some (some off)
skip_questions (suc n) msg off = if leb (length msg) off then some none else do
  rest ← slice_from msg off
  l ← skip_name rest
  if l == 0
      then some none
      else if ltb (length msg) (off + (l + 4))
      then some none
      else skip_questions n msg (off + (l + 4))

-- `if ^minTTL == 0 { minTTL = 0 }`
unfoldable pub finish : ℕ → ℕ
finish min_ttl = if min_ttl == max_uint32 then 0 else min_ttl

-- The remaining TTL of a record.
unfoldable pub remaining : ℕ → ℕ → ℕ
remaining age ttl = if ltb ttl age then 0 else ttl - age

-- The TTL that is written into a record.
unfoldable pub capped : ℕ → ℕ → ℕ
capped max_ttl ttl = if ltb 0 max_ttl && ltb max_ttl ttl then max_ttl else ttl

-- `minTTL` after a record of the answer and authority sections.
unfoldable pub lower_ttl : Ageing → ℕ → ℕ → ℕ
lower_ttl a min_ttl ttl =
    if ltb 0 a.max_age && ltb a.max_age a.age then 0 else if ltb ttl min_ttl then ttl else min_ttl

-- The `if` on the record's type: `off` is the offset behind the fixed fields of the record.
unfoldable pub update_record : Ageing → Bool → Bytes → ℕ → ℕ → Option (Bytes × ℕ)
update_record a counts msg off min_ttl = do
  qtype ← unpack_uint16 msg (off - 10)
  if qtype == type_opt then some (msg, min_ttl) else do
    ttl ← unpack_uint32 msg (off - 6)
    let left = remaining a.age ttl
    msg' ← pack_uint32 msg (off - 6) (capped a.max_ttl left)
    some (msg', if counts then lower_ttl a min_ttl left else min_ttl)

-- One round of the loop over the records: it returns, or goes on with an offset and `minTTL`.
pub data Round : Type 0 where
  stop : Bytes → ℕ → Round
  more : Bytes → ℕ → ℕ → Round

unfoldable pub record_round : Ageing → Bool → Bytes → ℕ → ℕ → Option Round
record_round a counts msg off min_ttl =
    if leb (length msg) off then some (stop msg (finish min_ttl)) else do
      rest ← slice_from msg off
      l ← skip_name rest
      if l == 0
          then some (stop msg 0)
          else if ltb (length msg) (off + (l + 10))
          then some (stop msg 0)
          else do
            (msg', min_ttl') ← update_record a counts msg (off + (l + 10)) min_ttl
            rdlen ← unpack_uint16 msg' (off + (l + 10) - 2)
            if ltb (length msg') (off + (l + 10) + rdlen)
                then some (stop msg' 0)
                else some (more msg' (off + (l + 10) + rdlen) min_ttl')

-- `return`, or on to the next round
abbrev pub after_round : Round → (Bytes → ℕ → ℕ → Option (Bytes × ℕ)) → Option (Bytes × ℕ)
after_round (stop msg ret) next = some (msg, ret)
after_round (more msg off min_ttl) next = next msg off min_ttl

-- `for i := uint16(0); i < rrCount; i++`: the first argument is the number of rounds left.
unfoldable pub update_records : ℕ → ℕ → ℕ → Ageing → Bytes → ℕ → ℕ → Option (Bytes × ℕ)
update_records zero i additionals_idx a msg off min_ttl = some (msg, finish min_ttl)
update_records (suc n) i additionals_idx a msg off min_ttl = do
  r ← record_round a (ltb i additionals_idx) msg off min_ttl
  after_round r (update_records n (i + 1) additionals_idx a)

-- `updateTTL`: the message, updated in place, and the result. The counts are `uint16`.
unfoldable pub update_ttl : Bytes → Ageing → Option (Bytes × ℕ)
update_ttl msg a = if ltb (length msg) 12 then some (msg, 0) else do
  questions ← unpack_uint16 msg 4
  answers ← unpack_uint16 msg 6
  authorities ← unpack_uint16 msg 8
  additionals ← unpack_uint16 msg 10
  o ← skip_questions questions msg 12
  elim o [
    | none ↦ some (msg, 0)
    | some off ↦
        update_records ((answers + authorities + additionals) % 2 ^ 16) 0
          ((answers + authorities) % 2 ^ 16) a msg off max_uint32
  ]

-- `uint32(now.Sub(t) / time.Second)`: `Sub` saturates, and a negative count of seconds wraps.
unfoldable pub age_at : ℕ → ℕ → ℕ
age_at t now =
    if leb t now
    then min (now - t) (2 ^ 63 - 1) / 10 ^ 9 % 2 ^ 32
    else (2 ^ 32 - min (t - now) (2 ^ 63) / 10 ^ 9 % 2 ^ 32) % 2 ^ 32

-- `copy(buf, msg)` for a buffer that is long enough
unfoldable pub copy_into : Bytes → Bytes → Bytes
copy_into buf msg = msg ++ drop (length msg) buf

pub record Adjusted : Type 0 where
  pub buf : Bytes
  pub n : ℕ
  pub min_ttl : ℕ

-- `AdjustedResponse`; `updateTTL` works on `buf[:n]`
unfoldable pub adjusted_response : CacheValue → Bytes → ℕ → ℕ → ℕ → ℕ → Option Adjusted
adjusted_response v buf id max_age max_ttl now =
    if ltb (length v.msg) 12
    then some (record { buf = buf; n = 0; min_ttl = 0 })
    else if ltb (length buf) (length v.msg)
    then some (record { buf = buf; n = 0; min_ttl = 0 })
    else do
      b0 ← store v.msg 0 (id / 2 ^ 8 % 256)
      b1 ← store b0 1 (id % 256)
      (b2, min_ttl) ←
          update_ttl b1 (record { age = age_at v.time now; max_age = max_age; max_ttl = max_ttl })
      some (record { buf = copy_into buf b2; n = length v.msg; min_ttl = min_ttl })
