-- ===== src/Resolver/Cache/Walk.antt =====
-- An independent reading of a message: its records, one after the other, with nothing updated.
use nextdns.Prelude.{
  Bytes, List, Option, [], drop, if◌then◌else◌, leb, min, none, some, suc, zero, ℕ, ◌%◌, ◌+◌, ◌-◌,
  ◌==◌, ◌>>=◌, ◌^◌, ◌∷◌,
}
use nextdns.Resolver.Wire.{skip_name, unpack_uint16, unpack_uint32}
use nextdns.Resolver.Cache.{Ageing, skip_questions, type_opt}
use nextdns.Resolver.Wire.Bounds.{with_uint32}

pub record Rr : Type 0 where
  pub kind : ℕ
  pub ttl : ℕ
  pub ttl_at : ℕ
  pub next : ℕ

-- The record at an offset: its name, the ten bytes of fixed fields, and the data behind them.
unfoldable pub record_at : Bytes → ℕ → Option Rr
record_at msg off = do
  l ← skip_name (drop off msg)
  kind ← unpack_uint16 msg (off + (l + 10) - 10)
  ttl ← unpack_uint32 msg (off + (l + 10) - 6)
  rdlen ← unpack_uint16 msg (off + (l + 10) - 2)
  some (record {
    kind = kind;
    ttl = ttl;
    ttl_at = off + (l + 10) - 6;
    next = off + (l + 10) + rdlen;
  })

unfoldable pub records_from : ℕ → Bytes → ℕ → List Rr
records_from zero msg off = []
records_from (suc n) msg off = elim (record_at msg off) [
  | none ↦ []
  | some r ↦ r ∷ records_from n msg r.next
]

abbrev pub or_nil : Option (List Rr) → List Rr
or_nil none = []
or_nil (some rs) = rs

-- The records that the loop over `n` of them reads, where `n` is chosen from the count of all records
-- and from that of the answer and authority sections. The counts are added as `uint16`.
unfoldable pub reached_records : (ℕ → ℕ → ℕ) → Bytes → List Rr
reached_records n msg = or_nil (do
  questions ← unpack_uint16 msg 4
  answers ← unpack_uint16 msg 6
  authorities ← unpack_uint16 msg 8
  additionals ← unpack_uint16 msg 10
  o ← skip_questions questions msg 12
  off ← o
  some (
      records_from
        (n ((answers + authorities + additionals) % 2 ^ 16) ((answers + authorities) % 2 ^ 16)) msg
        off))

-- The records whose age decides: those of the answer and authority sections, as far as the loop
-- goes.
abbrev pub deciding_records : Bytes → List Rr
deciding_records msg = reached_records min msg

abbrev pub all_records : Bytes → List Rr
all_records msg = reached_records (λ total deciding. total) msg

-- The TTL that a client is given: what is left of it, and at most a limit that is set.
abbrev pub served_ttl : Ageing → ℕ → ℕ
served_ttl a ttl =
    if a.max_ttl == 0
    then ttl - a.age
    else if leb (ttl - a.age) a.max_ttl
    then ttl - a.age
    else a.max_ttl

-- A message in which the TTLs of records, OPT records apart, are served ones.
abbrev pub with_ttl : Ageing → Bytes → Rr → Bytes
with_ttl a m r = if r.kind == type_opt then m else with_uint32 m r.ttl_at (served_ttl a r.ttl)

unfoldable pub aged : Ageing → Bytes → List Rr → Bytes
aged a m [] = m
aged a m (r ∷ rs) = aged a (with_ttl a m r) rs
