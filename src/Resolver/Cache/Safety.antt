-- ===== src/Resolver/Cache/Safety.antt =====
-- `updateTTL` on untrusted bytes: it never panics, keeps the length, and leaves the header alone.
use nextdns.Prelude.{
  Bool, Bool-cases, Bytes, Option, arith, drop, get_elem?, if◌then◌else◌, inl, inr, leb, length,
  ltb, none, refl, some, suc, zero, ℕ, ◌+◌, ◌-◌, ◌<◌, ◌==◌, ◌∙◌, ◌≡◌, ◌≤◌, ◌⊎◌,
}
use nextdns.Resolver.Wire.Bounds.{
  pack_uint32-lt, skip_name_total, slice_from-le, unpack_uint16-lt, unpack_uint32-lt,
}
use nextdns.Resolver.Cache.{
  Ageing, Round, after_round, capped, finish, lower_ttl, max_uint32, more, record_round, remaining,
  skip_questions, stop, type_opt, update_record, update_records, update_ttl,
}

-- The same length, and the same twelve bytes of the header.
pub record SameHeader (msg msg' : Bytes) : Type 0 where
  pub size : length msg' ≡ length msg
  pub header : (j : ℕ) → j < 12 → get_elem? msg' j ≡ get_elem? msg j

SameHeader-refl : (msg : Bytes) → SameHeader msg msg
SameHeader-refl msg = record { size = refl; header = λ j h. refl }

SameHeader-trans : {a b c : Bytes} → SameHeader a b → SameHeader b c → SameHeader a c
SameHeader-trans p q = record {
  size = q.size ∙ p.size;
  header = λ j h. q.header j h ∙ p.header j h;
}

-- What a step that returns `r` has done to the message.
pub record Returns {ℓ} {A : Type ℓ} (msg : Bytes) (after : A → Bytes) (o : Option A) : Type ℓ where
  pub value : A
  pub returned : o ≡ some value
  pub same : SameHeader msg (after value)

update_record_total :
    (a : Ageing) (counts : Bool) (msg : Bytes) (off min_ttl : ℕ)
    → 22 ≤ off
    → off ≤ length msg
    → Returns msg (λ r. r.0) (update_record a counts msg off min_ttl)
unfolding update_record
update_record_total a counts msg off min_ttl lo hi =
    let (qtype, p) = unpack_uint16-lt msg (off - 10) (omega arith) in
    let (ttl, q) = unpack_uint32-lt msg (off - 6) (omega arith) in
    let left = remaining a.age ttl in
    let (msg', w, what, size, rest) =
      pack_uint32-lt msg (off - 6) (capped a.max_ttl left) (omega arith) in
    elim (Bool-cases (qtype == type_opt)) [
      | inl opt ↦ record {
        value = (msg, min_ttl);
        returned = rw (p, opt);
        same = SameHeader-refl msg;
      }
      | inr other ↦ record {
        value = (msg', if counts then lower_ttl a min_ttl left else min_ttl);
        returned = rw (p, other, q, w);
        same = record { size = size; header = λ j h. rest j (inl (omega arith)) };
      }
    ]

abbrev round_msg : Round → Bytes
round_msg (stop msg ret) = msg
round_msg (more msg off min_ttl) = msg

abbrev FarOff : Round → Type 0
FarOff (stop msg ret) = Unit {0}
FarOff (more msg off min_ttl) = 12 ≤ off

record_round_total :
    (a : Ageing) (counts : Bool) (msg : Bytes) (off min_ttl : ℕ)
    → 12 ≤ off
    → (r : Round) × (record_round a counts msg off min_ttl ≡ some r)
      × SameHeader msg (round_msg r)
      × FarOff r
unfolding record_round
record_round_total a counts msg off min_ttl lo = elim (Bool-cases (leb (length msg) off)) [
  | inl end ↦ (stop msg (finish min_ttl), rw end, SameHeader-refl msg, tt)
  | inr inside ↦
      let (l, s) = skip_name_total (drop off msg) in
      let cut = slice_from-le msg off (ground arith) in
      elim (Bool-cases (l == 0)) [
        | inl bad ↦ (stop msg 0, rw (inside, cut, s, bad), SameHeader-refl msg, tt)
        | inr good ↦ elim (Bool-cases (ltb (length msg) (off + (l + 10)))) [
          | inl out ↦ (stop msg 0, rw (inside, cut, s, good, out), SameHeader-refl msg, tt)
          | inr fits ↦
              let off' = off + (l + 10) in
              let u = update_record_total a counts msg off' min_ttl (omega arith) (ground arith) in
              let msg' = u.value.0 in
              let (rdlen, p) = unpack_uint16-lt msg' (off' - 2) (ground (arith, u.same.size)) in
              elim (Bool-cases (ltb (length msg') (off' + rdlen))) [
                | inl over ↦
                    (stop msg' 0, rw (inside, cut, s, good, fits, u.returned, p, over), u.same, tt)
                | inr ok ↦ (
                  more msg' (off' + rdlen) u.value.1,
                  rw (inside, cut, s, good, fits, u.returned, p, ok),
                  u.same,
                  omega arith,
                )
              ]
        ]
      ]
]

update_records_total :
    (n i idx : ℕ) (a : Ageing) (msg : Bytes) (off min_ttl : ℕ)
    → 12 ≤ off
    → Returns msg (λ r. r.0) (update_records n i idx a msg off min_ttl)
unfolding update_records
update_records_total zero i idx a msg off min_ttl lo = record {
  value = (msg, finish min_ttl);
  returned = refl;
  same = SameHeader-refl msg;
}
update_records_total (suc n) i idx a msg off min_ttl lo =
    let (r, p, same, far) = record_round_total a (ltb i idx) msg off min_ttl lo in
    rw p (go r same far (update_records_total n (i + 1) idx a))
  where
    go :
        (r : Round)
        → SameHeader msg (round_msg r)
        → FarOff r
        → ((m : Bytes) (o t : ℕ)
            → 12 ≤ o
            → Returns {A = Bytes × ℕ} m (λ x. x.0) (update_records n (i + 1) idx a m o t))
        → Returns {A = Bytes × ℕ} msg (λ x. x.0) (after_round r (update_records n (i + 1) idx a))
    go (stop m ret) same far rec = record { value = (m, ret); returned = refl; same = same }
    go (more m o t) same far rec =
        let u = rec m o t far in
        record { value = u.value; returned = u.returned; same = SameHeader-trans same u.same }

pub skip_questions_total :
    (n : ℕ) (msg : Bytes) (off : ℕ)
    → 12 ≤ off
    → ((skip_questions n msg off ≡ some none)
        ⊎ ((o : ℕ) × (skip_questions n msg off ≡ some (some o)) × (12 ≤ o)))
unfolding skip_questions
skip_questions_total zero msg off lo = inr (off, refl, lo)
skip_questions_total (suc n) msg off lo = elim (Bool-cases (leb (length msg) off)) [
  | inl end ↦ inl (rw end)
  | inr inside ↦
      let (l, s) = skip_name_total (drop off msg) in
      let cut = slice_from-le msg off (ground arith) in
      elim (Bool-cases (l == 0)) [
        | inl bad ↦ inl (rw (inside, cut, s, bad))
        | inr good ↦ elim (Bool-cases (ltb (length msg) (off + (l + 4)))) [
          | inl out ↦ inl (rw (inside, cut, s, good, out))
          | inr fits ↦
              rw (inside, cut, s, good, fits)
                (skip_questions_total n msg (off + (l + 4)) (omega arith))
        ]
      ]
]

-- Whatever the bytes of the message and the ageing, `updateTTL` returns: no index is out of range.
-- It keeps the length of the message and every byte of its header.
pub update_ttl_total : (msg : Bytes) (a : Ageing) → Returns msg (λ r. r.0) (update_ttl msg a)
unfolding update_ttl
update_ttl_total msg a = elim (Bool-cases (ltb (length msg) 12)) [
  | inl short ↦ record { value = (msg, 0); returned = rw short; same = SameHeader-refl msg }
  | inr long ↦
      let (qs, q) = unpack_uint16-lt msg 4 (ground arith) in
      let (an, r) = unpack_uint16-lt msg 6 (ground arith) in
      let (au, s) = unpack_uint16-lt msg 8 (ground arith) in
      let (ad, t) = unpack_uint16-lt msg 10 (ground arith) in
      elim (skip_questions_total qs msg 12 (omega arith)) [
        | inl bad ↦ record {
          value = (msg, 0);
          returned = rw (long, q, r, s, t, bad);
          same = SameHeader-refl msg;
        }
        | inr (off, good, far) ↦
            rw (long, q, r, s, t, good) (update_records_total _ _ _ a msg off max_uint32 far)
      ]
]
