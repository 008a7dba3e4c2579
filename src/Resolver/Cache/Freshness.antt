-- ===== src/Resolver/Cache/Freshness.antt =====
-- The TTL that `updateTTL` reports decides whether a cached message may still be served.
use nextdns.Prelude.{
  All, Bool, Bool-cases, Bytes, [], ap, arith, drop, drop_ext, false, get_elem?, get_elem?-le,
  if◌then◌else◌, inl, inr, leb, length, ltb, min, none, refl, some, suc, true, zero, ℕ, ◌%◌, ◌+◌,
  ◌-◌, ◌<◌, ◌==◌, ◌^◌, ◌∙◌, ◌∷◌, ◌≡◌, ◌≤◌, ◌⊎◌,
}
use nextdns.Resolver.Wire.{unpack_uint16, unpack_uint32}
use nextdns.Resolver.Wire.Bounds.{
  pack_uint32-lt, skip_name_total, slice_from-le, unpack_uint16-lt, unpack_uint32-lt, with_uint32,
}
use nextdns.Resolver.Cache.Safety.{skip_questions_total}
use nextdns.Resolver.Cache.Walk.{
  Rr, deciding_records, reached_records, record_at, records_from, served_ttl, with_ttl,
}
use nextdns.Resolver.Cache.{
  Ageing, Round, after_round, capped, finish, lower_ttl, max_uint32, more, record_round, remaining,
  stop, type_opt, update_record, update_records, update_ttl,
}

-- `m` is `msg` with changes below `off` only.
pub record Agrees (off : ℕ) (m msg : Bytes) : Type 0 where
  pub size : length m ≡ length msg
  pub behind : (j : ℕ) → off ≤ j → get_elem? m j ≡ get_elem? msg j

pub Agrees-refl : (off : ℕ) (m : Bytes) → Agrees off m m
Agrees-refl off m = record { size = refl; behind = λ j h. refl }

module _ {off : ℕ} {m msg : Bytes} (same : Agrees off m msg) where
  pub Agrees-drop : drop off m ≡ drop off msg
  Agrees-drop = drop_ext off m msg same.behind

  pub Agrees-unpack_uint16 : (i : ℕ) → off ≤ i → unpack_uint16 m i ≡ unpack_uint16 msg i
  unfolding unpack_uint16
  Agrees-unpack_uint16 i h = rw (same.behind i h, same.behind (i + 1) (omega arith))

  pub Agrees-unpack_uint32 : (i : ℕ) → off ≤ i → unpack_uint32 m i ≡ unpack_uint32 msg i
  unfolding unpack_uint32
  Agrees-unpack_uint32 i h = rw (
    same.behind i h,
    same.behind (i + 1) (omega arith),
    same.behind (i + 2) (omega arith),
    same.behind (i + 3) (omega arith),
  )

  pub Agrees-later : {o : ℕ} → off ≤ o → Agrees o m msg
  Agrees-later le = record { size = same.size; behind = λ j h. same.behind j (omega arith) }

Agrees-trans :
    {o o' p : ℕ} {x y z : Bytes} → Agrees o x y → Agrees o' y z → o ≤ p → o' ≤ p → Agrees p x z
Agrees-trans f g h k = record {
  size = f.size ∙ g.size;
  behind = λ j le. f.behind j (omega arith) ∙ g.behind j (omega arith);
}

-- What a record does to `minTTL`.
pub data Lowers (a : Ageing) (counts : Bool) (kind ttl t : ℕ) : ℕ → Type 0 where
  keeps : (kind ≡ type_opt) ⊎ (counts ≡ false) → Lowers a counts kind ttl t t
  lowers : (t' : ℕ) → t' ≡ lower_ttl a t (remaining a.age ttl) → Lowers a counts kind ttl t t'

-- An update that returns leaves the data length and all behind it as they were.
record Updated (a : Ageing) (counts : Bool) (m : Bytes) (off t kind ttl : ℕ) : Type 0 where
  after : Bytes
  left : ℕ
  returned : update_record a counts m off t ≡ some (after, left)
  same : Agrees (off - 2) after m
  lowered : Lowers a counts kind ttl t left
  written :
      (next : ℕ)
      → after ≡ with_ttl a m (record { kind = kind; ttl = ttl; ttl_at = off - 6; next = next })

capped-remaining :
    (a : Ageing) (ttl : ℕ) → capped a.max_ttl (remaining a.age ttl) ≡ served_ttl a ttl
unfolding capped remaining
capped-remaining a ttl = ground arith

Lowers-if :
    (a : Ageing) (counts : Bool) (kind ttl t : ℕ)
    → Lowers a counts kind ttl t (if counts then lower_ttl a t (remaining a.age ttl) else t)
Lowers-if a true kind ttl t = lowers _ refl
Lowers-if a false kind ttl t = keeps (inr refl)

update_record-Updated :
    (a : Ageing) (counts : Bool) (m : Bytes) (off t kind ttl : ℕ)
    → 22 ≤ off
    → off ≤ length m
    → unpack_uint16 m (off - 10) ≡ some kind
    → unpack_uint32 m (off - 6) ≡ some ttl
    → Updated a counts m off t kind ttl
unfolding update_record
update_record-Updated a counts m off t kind ttl lo hi k q =
    let (m', w, what, size, rest) =
      pack_uint32-lt m (off - 6) (capped a.max_ttl (remaining a.age ttl)) (omega arith) in
    elim (Bool-cases (kind == type_opt)) [
      | inl opt ↦ record {
        after = m;
        left = t;
        returned = rw (k, opt);
        same = Agrees-refl _ m;
        lowered = keeps (inl (ground arith));
        written = λ next. rw opt;
      }
      | inr other ↦ record {
        after = m';
        left = if counts then lower_ttl a t (remaining a.age ttl) else t;
        returned = rw (k, other, q, w);
        same = record { size = size; behind = λ j h. rest j (inr (omega arith)) };
        lowered = Lowers-if a counts kind ttl t;
        written = λ next. rw other (what ∙ ap (with_uint32 m (off - 6)) (capped-remaining a ttl));
      }
    ]

-- A round either returns 0 or the finished `minTTL`, or handles the record that `record_at` reads.
abbrev pub RoundReads : Ageing → Bool → Bytes → Bytes → ℕ → ℕ → Round → Type 0
RoundReads a counts m0 msg off t (stop m ret) =
    (ret ≡ 0) ⊎ ((ret ≡ finish t) × (length msg ≤ off) × (m ≡ m0))
RoundReads a counts m0 msg off t (more m o t') =
    (r : Rr) × (record_at msg off ≡ some r)
    × (o ≡ r.next)
    × (off ≤ o)
    × Agrees o m msg
    × Lowers a counts r.kind r.ttl t t'
    × (m ≡ with_ttl a m0 r)

pub record_round-reads :
    (a : Ageing) (counts : Bool) (m msg : Bytes) (off t : ℕ)
    → 12 ≤ off
    → Agrees off m msg
    → (r : Round) × (record_round a counts m off t ≡ some r) × RoundReads a counts m msg off t r
unfolding record_round record_at
record_round-reads a counts m msg off t lo ag = elim (Bool-cases (leb (length m) off)) [
  | inl end ↦ (stop m (finish t), rw end, inr (refl, ground (arith, ag.size), refl))
  | inr inside ↦
      let (l, s) = skip_name_total (drop off m) in
      let cut = slice_from-le m off (ground arith) in
      elim (Bool-cases (l == 0)) [
        | inl bad ↦ (stop m 0, rw (inside, cut, s, bad), inl refl)
        | inr good ↦ elim (Bool-cases (ltb (length m) (off + (l + 10)))) [
          | inl out ↦ (stop m 0, rw (inside, cut, s, good, out), inl refl)
          | inr fits ↦
              let off' = off + (l + 10) in
              let (kind, k) = unpack_uint16-lt m (off' - 10) (ground arith) in
              let (ttl, q) = unpack_uint32-lt m (off' - 6) (ground arith) in
              let (rdlen, p) = unpack_uint16-lt m (off' - 2) (ground arith) in
              let u =
                update_record-Updated a counts m off' t kind ttl (omega arith) (ground arith) k q in
              let p' : unpack_uint16 u.after (off' - 2) ≡ some rdlen =
                Agrees-unpack_uint16 u.same (off' - 2) (omega arith) ∙ p in
              elim (Bool-cases (ltb (length u.after) (off' + rdlen))) [
                | inl over ↦ (
                  stop u.after 0,
                  rw (inside, cut, s, good, fits, u.returned, p', over),
                  inl refl,
                )
                | inr ok ↦ (
                  more u.after (off' + rdlen) u.left,
                  rw (inside, cut, s, good, fits, u.returned, p', ok),
                  (
                    record { kind = kind; ttl = ttl; ttl_at = off' - 6; next = off' + rdlen },
                    rw (
                      ← Agrees-drop ag,
                      s,
                      ← Agrees-unpack_uint16 ag (off' - 10) (omega arith),
                      k,
                      ← Agrees-unpack_uint32 ag (off' - 6) (omega arith),
                      q,
                      ← Agrees-unpack_uint16 ag (off' - 2) (omega arith),
                      p,
                    ),
                    refl,
                    omega arith,
                    Agrees-trans u.same ag (omega arith) (omega arith),
                    u.lowered,
                    u.written (off' + rdlen),
                  ),
                )
              ]
        ]
      ]
]

-- A record that a client may still be given for `ret` seconds; OPT records carry no TTL.
abbrev pub IsFresh : Ageing → ℕ → Rr → Type 0
IsFresh a ret r = (r.kind ≡ type_opt) ⊎ (a.age + ret ≤ r.ttl)

Lowers-IsFresh :
    {a : Ageing} {counts : Bool} {kind ttl t t' : ℕ} (ret at next : ℕ)
    → counts ≡ true
    → 0 < ret
    → ret ≤ t'
    → Lowers a counts kind ttl t t'
    → IsFresh a ret (record { kind = kind; ttl = ttl; ttl_at = at; next = next })
unfolding lower_ttl remaining
Lowers-IsFresh ret at next c pos le (keeps (inl opt)) = inl opt
Lowers-IsFresh ret at next c pos le (keeps (inr no_count)) = cc
Lowers-IsFresh ret at next c pos le (lowers t' e) = inr (ground arith)

Lowers-le :
    {a : Ageing} {counts : Bool} {kind ttl t t' : ℕ} → Lowers a counts kind ttl t t' → t' ≤ t
unfolding lower_ttl
Lowers-le (keeps o) = omega arith
Lowers-le (lowers t' e) = ground arith

pub records_from-nil :
    (n : ℕ) (msg : Bytes) (off : ℕ) → length msg ≤ off → records_from n msg off ≡ []
unfolding records_from record_at unpack_uint16
records_from-nil zero msg off h = refl
records_from-nil (suc n) msg off h =
    let (l, s) = skip_name_total (drop off msg) in
    let e : get_elem? msg (off + (l + 10) - 10) ≡ none = get_elem?-le msg _ (omega arith) in
    rw (s, e, records_from, record_at, unpack_uint16)

pub records_from-cons :
    (n : ℕ) (msg : Bytes) (off : ℕ) {r : Rr}
    → record_at msg off ≡ some r
    → records_from (suc n) msg off ≡ r ∷ records_from n msg r.next
unfolding records_from
records_from-cons n msg off {r} p =
    ap (λ o. elim o [ none ↦ [] | some r' ↦ r' ∷ records_from n msg r'.next ]) p

module _ (a : Ageing) (idx ret : ℕ) (pos : 0 < ret) where
  records_from-counts :
      (n i off : ℕ) {t t' : ℕ} (msg : Bytes) (r : Rr)
      → record_at msg off ≡ some r
      → ret ≤ t'
      → Lowers a (ltb i idx) r.kind r.ttl t t'
      → All (IsFresh a ret) (records_from (min n (idx - (i + 1))) msg r.next)
      → All (IsFresh a ret) (records_from (min (suc n) (idx - i)) msg off)
  unfolding records_from
  records_from-counts n i off msg r p le low rest = elim (Bool-cases (ltb i idx)) [
    | inl counts ↦
        let e : min (suc n) (idx - i) ≡ suc (min n (idx - (i + 1))) = ground arith in
        rw (e, p, records_from) (Lowers-IsFresh ret r.ttl_at r.next counts pos le low, rest)
    | inr past ↦ let e : min (suc n) (idx - i) ≡ 0 = ground arith in rw e tt
  ]

  update_records-IsFresh :
      (n i : ℕ) (m msg : Bytes) (off t : ℕ) {m' : Bytes}
      → 12 ≤ off
      → Agrees off m msg
      → update_records n i idx a m off t ≡ some (m', ret)
      → (ret ≤ t) × All (IsFresh a ret) (records_from (min n (idx - i)) msg off)
  unfolding update_records finish
  update_records-IsFresh zero i m msg off t lo ag h =
      let e : min 0 (idx - i) ≡ 0 = omega arith in (ground arith, rw e (unfold records_from in tt))
  update_records-IsFresh (suc n) i m msg off t {m'} lo ag h =
      let (r, p, reads) = record_round-reads a (ltb i idx) m msg off t lo ag in
      go r reads (rw p at h) (λ m o t far ag q. update_records-IsFresh n (i + 1) m msg o t far ag q)
    where
      go :
          (r : Round)
          → RoundReads a (ltb i idx) m msg off t r
          → after_round r (update_records n (i + 1) idx a) ≡ some (m', ret)
          → ((m : Bytes) (o t : ℕ)
              → 12 ≤ o
              → Agrees o m msg
              → update_records n (i + 1) idx a m o t ≡ some (m', ret)
              → (ret ≤ t) × All (IsFresh a ret) (records_from (min n (idx - (i + 1))) msg o))
          → (ret ≤ t) × All (IsFresh a ret) (records_from (min (suc n) (idx - i)) msg off)
      go (stop x v) (inl zeroed) h rec = absurd (let e : v ≡ ret = cc in omega arith)
      go (stop x v) (inr (done, end, same)) h rec =
          let e : v ≡ ret = cc in
          (ground arith, rw (records_from-nil (min (suc n) (idx - i)) msg off end) tt)
      go (more x o t') (r, p, next, far, ag', low, what) h rec =
          let (le, rest) = rec x o t' (omega arith) ag' h in
          (
            omega (arith, Lowers-le low),
            records_from-counts n i off msg r p le low (rw next at rest),
          )

-- When `updateTTL` reports a positive TTL, every record of the answer and authority sections that
-- the loop reaches, OPT apart, has at least that much of its TTL left at this age.
pub update_ttl-IsFresh :
    (msg m : Bytes) (a : Ageing) (ret : ℕ)
    → update_ttl msg a ≡ some (m, ret)
    → 0 < ret
    → All (IsFresh a ret) (deciding_records msg)
unfolding update_ttl reached_records
update_ttl-IsFresh msg m a ret h pos = elim (Bool-cases (ltb (length msg) 12)) [
  | inl short ↦ absurd (let h' = rw short at h in let e : 0 ≡ ret = cc in omega arith)
  | inr long ↦
      let (qs, q) = unpack_uint16-lt msg 4 (ground arith) in
      let (an, r) = unpack_uint16-lt msg 6 (ground arith) in
      let (au, s) = unpack_uint16-lt msg 8 (ground arith) in
      let (ad, t) = unpack_uint16-lt msg 10 (ground arith) in
      elim (skip_questions_total qs msg 12 (omega arith)) [
        | inl bad ↦
            absurd (let h' = rw (long, q, r, s, t, bad) at h in let e : 0 ≡ ret = cc in omega arith)
        | inr (off, good, far) ↦
            let n : ℕ = (an + au + ad) % 2 ^ 16 in
            let idx : ℕ = (an + au) % 2 ^ 16 in
            let e : idx - 0 ≡ idx = omega arith in
            rw (q, r, s, t, good)
              (rw e at
                (update_records-IsFresh a idx ret pos n 0 msg msg off max_uint32 far
                  (Agrees-refl off msg) (rw (long, q, r, s, t, good) at h)).1)
      ]
]

-- `minTTL` at 0 or at its start is where an entry older than the maximum age leaves it.
abbrev Untouched : ℕ → Type 0
Untouched t = (t ≡ 0) ⊎ (t ≡ max_uint32)

finish-Untouched : (t : ℕ) → Untouched t → finish t ≡ 0
unfolding finish
finish-Untouched t (inl e) = rw e
finish-Untouched t (inr e) = rw e

module _ (a : Ageing) (limit : 0 < a.max_age) (old : a.max_age < a.age) where
  Lowers-Untouched :
      {counts : Bool} {kind ttl t t' : ℕ}
      → Lowers a counts kind ttl t t'
      → Untouched t
      → Untouched t'
  unfolding lower_ttl
  Lowers-Untouched (keeps o) u = u
  Lowers-Untouched (lowers t' e) u = inl (ground arith)

  update_records_old :
      (n i idx : ℕ) (m msg : Bytes) (off t ret : ℕ) {m' : Bytes}
      → 12 ≤ off
      → Agrees off m msg
      → Untouched t
      → update_records n i idx a m off t ≡ some (m', ret)
      → ret ≡ 0
  unfolding update_records
  update_records_old zero i idx m msg off t ret lo ag u h = cc (finish-Untouched t u)
  update_records_old (suc n) i idx m msg off t ret {m'} lo ag u h =
      let (r, p, reads) = record_round-reads a (ltb i idx) m msg off t lo ag in
      go r reads (rw p at h)
        (λ x o t' far ag' u' q. update_records_old n (i + 1) idx x msg o t' ret far ag' u' q)
    where
      go :
          (r : Round)
          → RoundReads a (ltb i idx) m msg off t r
          → after_round r (update_records n (i + 1) idx a) ≡ some (m', ret)
          → ((m : Bytes) (o t : ℕ)
              → 12 ≤ o
              → Agrees o m msg
              → Untouched t
              → update_records n (i + 1) idx a m o t ≡ some (m', ret)
              → ret ≡ 0)
          → ret ≡ 0
      go (stop x v) (inl zeroed) h rec = cc
      go (stop x v) (inr (done, end, same)) h rec = cc (finish-Untouched t u)
      go (more x o t') (r, p, next, far, ag', low, what) h rec =
          rec x o t' (omega arith) ag' (Lowers-Untouched low u) h

  -- An entry that is older than a maximum age which is set is never reported as fresh, whatever
  -- the TTLs of its records.
  pub update_ttl_old : (msg m : Bytes) (ret : ℕ) → update_ttl msg a ≡ some (m, ret) → ret ≡ 0
  unfolding update_ttl
  update_ttl_old msg m ret h = elim (Bool-cases (ltb (length msg) 12)) [
    | inl short ↦ let h' = rw short at h in cc
    | inr long ↦
        let (qs, q) = unpack_uint16-lt msg 4 (ground arith) in
        let (an, r) = unpack_uint16-lt msg 6 (ground arith) in
        let (au, s) = unpack_uint16-lt msg 8 (ground arith) in
        let (ad, t) = unpack_uint16-lt msg 10 (ground arith) in
        elim (skip_questions_total qs msg 12 (omega arith)) [
          | inl bad ↦ let h' = rw (long, q, r, s, t, bad) at h in cc
          | inr (off, good, far) ↦
              update_records_old _ 0 _ msg msg off max_uint32 ret far (Agrees-refl off msg)
                (inr refl) (rw (long, q, r, s, t, good) at h)
        ]
  ]
