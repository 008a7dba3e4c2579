-- ===== src/Resolver/Cache/Response.antt =====
-- `AdjustedResponse` of resolver/cache.go: what a client is given from the cache.
use nextdns.Resolver.Cache.Safety.{SameHeader, skip_questions_total, update_ttl_total}
use nextdns.Prelude.{
  All, Bool-cases, Bytes, Option-cases, ap, arith, drop, false, get_elem?-append_left,
  get_elem?-set_ne, inl, inr, length, length-append, length-drop, length-set, ltb, min, refl, set,
  some, suc, sym, take, take_front, true, zero, ℕ, ◌%◌, ◌&&◌, ◌++◌, ◌+◌, ◌-◌, ◌/◌, ◌<◌, ◌^◌, ◌∙◌,
  ◌∷◌, ◌≡◌, ◌≤◌, ◌⊎◌,
}
use nextdns.Resolver.Wire.{slice_from, store, unpack_uint16, unpack_uint32}
use nextdns.Resolver.Wire.Bounds.{unpack_uint16-lt}
use nextdns.Resolver.Cache.{
  Adjusted, Ageing, CacheValue, adjusted_response, age_at, copy_into, skip_questions, update_ttl,
}
use nextdns.Resolver.Cache.Walk.{
  Rr, aged, all_records, deciding_records, reached_records, record_at, records_from,
}
use nextdns.Resolver.Cache.Freshness.{
  Agrees, Agrees-drop, Agrees-later, Agrees-unpack_uint16, Agrees-unpack_uint32, IsFresh,
  update_ttl-IsFresh, update_ttl_old,
}
use nextdns.Resolver.Cache.Content.{update_ttl-aged}

-- What is read behind the first two bytes does not change with them.
slice_from-Agrees :
    {m msg : Bytes} (off : ℕ) → Agrees 12 m msg → 12 ≤ off → slice_from m off ≡ slice_from msg off
unfolding slice_from
slice_from-Agrees off ag lo = rw (ag.size, Agrees-drop (Agrees-later ag lo))

skip_questions-Agrees :
    (n : ℕ) {m msg : Bytes} (off : ℕ)
    → Agrees 12 m msg
    → 12 ≤ off
    → skip_questions n m off ≡ skip_questions n msg off
unfolding skip_questions
skip_questions-Agrees zero off ag lo = refl
skip_questions-Agrees (suc n) {m} {msg} off ag lo =
    let ih : (l : ℕ) → skip_questions n m (off + (l + 4)) ≡ skip_questions n msg (off + (l + 4)) =
      λ l. skip_questions-Agrees n (off + (l + 4)) ag (omega arith) in
    simp (ag.size, slice_from-Agrees off ag lo, ih)

record_at-Agrees :
    {m msg : Bytes} (off : ℕ) → Agrees 12 m msg → 12 ≤ off → record_at m off ≡ record_at msg off
unfolding record_at
record_at-Agrees {m} {msg} off ag lo =
    let at : (l k : ℕ)
        → k ≤ 10
        → unpack_uint16 m (off + (l + 10) - k) ≡ unpack_uint16 msg (off + (l + 10) - k) =
      λ l k h. Agrees-unpack_uint16 ag _ (omega arith) in
    let e10 = λ (l : ℕ). at l 10 (omega arith) in
    let e2 = λ (l : ℕ). at l 2 (omega arith) in
    let e6 : (l : ℕ)
        → unpack_uint32 m (off + (l + 10) - 6) ≡ unpack_uint32 msg (off + (l + 10) - 6) =
      λ l. Agrees-unpack_uint32 ag _ (omega arith) in
    simp (Agrees-drop (Agrees-later ag lo), e10, e2, e6)

record_at-far : (msg : Bytes) (off : ℕ) {r : Rr} → record_at msg off ≡ some r → off ≤ r.next
unfolding record_at
record_at-far msg off h = ground arith

records_from-Agrees :
    (n : ℕ) {m msg : Bytes} (off : ℕ)
    → Agrees 12 m msg
    → 12 ≤ off
    → records_from n m off ≡ records_from n msg off
unfolding records_from
records_from-Agrees zero off ag lo = refl
records_from-Agrees (suc n) {m} {msg} off ag lo = elim (Option-cases (record_at msg off)) [
  | inl e ↦ rw (record_at-Agrees off ag lo, e, records_from)
  | inr (r, e) ↦
      rw (record_at-Agrees off ag lo, e, records_from)
        (ap (◌∷◌ r) (records_from-Agrees n r.next ag (omega (arith, record_at-far msg off e))))
]

reached_records-Agrees :
    (k : ℕ → ℕ → ℕ) {m msg : Bytes}
    → Agrees 2 m msg
    → 12 ≤ length msg
    → reached_records k m ≡ reached_records k msg
unfolding reached_records
reached_records-Agrees k {m} {msg} ag long =
    let ag' : Agrees 12 m msg = Agrees-later ag (omega arith) in
    let (qs, q) = unpack_uint16-lt msg 4 (omega arith) in
    let (an, r) = unpack_uint16-lt msg 6 (omega arith) in
    let (au, s) = unpack_uint16-lt msg 8 (omega arith) in
    let (ad, t) = unpack_uint16-lt msg 10 (omega arith) in
    let n : ℕ = k ((an + au + ad) % 2 ^ 16) ((an + au) % 2 ^ 16) in
    let q' = Agrees-unpack_uint16 ag 4 (omega arith) ∙ q in
    let r' = Agrees-unpack_uint16 ag 6 (omega arith) ∙ r in
    let s' = Agrees-unpack_uint16 ag 8 (omega arith) ∙ s in
    let t' = Agrees-unpack_uint16 ag 10 (omega arith) ∙ t in
    let o = skip_questions-Agrees qs 12 ag' (omega arith) in
    elim (skip_questions_total qs msg 12 (omega arith)) [
      | inl bad ↦ rw (q, q', r, r', s, s', t, t', o, bad)
      | inr (off, good, far) ↦
          rw (q, q', r, r', s, s', t, t', o, good) (records_from-Agrees n off ag' far)
    ]

-- The message with another id, as `buf[0] = byte(id >> 8); buf[1] = byte(id)` leaves it.
abbrev pub with_id : Bytes → ℕ → Bytes
with_id msg id = set (set msg 0 (id / 2 ^ 8 % 256)) 1 (id % 256)

abbrev pub ageing : CacheValue → ℕ → ℕ → ℕ → Ageing
ageing v max_age max_ttl now = record {
  age = age_at v.time now;
  max_age = max_age;
  max_ttl = max_ttl;
}

with_id-Agrees : (msg : Bytes) (id : ℕ) → Agrees 2 (with_id msg id) msg
with_id-Agrees msg id = record {
  size =
      length-set (set msg 0 (id / 2 ^ 8 % 256)) 1 (id % 256) ∙ length-set msg 0 (id / 2 ^ 8 % 256);
  behind = λ j h.
      get_elem?-set_ne (set msg 0 (id / 2 ^ 8 % 256)) (id % 256) (λ e. omega arith)
      ∙ get_elem?-set_ne msg (id / 2 ^ 8 % 256) (λ e. omega arith);
}

unpack-with_id :
    (msg : Bytes) (id : ℕ) → 2 ≤ length msg → unpack_uint16 (with_id msg id) 0 ≡ some (id % 2 ^ 16)
unfolding unpack_uint16
unpack-with_id (x ∷ y ∷ msg) id h = ground arith
unpack-with_id msg id h = absurd (omega arith)

-- A cached message that is long enough and fits the buffer is handed out by `updateTTL`.
adjusted_response_fits :
    (v : CacheValue) (buf : Bytes) (id max_age max_ttl now : ℕ)
    → 12 ≤ length v.msg
    → length v.msg ≤ length buf
    → (m : Bytes) (t : ℕ)
    → update_ttl (with_id v.msg id) (ageing v max_age max_ttl now) ≡ some (m, t)
    → adjusted_response v buf id max_age max_ttl now
      ≡ some (record { buf = copy_into buf m; n = length v.msg; min_ttl = t })
unfolding adjusted_response store
adjusted_response_fits v buf id max_age max_ttl now lo hi m t h =
    let e1 : ltb (length v.msg) 12 ≡ false = ground arith in
    let e2 : ltb (length buf) (length v.msg) ≡ false = ground arith in
    let e3 : ltb 0 (length v.msg) ≡ true = ground arith in
    let e4 : ltb 1 (length (set v.msg 0 (id / 2 ^ 8 % 256))) ≡ true =
      ground (arith, length-set v.msg 0 (id / 2 ^ 8 % 256)) in
    rw (e1, e2, e3, e4, h)

-- What a client may rely on when it is served from the cache.
pub record IsServed (v : CacheValue) (buf : Bytes) (id : ℕ) (a : Ageing) (r : Adjusted)
    : Type 0 where
  pub size : r.n ≡ length v.msg
  pub header : 12 ≤ r.n
  pub fits : r.n ≤ length buf
  pub buffer : length r.buf ≡ length buf
  pub answers_id : unpack_uint16 r.buf 0 ≡ some (id % 2 ^ 16)
  pub content : take r.n r.buf ≡ aged a (with_id v.msg id) (all_records v.msg)
  pub fresh : All (IsFresh a r.min_ttl) (deciding_records v.msg)
  pub young : (a.max_age ≡ 0) ⊎ (a.age ≤ a.max_age)

unpack-append : (m rest : Bytes) → 2 ≤ length m → unpack_uint16 (m ++ rest) 0 ≡ unpack_uint16 m 0
unfolding unpack_uint16
unpack-append m rest h = rw (
  get_elem?-append_left m rest 0 (omega arith),
  get_elem?-append_left m rest (0 + 1) (omega arith),
)

unpack-SameHeader : {m m' : Bytes} → SameHeader m m' → unpack_uint16 m' 0 ≡ unpack_uint16 m 0
unfolding unpack_uint16
unpack-SameHeader s = rw (s.header 0 (omega arith), s.header (0 + 1) (omega arith))

not_old :
    (a : Ageing) (m m' : Bytes) (t : ℕ)
    → update_ttl m a ≡ some (m', t)
    → 0 < t
    → (a.max_age ≡ 0) ⊎ (a.age ≤ a.max_age)
not_old a m m' t h pos = elim (Bool-cases (ltb 0 a.max_age && ltb a.max_age a.age)) [
  | inl old ↦ absurd (omega (arith, update_ttl_old a (ground arith) (ground arith) m m' t h))
  | inr young ↦ ground arith
]

-- `AdjustedResponse` never panics. Either it hands out nothing, because the cached message is
-- shorter than a header or does not fit the buffer, or it hands out as many bytes as the message has, in a buffer
-- of unchanged length; and when it reports a positive TTL, the buffer holds the message with the id
-- asked for and with the TTL that is left of each record, OPT apart, which a limit that is set caps,
-- all its deciding records have that TTL left, and it is not older than a maximum age that is set.
pub adjusted_response-IsServed :
    (v : CacheValue) (buf : Bytes) (id max_age max_ttl now : ℕ)
    → ((adjusted_response v buf id max_age max_ttl now
          ≡ some (record { buf = buf; n = 0; min_ttl = 0 }))
        × ((length v.msg < 12) ⊎ (length buf < length v.msg)))
      ⊎ ((r : Adjusted) × (adjusted_response v buf id max_age max_ttl now ≡ some r)
          × (r.n ≡ length v.msg)
          × (r.n ≤ length buf)
          × (length r.buf ≡ length buf)
          × (0 < r.min_ttl → IsServed v buf id (ageing v max_age max_ttl now) r))
adjusted_response-IsServed v buf id max_age max_ttl now =
    elim (Bool-cases (ltb (length v.msg) 12)) [
      | inl short ↦ inl (unfold adjusted_response in rw short, inl (ground arith))
      | inr long ↦ elim (Bool-cases (ltb (length buf) (length v.msg))) [
        | inl over ↦ inl (unfold adjusted_response in rw (long, over), inr (ground arith))
        | inr fits ↦
            let a = ageing v max_age max_ttl now in
            let ag = with_id-Agrees v.msg id in
            let u = update_ttl_total (with_id v.msg id) a in
            let m = u.value.0 in
            let t = u.value.1 in
            let size = u.same.size ∙ ag.size in
            let lo : 12 ≤ length v.msg = ground arith in
            let hi : length v.msg ≤ length buf = ground arith in
            let len : length (copy_into buf m) ≡ length buf =
              unfold copy_into in
              omega (arith, length-append m (drop (length m) buf), length-drop (length m) buf) in
            inr (
              record { buf = copy_into buf m; n = length v.msg; min_ttl = t },
              adjusted_response_fits v buf id max_age max_ttl now lo hi m t u.returned,
              refl,
              hi,
              len,
              λ pos. record {
                size = refl;
                header = lo;
                fits = hi;
                buffer = len;
                answers_id =
                    unfold copy_into in
                    (unpack-append m (drop (length m) buf) (omega arith)
                      ∙ unpack-SameHeader u.same
                      ∙ unpack-with_id v.msg id (omega arith));
                content =
                    unfold copy_into in
                    (ap (λ k. take k (m ++ drop (length m) buf)) (sym size)
                      ∙ take_front m (drop (length m) buf)
                      ∙ update_ttl-aged (with_id v.msg id) m a t u.returned pos
                      ∙ ap (aged a (with_id v.msg id))
                          (reached_records-Agrees (λ total deciding. total) ag lo));
                fresh =
                    rw (reached_records-Agrees min ag lo) at
                      (update_ttl-IsFresh (with_id v.msg id) m a t u.returned pos);
                young = not_old a (with_id v.msg id) m t u.returned pos;
              },
            )
      ]
    ]
