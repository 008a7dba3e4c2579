-- ===== src/Resolver/Cache/Content.antt =====
-- What `updateTTL` leaves of a message that it calls fresh: the message with the TTLs that are left.
use nextdns.Prelude.{
  Bool-cases, Bytes, ap, arith, inl, inr, length, ltb, some, suc, sym, zero, ℕ, ◌%◌, ◌+◌, ◌<◌, ◌^◌,
  ◌∙◌, ◌≡◌, ◌≤◌,
}
use nextdns.Resolver.Wire.Bounds.{unpack_uint16-lt}
use nextdns.Resolver.Cache.Safety.{skip_questions_total}
use nextdns.Resolver.Cache.Walk.{aged, all_records, reached_records, records_from}
use nextdns.Resolver.Cache.Freshness.{
  Agrees, Agrees-refl, RoundReads, record_round-reads, records_from-cons, records_from-nil,
}
use nextdns.Resolver.Cache.{
  Ageing, Round, after_round, max_uint32, more, stop, update_records, update_ttl,
}

module _ (a : Ageing) (idx ret : ℕ) (pos : 0 < ret) where
  update_records-aged :
      (n i : ℕ) (m msg : Bytes) (off t : ℕ) {m' : Bytes}
      → 12 ≤ off
      → Agrees off m msg
      → update_records n i idx a m off t ≡ some (m', ret)
      → m' ≡ aged a m (records_from n msg off)
  unfolding update_records aged records_from
  update_records-aged zero i m msg off t lo ag h = cc
  update_records-aged (suc n) i m msg off t {m'} lo ag h =
      let (r, p, reads) = record_round-reads a (ltb i idx) m msg off t lo ag in
      go r reads (rw p at h) (λ x o t far ag q. update_records-aged n (i + 1) x msg o t far ag q)
    where
      go :
          (r : Round)
          → RoundReads a (ltb i idx) m msg off t r
          → after_round r (update_records n (i + 1) idx a) ≡ some (m', ret)
          → ((x : Bytes) (o t : ℕ)
              → 12 ≤ o
              → Agrees o x msg
              → update_records n (i + 1) idx a x o t ≡ some (m', ret)
              → m' ≡ aged a x (records_from n msg o))
          → m' ≡ aged a m (records_from (suc n) msg off)
      go (stop x v) (inl zeroed) h rec = absurd (let e : v ≡ ret = cc in omega arith)
      go (stop x v) (inr (done, end, same)) h rec =
          let e : m' ≡ m = cc in e ∙ sym (ap (aged a m) (records_from-nil (suc n) msg off end))
      go (more x o t') (r, p, next, far, ag', low, what) h rec =
          rec x o t' (omega arith) ag' h
          ∙ ap (λ k. aged a x (records_from n msg k)) next
          ∙ ap (λ y. aged a y (records_from n msg r.next)) what
          ∙ sym (ap (aged a m) (records_from-cons n msg off p))

-- With a positive result the message is what it was, but for the TTLs.
pub update_ttl-aged :
    (msg m : Bytes) (a : Ageing) (ret : ℕ)
    → update_ttl msg a ≡ some (m, ret)
    → 0 < ret
    → m ≡ aged a msg (all_records msg)
unfolding update_ttl reached_records
update_ttl-aged msg m a ret h pos = elim (Bool-cases (ltb (length msg) 12)) [
  | inl short ↦ absurd (let h' = rw short at h in let e : 0 ≡ ret = cc in omega arith)
  | inr long ↦
      let (qs, q) = unpack_uint16-lt msg 4 (ground arith) in
      let (an, r) = unpack_uint16-lt msg 6 (ground arith) in
      let (au, s) = unpack_uint16-lt msg 8 (ground arith) in
      let (ad, t) = unpack_uint16-lt msg 10 (ground arith) in
      elim (skip_questions_total qs msg 12 (omega arith)) [
        | inl bad ↦
            absurd (let h' = rw (long, q, r, s, t, bad) at h in let e : 0 ≡ ret = cc in omega arith)
        | inr (off, good, far) ↦
            rw (q, r, s, t, good)
              (update_records-aged a ((an + au) % 2 ^ 16) ret pos ((an + au + ad) % 2 ^ 16) 0 msg
                msg off max_uint32 far (Agrees-refl off msg) (rw (long, q, r, s, t, good) at h))
      ]
]
