-- ===== src/Resolver/Dns53/Answers.antt =====
-- What resolver/dns53.go accepts as an answer.
use nextdns.Prelude.{
  Bool-cases, Bytes, Option, Option-cases, [], ap, arith, bind_assoc, false, if◌then◌else◌, inl,
  inr, leb, length, length-take, ltb, none, refl, some, suc, take, true, zero, ℕ, ◌%◌, ◌+◌, ◌<◌,
  ◌==◌, ◌>>=◌, ◌^◌, ◌∙◌, ◌≡◌, ◌≤◌,
}
use nextdns.Resolver.Cache.Response.{IsServed, adjusted_response-IsServed, ageing}
use nextdns.Resolver.Cache.{Adjusted, CacheValue, adjusted_response, type_ptr}
use nextdns.Query.{Query}
use nextdns.Resolver.Cacher.{Cacher, Limits, ResolveInfo, key_of}
use nextdns.Resolver.Wire.{unpack_uint16}
use nextdns.Resolver.Wire.Bounds.{unpack_uint16-lt}
use nextdns.Resolver.Cacher.Buffer.{cap_response_total, length-copy_into}
use nextdns.Resolver.Dns53.{
  Datagram, Error, Network, Outcome, Reply, after_look_up, ask, dial, id_mismatch, look_up,
  max_retries, no_valid_response, read, read_loop, received, remember, resolve, udp, write,
}

-- The buffer keeps its length, the count lies in it, and no error means the right id.
pub record IsReply (id : ℕ) (buf : Bytes) (r : Reply) : Type 0 where
  buffer : length r.buf ≡ length buf
  within : r.n ≤ length buf
  answers : r.error ≡ none → (2 ≤ r.n) × (unpack_uint16 r.buf 0 ≡ some id)

received-length : (buf : Bytes) (d : Datagram) → length (received buf d) ≡ length buf
received-length buf d =
    length-copy_into buf (take (length buf) d.bytes)
      (omega (arith, length-take (length buf) d.bytes))

-- A round that is tried again: it gives up, or the rest of the loop replies.
again_total :
    (fuel : ℕ) (reads : ℕ → Datagram) (id k : ℕ) (buf buf' : Bytes) (retries n : ℕ) (e : Error)
    → max_retries ≤ suc fuel + retries
    → length buf' ≡ length buf
    → n ≤ length buf
    → (retries + 1 < max_retries
        → (r : Reply) × (read_loop fuel reads id (k + 1) buf' (retries + 1) ≡ some r)
          × IsReply id buf r)
    → (r : Reply) × ((if leb max_retries (retries + 1)
          then some (record { buf = buf'; n = n; error = some e })
          else read_loop fuel reads id (k + 1) buf' (retries + 1))
        ≡ some r)
      × IsReply id buf r
again_total fuel reads id k buf buf' retries n e enough size within rest =
    elim (Bool-cases (leb max_retries (retries + 1))) [
      | inl last ↦ (
        record { buf = buf'; n = n; error = some e },
        rw last,
        record { buffer = size; within = within; answers = λ p. absurd (ground arith) },
      )
      | inr left ↦ rw left (rest (ground arith))
    ]

read_loop-IsReply :
    (fuel : ℕ) (reads : ℕ → Datagram) (id k : ℕ) (buf : Bytes) (retries : ℕ)
    → max_retries ≤ fuel + retries
    → retries < max_retries
    → (r : Reply) × (read_loop fuel reads id k buf retries ≡ some r) × IsReply id buf r
unfolding read_loop
read_loop-IsReply zero reads id k buf retries enough room = absurd (omega arith)
read_loop-IsReply (suc fuel) reads id k buf retries enough room =
    let d = reads k in
    let buf' = received buf d in
    let n : ℕ = length (take (length buf) d.bytes) in
    let size = received-length buf d in
    let within : n ≤ length buf = omega (arith, length-take (length buf) d.bytes) in
    let again = λ (e : Error).
      again_total fuel reads id k buf buf' retries n e enough size within (λ h.
        let (r, p, q) =
          read_loop-IsReply fuel reads id (k + 1) buf' (retries + 1) (omega arith) h in
        (
          r,
          p,
          record {
            buffer = q.buffer ∙ size;
            within = omega (arith, q.within, size);
            answers = q.answers;
          },
        )) in
    elim (Bool-cases d.failed) [
      | inl bad ↦ (
        record { buf = buf'; n = n; error = some read },
        rw bad,
        record { buffer = size; within = within; answers = λ p. absurd (ground arith) },
      )
      | inr good ↦ elim (Bool-cases (ltb n 2)) [
        | inl short ↦ rw (good, short) (again no_valid_response)
        | inr long ↦
            let (got, g) = unpack_uint16-lt buf' 0 (ground (arith, size)) in
            elim (Bool-cases (id == got)) [
              | inl same ↦ (
                record { buf = buf'; n = n; error = none },
                rw (good, long, g, same),
                record {
                  buffer = size;
                  within = within;
                  answers = λ p. (ground arith, rw g (ground arith));
                },
              )
              | inr other ↦ rw (good, long, g, other) (again id_mismatch)
            ]
      ]
    ]

module _ (c : Cacher) where
  open c use {Store, get, add}

  -- An answer lies in a buffer of unchanged length, and with no error it carries the query's id.
  pub record IsAnswer (id : ℕ) (buf : Bytes) (o : Outcome c) : Type 0 where
    pub buffer : length o.buf ≡ length buf
    pub within : o.n ≤ length buf
    pub answers : o.error ≡ none → (2 ≤ o.n) × (unpack_uint16 o.buf 0 ≡ some id)

  module _ (l : Limits) (s : Option Store) (q : Query) (now : ℕ) (net : Network) where
    ask-IsAnswer :
        (buf : Bytes) (n : ℕ) (info : ResolveInfo)
        → n ≤ length buf
        → (o : Outcome c) × (ask c l s q now net buf n info ≡ some o)
          × IsAnswer q.id buf o
          × (o.error ≡ none → o.info.from_cache ≡ false)
    unfolding ask
    ask-IsAnswer buf n info fits = elim (Bool-cases net.dials) [
      | inr down ↦ (
        record { buf = buf; n = n; info = info; error = some dial; cache = s },
        rw down,
        record { buffer = refl; within = fits; answers = λ p. absurd (ground arith) },
        λ p. absurd (ground arith),
      )
      | inl up ↦ elim (Bool-cases net.writes) [
        | inr lost ↦ (
          record { buf = buf; n = n; info = info; error = some write; cache = s },
          rw (up, lost),
          record { buffer = refl; within = fits; answers = λ p. absurd (ground arith) },
          λ p. absurd (ground arith),
        )
        | inl sent ↦
            let (r, p, ok) =
              read_loop-IsReply max_retries net.reads q.id 0 buf 0 (omega arith) (omega arith) in
            elim (Option-cases r.error) [
              | inr (e, bad) ↦ (
                record { buf = r.buf; n = r.n; info = info; error = some e; cache = s },
                rw (up, sent, p, bad),
                record {
                  buffer = ok.buffer;
                  within = ok.within;
                  answers = λ p. absurd (ground arith);
                },
                λ p. absurd (ground arith),
              )
              | inl good ↦
                  let (two, got) = ok.answers good in
                  let (b, w, size, same) =
                    cap_response_total l.max_ttl r.buf r.n (omega (arith, ok.within, ok.buffer)) in
                  (
                    record {
                      buf = b;
                      n = r.n;
                      info = record info { from_cache = false };
                      error = none;
                      cache = remember c s q now (take r.n r.buf);
                    },
                    rw (up, sent, p, good, w),
                    record {
                      buffer = size ∙ ok.buffer;
                      within = ok.within;
                      answers = λ e. (two, same two ∙ got);
                    },
                    λ e. refl,
                  )
            ]
      ]
    ]

    -- An answer that is said to come from the cache is an entry of the cache under the query's key,
    -- handed out fresh; it is never one for a reverse lookup, and the cache is not touched.
    pub record IsHit (buf : Bytes) (o : Outcome c) : Type 0 where
      pub store : Store
      pub entry : CacheValue
      pub kept : s ≡ some store
      pub untouched : o.cache ≡ s
      pub found : get store (key_of [] q) ≡ some entry
      pub forward : (q.qtype == type_ptr) ≡ false
      pub adjusted : Adjusted
      pub given : (o.n ≡ adjusted.n) × (o.buf ≡ adjusted.buf)
      pub positive : 0 < adjusted.min_ttl
      pub served : IsServed entry buf q.id (ageing entry l.max_age l.max_ttl now) adjusted

    abbrev pub IsSound : Bytes → Outcome c → Type 0
    IsSound buf o = IsAnswer q.id buf o × (o.error ≡ none → o.info.from_cache ≡ true → IsHit buf o)

    -- The network's part of a sound outcome: it is not from the cache.
    ask-IsSound :
        (buf b : Bytes) (n : ℕ) (info : ResolveInfo)
        → n ≤ length buf
        → length b ≡ length buf
        → (o : Outcome c) × (ask c l s q now net b n info ≡ some o) × IsSound buf o
    ask-IsSound buf b n info fits size =
        let (o, p, ans, net) = ask-IsAnswer b n info (omega (arith, size)) in
        (
          o,
          p,
          (
            record {
              buffer = ans.buffer ∙ size;
              within = omega (arith, ans.within, size);
              answers = ans.answers;
            },
            λ e h. absurd (cc (net e)),
          ),
        )

    module _ (id16 : q.id < 2 ^ 16) where
      found-IsSound :
          (buf : Bytes) (st : Store) (v : CacheValue)
          → s ≡ some st
          → (q.qtype == type_ptr) ≡ false
          → get st (key_of [] q) ≡ some v
          → (o : Outcome c) × ((do
            r ← adjusted_response v buf q.id l.max_age l.max_ttl now
            after_look_up c l s q now net buf (some r))
              ≡ some o)
            × IsSound buf o
      found-IsSound buf st v kept fwd found =
          elim (adjusted_response-IsServed v buf q.id l.max_age l.max_ttl now) [
            | inl (p, why) ↦ rw p (ask-IsSound buf buf 0 _ (omega arith) refl)
            | inr (r, p, n, fits, size, ok) ↦ elim (Bool-cases (ltb 0 r.min_ttl)) [
              | inr stale ↦ rw (p, stale) (ask-IsSound buf r.buf r.n _ fits size)
              | inl pos ↦
                  let sv = ok (ground arith) in
                  let e : q.id % 2 ^ 16 ≡ q.id = omega arith in
                  (
                    record {
                      buf = r.buf;
                      n = r.n;
                      info = record (udp c) { from_cache = true };
                      error = none;
                      cache = s;
                    },
                    rw (p, pos),
                    (
                      record {
                        buffer = size;
                        within = fits;
                        answers = λ h. (omega (arith, sv.header), sv.answers_id ∙ ap some e);
                      },
                      λ h k. record {
                        store = st;
                        entry = v;
                        kept = kept;
                        untouched = refl;
                        found = found;
                        forward = fwd;
                        adjusted = r;
                        given = (refl, refl);
                        positive = ground arith;
                        served = sv;
                      },
                    ),
                  )
            ]
          ]

      -- `resolve` of DNS53 always returns. It keeps the length of the buffer and answers within it;
      -- with no error the first two bytes are the id of the query. An answer that it says is from
      -- the cache is a fresh entry stored under the query's key, never one for a reverse lookup.
      pub dns53_resolve-IsSound :
          (buf : Bytes) → (o : Outcome c) × (resolve c l s q now net buf ≡ some o) × IsSound buf o
      unfolding resolve
      dns53_resolve-IsSound buf = elim (Option-cases s) [
        | inl off ↦
            let p : look_up c l s q now buf ≡ some none = unfold look_up in rw off in
            rw p (ask-IsSound buf buf 0 _ (omega arith) refl)
        | inr (st, on) ↦ elim (Bool-cases (q.qtype == type_ptr)) [
          | inl rev ↦
              let p : look_up c l s q now buf ≡ some none = unfold look_up in rw (on, rev) in
              rw p (ask-IsSound buf buf 0 _ (omega arith) refl)
          | inr fwd ↦ elim (Option-cases (get st (key_of [] q))) [
            | inl miss ↦
                let p : look_up c l s q now buf ≡ some none =
                  unfold look_up in rw (on, fwd, miss) in
                rw p (ask-IsSound buf buf 0 _ (omega arith) refl)
            | inr (v, found) ↦
                let p : look_up c l s q now buf
                    ≡ (do r ← adjusted_response v buf q.id l.max_age l.max_ttl now; some (some r)) =
                  unfold look_up in rw (on, fwd, found) in
                rw (p, bind_assoc) (found-IsSound buf st v on fwd found)
          ]
        ]
      ]
