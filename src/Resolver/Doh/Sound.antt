-- ===== src/Resolver/Doh/Sound.antt =====
-- What resolver/doh.go answers, and what it stores.
use nextdns.Resolver.Cache.Response.{IsServed, adjusted_response-IsServed, ageing}
use nextdns.Resolver.Doh.Content.{content, read_dns_response-IsRead, read_dns_response-content}
use nextdns.Prelude.{
  Bool-cases, Bytes, Option, Option-cases, ap, arith, bind_assoc, false, inl, inr, length, ltb,
  none, not, refl, some, take, true, ℕ, ◌&&◌, ◌<◌, ◌==◌, ◌>>=◌, ◌∙◌, ◌≡◌, ◌≤◌, ◌⊎◌,
}
use nextdns.Query.{Query}
use nextdns.Resolver.Cacher.Buffer.{cap_response_total}
use nextdns.Resolver.Cache.{Adjusted, CacheValue, adjusted_response, type_ptr}
use nextdns.Resolver.Cacher.{Cacher, Limits, ResolveInfo, key_of}
use nextdns.Resolver.Doh.Reading.{BodyRead}
use nextdns.Resolver.Doh.{
  Error, Outcome, Response, RoundTrip, State, accept, after_look_up, ask, bad_request, bad_status,
  fresh_info, is_usable, look_up, read_error, remember, request, resolve, responds, round_trip,
  status_ok, unreachable, with_entry,
}

module _ (c : Cacher) where
  open c use {Store, get, add}

  module _ (l : Limits) (s : State c) (url : Bytes) (q : Query) (now : ℕ) where
    -- Nothing is stored, or the whole body of a response with status 200 is, under the key of the
    -- query, with the configuration's time that came with it.
    pub data Effect (net : RoundTrip) (o : Outcome c) : Type 0 where
      nothing : o.state ≡ s → Effect net o
      stored :
          (st : Store) (res : Response)
          → s.cache ≡ some st
          → net ≡ responds res
          → res.status ≡ status_ok
          → o.error ≡ none
          → o.state ≡ with_entry c s st url q now res (content res.body)
          → Effect net o

    remember-cases :
        (res : Response) (b : BodyRead) (cache : Option Store)
        → (remember c s cache url q now res b ≡ s)
          ⊎ ((st : Store) × (cache ≡ some st)
              × (b.truncated ≡ false)
              × (b.failed ≡ false)
              × (remember c s cache url q now res b
                  ≡ with_entry c s st url q now res (take b.n b.buf)))
    unfolding remember
    remember-cases res b none = inl refl
    remember-cases res b (some st) =
        elim (Bool-cases (ltb 0 b.n && not b.truncated && not b.failed)) [
          | inl whole ↦ inr (st, refl, ground arith, ground arith, rw whole)
          | inr part ↦ inl (rw part)
        ]

    -- The buffer keeps its length, the count lies in it, and the state changes as `Effect` says.
    pub record IsAnswer (net : RoundTrip) (buf : Bytes) (o : Outcome c) : Type 0 where
      pub buffer : length o.buf ≡ length buf
      pub within : o.n ≤ length buf
      pub effect : Effect net o
      pub source : o.error ≡ none → o.info.from_cache ≡ true → o.state ≡ s

    abbrev Answers : RoundTrip → Bytes → Option (Outcome c) → Type 0
    Answers net buf x =
        (o : Outcome c) × (x ≡ some o)
        × IsAnswer net buf o
        × (o.error ≡ none → o.info.from_cache ≡ false)

    failed_answer :
        (net : RoundTrip) (buf : Bytes) (n : ℕ) (info : ResolveInfo) (e : Error)
        → n ≤ length buf
        → Answers net buf
            (some (record { buf = buf; n = n; info = info; error = some e; state = s }))
    failed_answer net buf n info e fits = (
      record { buf = buf; n = n; info = info; error = some e; state = s },
      refl,
      record {
        buffer = refl;
        within = fits;
        effect = nothing refl;
        source = λ p. absurd (ground arith);
      },
      λ p. absurd (ground arith),
    )

    accept-Answers :
        (res : Response) (buf : Bytes) (info : ResolveInfo)
        → 3 ≤ length buf
        → res.status ≡ status_ok
        → Answers (responds res) buf (accept c l s url q now info res buf)
    unfolding accept
    accept-Answers res buf info big good =
        let (b, p, ok) = read_dns_response-IsRead res.body buf buf 0 refl big (omega arith) in
        let (buf', w, size, same) =
          cap_response_total l.max_ttl b.buf b.n (omega (arith, ok.within, ok.buffer)) in
        let whole = read_dns_response-content res.body buf 0 b (omega arith) p in
        let o : Bytes → Outcome c = λ x. record {
          buf = x;
          n = b.n;
          info = record info { transport = res.proto; from_cache = false };
          error = read_error c b.failed;
          state = remember c s s.cache url q now res b;
        } in
        let effect : (x : Bytes) → Effect (responds res) (o x) = λ x.
          elim (remember-cases res b s.cache) [
            | inl kept ↦ nothing kept
            | inr (st, on, t, f, e) ↦
                stored st res on refl good (rw f)
                  (e ∙ ap (λ m. with_entry c s st url q now res m) (whole t f))
          ] in
        let answer : (x : Bytes) → length x ≡ length b.buf → IsAnswer (responds res) buf (o x) =
          λ x h. record {
            buffer = h ∙ ok.buffer;
            within = ok.within;
            effect = effect x;
            source = λ e k. absurd (ground arith);
          } in
        elim (Bool-cases (ltb 0 b.n)) [
          | inl some_bytes ↦ (o buf', rw (p, some_bytes, w), answer buf' size, λ e. refl)
          | inr no_bytes ↦ (o b.buf, rw (p, no_bytes), answer b.buf refl, λ e. refl)
        ]

    ask-Answers :
        (net : RoundTrip) (buf : Bytes) (n : ℕ) (info : ResolveInfo)
        → n ≤ length buf
        → 3 ≤ length buf
        → Answers net buf (ask c l s url q now net buf n info)
    unfolding ask
    ask-Answers bad_request buf n info fits big = failed_answer _ buf n info request fits
    ask-Answers unreachable buf n info fits big = failed_answer _ buf n info round_trip fits
    ask-Answers (responds res) buf n info fits big = elim (Bool-cases (res.status == status_ok)) [
      | inl good ↦ rw good (accept-Answers res buf info big (ground arith))
      | inr bad ↦ rw bad (failed_answer _ buf n info bad_status fits)
    ]

    -- An answer that is said to come from the cache is an entry stored under the key of the query,
    -- fresh, and younger than the last known change of the configuration.
    pub record IsHit (buf : Bytes) (o : Outcome c) : Type 0 where
      pub store : Store
      pub entry : CacheValue
      pub kept : s.cache ≡ some store
      pub found : get store (key_of url q) ≡ some entry
      pub forward : (q.qtype == type_ptr) ≡ false
      pub adjusted : Adjusted
      pub given : (o.n ≡ adjusted.n) × (o.buf ≡ adjusted.buf)
      pub positive : 0 < adjusted.min_ttl
      pub served : IsServed entry buf q.id (ageing entry l.max_age l.max_ttl now) adjusted
      pub current : s.modified url < entry.time

    abbrev pub IsSound : RoundTrip → Bytes → Outcome c → Type 0
    IsSound net buf o =
        IsAnswer net buf o × (o.error ≡ none → o.info.from_cache ≡ true → IsHit buf o)

    ask-IsSound :
        (net : RoundTrip) (buf b : Bytes) (n : ℕ) (info : ResolveInfo)
        → 3 ≤ length buf
        → n ≤ length buf
        → length b ≡ length buf
        → (o : Outcome c) × (ask c l s url q now net b n info ≡ some o) × IsSound net buf o
    ask-IsSound net buf b n info big fits size =
        let (o, p, ans, up) =
          ask-Answers net b n info (omega (arith, size)) (omega (arith, size)) in
        (
          o,
          p,
          (
            record {
              buffer = ans.buffer ∙ size;
              within = omega (arith, ans.within, size);
              effect = ans.effect;
              source = ans.source;
            },
            λ e h. absurd (cc (up e)),
          ),
        )

    found-IsSound :
        (profile : Bytes) (net : RoundTrip) (buf : Bytes) (st : Store) (v : CacheValue)
        → 3 ≤ length buf
        → s.cache ≡ some st
        → (q.qtype == type_ptr) ≡ false
        → get st (key_of url q) ≡ some v
        → (o : Outcome c) × ((do
          r ← adjusted_response v buf q.id l.max_age l.max_ttl now
          after_look_up c l s url q now net buf (fresh_info profile) (some (v, r)))
            ≡ some o)
          × IsSound net buf o
    unfolding is_usable
    found-IsSound profile net buf st v big kept fwd found =
        elim (adjusted_response-IsServed v buf q.id l.max_age l.max_ttl now) [
          | inl (p, why) ↦ rw p (ask-IsSound net buf buf 0 _ big (omega arith) refl)
          | inr (r, p, n, fits, size, ok) ↦
              elim (Bool-cases (ltb 0 r.min_ttl && ltb (s.modified url) v.time)) [
                | inr stale ↦ rw (p, stale) (ask-IsSound net buf r.buf r.n _ big fits size)
                | inl pos ↦ (
                  record {
                    buf = r.buf;
                    n = r.n;
                    info = record { transport = v.trans; profile = profile; from_cache = true };
                    error = none;
                    state = s;
                  },
                  rw (p, pos),
                  (
                    record {
                      buffer = size;
                      within = fits;
                      effect = nothing refl;
                      source = λ e h. refl;
                    },
                    λ h k. record {
                      store = st;
                      entry = v;
                      kept = kept;
                      found = found;
                      forward = fwd;
                      adjusted = r;
                      given = (refl, refl);
                      positive = ground arith;
                      served = ok (ground arith);
                      current = ground arith;
                    },
                  ),
                )
              ]
        ]

    -- `resolve` of DOH always returns, whatever the network does, and keeps the length of the
    -- buffer. An answer that it says is from the cache is a fresh entry stored under the key of the
    -- query's URL, newer than the last known change of that configuration. The cache and the
    -- configurations' times stay, or the whole body of a response with status 200 is added.
    pub doh_resolve-IsSound :
        (profile : Bytes) (net : RoundTrip) (buf : Bytes)
        → 3 ≤ length buf
        → (o : Outcome c) × (resolve c l s url profile q now net buf ≡ some o) × IsSound net buf o
    unfolding resolve
    doh_resolve-IsSound profile net buf big =
        let miss = ask-IsSound net buf buf 0 (fresh_info profile) big (omega arith) refl in
        elim (Bool-cases (q.qtype == type_ptr)) [
          | inl rev ↦
              let p : look_up c l s url q now buf ≡ some none = unfold look_up in rw rev in
              rw p miss
          | inr fwd ↦ elim (Option-cases s.cache) [
            | inl off ↦
                let p : look_up c l s url q now buf ≡ some none = unfold look_up in rw (fwd, off) in
                rw p miss
            | inr (st, on) ↦ elim (Option-cases (get st (key_of url q))) [
              | inl absent ↦
                  let p : look_up c l s url q now buf ≡ some none =
                    unfold look_up in rw (fwd, on, absent) in
                  rw p miss
              | inr (v, found) ↦
                  let p : look_up c l s url q now buf ≡ (do
                    r ← adjusted_response v buf q.id l.max_age l.max_ttl now
                    some (some (v, r))) =
                    unfold look_up in rw (fwd, on, found) in
                  rw (p, bind_assoc) (found-IsSound profile net buf st v big on fwd found)
            ]
          ]
        ]
