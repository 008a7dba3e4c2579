-- ===== src/Endpoint/Providers/Hang.antt =====
-- The loop of `SourceHTTPSSVCProvider.GetEndpoints` in resolver/endpoint/endpoint.go: where it ends.
use nextdns.Prelude.{
  Bool-cases, Bytes, List, Option, [], arith, drop, false, inl, inr, length, length-drop, ne-none,
  none, refl, some, suc, take, zero, ℕ, ◌++◌, ◌<◌, ◌==◌, ◌∷◌, ◌≡◌, ◌≢◌,
}
use nextdns.Endpoint.Providers.Alpn.{parse_alpn-encode}
use nextdns.Net.{Ip}
use nextdns.Message.{
  Https, Next, Reader, RecordHeader, malformed, record_at, section_done, skip_failed, skipped,
  type_https,
}
use nextdns.Endpoint.Providers.{
  Draft, Found, Progress, Result, after_params, and_params, append_ip_hint, begin_record, draft_of,
  param_alpn, param_ipv4_hint, param_ipv6_hint, read_answers, read_header, read_https, read_param,
  read_params, with_alpn, with_bootstrap,
}

module _ (r : Reader) (print_ip : Ip → Bytes) (hostname : Bytes) where
  -- A record that cannot be skipped is met again in every round.
  stuck :
      (fuel : ℕ) (s : r.State) (h : RecordHeader) (p : Progress)
      → r.answer_header s ≡ record_at h s
      → (h.rtype == type_https) ≡ false
      → r.skip_answer s ≡ skip_failed
      → read_answers r print_ip hostname fuel s p ≡ none
  unfolding read_answers
  stuck zero s h p at other fails = refl
  stuck (suc fuel) s h p at other fails = rw (at, other, fails) (stuck fuel s h p at other fails)

  append_ip_hint_total :
      (fuel : ℕ) (hints : List Bytes) (hint : Bytes) (size : ℕ)
      → 0 < size
      → length hint < fuel
      → append_ip_hint r print_ip hostname fuel hints hint size ≢ none
  unfolding append_ip_hint
  append_ip_hint_total zero hints hint size pos h = absurd (omega arith)
  append_ip_hint_total (suc fuel) hints hint size pos h =
      let ih =
        append_ip_hint_total fuel (hints ++ print_ip (take size hint) ∷ []) (drop size hint) size
          pos in
      λ e. ground (arith, e, ih, length-drop size hint)

  with_bootstrap_total :
      (e : Draft) (o : Result (List Bytes))
      → o ≢ none
      → with_bootstrap r print_ip hostname e o ≢ none
  with_bootstrap_total e none h = λ k. h refl
  with_bootstrap_total e (some none) h = λ k. cc
  with_bootstrap_total e (some (some ips)) h = λ k. cc

  with_alpn_total :
      (e : Draft) (o : Result (List Bytes)) → o ≢ none → with_alpn r print_ip hostname e o ≢ none
  with_alpn_total e none h = λ k. h refl
  with_alpn_total e (some none) h = λ k. cc
  with_alpn_total e (some (some ids)) h = λ k. cc

  read_param_total : (e : Draft) (q : ℕ × Bytes) → read_param r print_ip hostname e q ≢ none
  unfolding read_param
  read_param_total e (key, value) = elim (Bool-cases (key == param_ipv4_hint)) [
    | inl v4 ↦ rw v4 (
        with_bootstrap_total e _ (
          append_ip_hint_total (suc (length value)) e.bootstrap value 4 (omega arith)
            (omega arith)))
    | inr not_v4 ↦ rw not_v4 (elim (Bool-cases (key == param_ipv6_hint)) [
      | inl v6 ↦ rw v6 (
          with_bootstrap_total e _ (
            append_ip_hint_total (suc (length value)) e.bootstrap value 16 (omega arith)
              (omega arith)))
      | inr not_v6 ↦ rw not_v6 (elim (Bool-cases (key == param_alpn)) [
        | inl a ↦ rw a (with_alpn_total e _ (parse_alpn-encode [] value).1)
        | inr other ↦ rw other (λ k. cc)
      ])
    ])
  ]

  and_params_total :
      (o : Result Draft) (next : Draft → Result Draft)
      → o ≢ none
      → ((e : Draft) → next e ≢ none)
      → and_params r print_ip hostname o next ≢ none
  and_params_total none next h k = λ e. h refl
  and_params_total (some none) next h k = λ e. cc
  and_params_total (some (some d)) next h k = k d

  read_params_total :
      (e : Draft) (params : List (ℕ × Bytes)) → read_params r print_ip hostname e params ≢ none
  unfolding read_params
  read_params_total e [] = λ k. cc
  read_params_total e (q ∷ params) =
      and_params_total (read_param r print_ip hostname e q) _ (read_param_total e q)
        (λ e'. read_params_total e' params)

  after_params_total :
      (p : Progress) (o : Result Draft) (rest : Progress → Option Found)
      → o ≢ none
      → ((p' : Progress) → rest p' ≢ none)
      → after_params r print_ip hostname p o rest ≢ none
  after_params_total p none rest h k = λ e. h refl
  after_params_total p (some none) rest h k = λ e. cc
  after_params_total p (some (some d)) rest h k = k (record p { current = some d })

  -- The states of the parser between the records of a reply.
  pub data Later (start : r.State) : r.State → Type 0 where
    here : Later start start
    over :
        (s s' s'' : r.State) (h : RecordHeader)
        → Later start s
        → r.answer_header s ≡ record_at h s'
        → r.skip_answer s' ≡ skipped s''
        → Later start s''
    past :
        (s s' s'' : r.State) (h : RecordHeader) (rr : Https)
        → Later start s
        → r.answer_header s ≡ record_at h s'
        → r.https_resource s' ≡ some (rr, s'')
        → Later start s''

  -- Every record of the reply that is no HTTPS record can be skipped.
  abbrev pub Skips : r.State → Type 0
  Skips start =
      (s s' : r.State) (h : RecordHeader)
      → Later start s
      → r.answer_header s ≡ record_at h s'
      → (h.rtype == type_https) ≡ false
      → (s'' : r.State) × (r.skip_answer s' ≡ skipped s'')

  -- One round, if the rounds behind it end for all that is less.
  module _ (start s : r.State) (later : Later start s) (rest : r.State → Progress → Option Found)
      (less : (s' : r.State) (p : Progress)
        → Later start s'
        → r.left s' < r.left s
        → rest s' p ≢ none) where
    read_https_total :
        (s' : r.State) (h : RecordHeader) (p : Progress) (o : Option (Https × r.State))
        → r.answer_header s ≡ record_at h s'
        → r.https_resource s' ≡ o
        → read_https r print_ip hostname o p rest ≢ none
    read_https_total s' h p none at e = λ k. cc
    read_https_total s' h p (some (rr, s'')) at e =
        let p' = begin_record r print_ip hostname p rr.priority in
        after_params_total p' _ (rest s'')
          (read_params_total (draft_of r print_ip hostname p'.current) rr.params)
          (λ p1.
            less s'' p1 (past s s' s'' h rr later at e)
              (omega (arith, r.https_resource-left s' s'' rr e, r.answer_header-left s s' h at)))

    read_header_total :
        (n : Next r.State) (p : Progress)
        → Skips start
        → r.answer_header s ≡ n
        → read_header r print_ip hostname n p rest ≢ none
    read_header_total malformed p skips e = λ k. cc
    read_header_total section_done p skips e = λ k. cc
    read_header_total (record_at h s') p skips e = elim (Bool-cases (h.rtype == type_https)) [
      | inl is_https ↦ rw is_https (read_https_total s' h p (r.https_resource s') e refl)
      | inr other ↦
          let (s'', q) = skips s s' h later e other in
          rw (other, q)
            (less s'' p (over s s' s'' h later e q)
              (omega (arith, r.skip_answer-left s' s'' q, r.answer_header-left s s' h e)))
    ]

  read_answers_total :
      (fuel : ℕ) (start s : r.State) (p : Progress)
      → Skips start
      → Later start s
      → r.left s < fuel
      → read_answers r print_ip hostname fuel s p ≢ none
  unfolding read_answers
  read_answers_total zero start s p skips later lt = absurd (omega arith)
  read_answers_total (suc fuel) start s p skips later lt =
      read_header_total start s later (read_answers r print_ip hostname fuel)
        (λ s' p' later' l. read_answers_total fuel start s' p' skips later' (omega (arith, l, lt)))
        (r.answer_header s) p skips refl

  -- A reply whose first answer is no HTTPS record and cannot be skipped is read for ever: no number
  -- of rounds is enough.
  pub read_answers_hang :
      (s s' : r.State) (h : RecordHeader) (p : Progress)
      → r.answer_header s ≡ record_at h s'
      → (h.rtype == type_https) ≡ false
      → r.skip_answer s' ≡ skip_failed
      → (fuel : ℕ) → read_answers r print_ip hostname fuel s p ≡ none
  unfolding read_answers
  read_answers_hang s s' h p at other fails zero = refl
  read_answers_hang s s' h p at other fails (suc fuel) =
      rw (at, other, fails) (stuck fuel s' h p (r.answer_header-again s s' h at) other fails)

  -- Where every record of the reply that is no HTTPS record can be skipped, the loop over the answers ends, in at
  -- most one round more than the parser has left to read.
  pub read_answers_ends :
      (s : r.State) (p : Progress) (fuel : ℕ)
      → Skips s
      → r.left s < fuel
      → (out : Found) × (read_answers r print_ip hostname fuel s p ≡ some out)
  read_answers_ends s p fuel skips lt = ne-none _ (read_answers_total fuel s s p skips here lt)
