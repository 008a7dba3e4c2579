-- ===== src/Proxy/Resolve/Order.antt =====
-- The order of the sources in `Proxy.Resolve`, proxy/proxy.go.
use nextdns.Prelude.{
  >>=-eq-some, Bool, Bool-cases, Bytes, Option, arith, bit_and, false, get_or, if◌then◌else◌, inl,
  inr, none, refl, some, some_inj, sym, true, ℕ, ◌&&◌, ◌>>=◌, ◌∙◌, ◌≡◌, ◌≤◌, ◌⊎◌,
}
use nextdns.Query.{Query}
use nextdns.Proxy.Hosts.{HostResolver, Messages, hosts_resolve}
use mathlib.Core.Path.{ap, fun_ext}
use nextdns.Proxy.Resolve.{
  Answer, Proxy, after_upstream, ask_upstream, conclude, discover, has_no_result, is_private_query,
  no_info, or_hosts, resolve, try_hosts, with_discovery,
}

-- The answer when nothing was asked.
abbrev pub not_asked : Bytes → Answer
not_asked buf = record { size = 0; info = no_info; is_error = false; buffer = buf }

-- An answer that brings nothing: it is empty, or the RCODE in its fourth byte is NXDOMAIN.
abbrev pub HasNothing : Answer → Type 0
HasNothing a = (a.size ≡ 0) ⊎ ((4 ≤ a.size) × (bit_and (get_or a.buffer 3 0) 15 ≡ 3))

module _ (m : Messages) where
  or_hosts-quiet :
      (r : Option ℕ × Bytes) (next : Bytes → Option Answer)
      → ((b : Bytes) (a : Answer) → next b ≡ some a → a.is_error ≡ false)
      → (a : Answer) → or_hosts m r next ≡ some a
      → a.is_error ≡ false
  or_hosts-quiet (some n, buf) next quiet a h = sym (ap (λ x. x.is_error) (some_inj h))
  or_hosts-quiet (none, buf) next quiet a h = quiet buf a h

  try_hosts-quiet :
      (o : Option HostResolver) (q : Query) (buf : Bytes) (next : Bytes → Option Answer)
      → ((b : Bytes) (a : Answer) → next b ≡ some a → a.is_error ≡ false)
      → (a : Answer) → try_hosts m o q buf next ≡ some a
      → a.is_error ≡ false
  try_hosts-quiet none q buf next quiet a h = quiet buf a h
  try_hosts-quiet (some r) q buf next quiet a h =
      or_hosts-quiet (hosts_resolve m r q buf) next quiet a h

  conclude-quiet :
      (p : Proxy) (q : Query) (x : Answer)
      → (p.bogus_priv && is_private_query q) ≡ true
      → (b : Bytes) (a : Answer) → conclude m p q x b ≡ some a
      → a.is_error ≡ false
  conclude-quiet p q x g b a h = let e = sym (some_inj (rw g at h)) in ap (λ y. y.is_error) e

  discover-quiet :
      (p : Proxy) (q : Query) (x : Answer) (r : HostResolver) (missing : Bool)
      → (p.bogus_priv && is_private_query q) ≡ true
      → (a : Answer) → discover m p q x r missing ≡ some a
      → a.is_error ≡ false
  discover-quiet p q x r true g a h =
      try_hosts-quiet (some r) q x.buffer (conclude m p q x) (conclude-quiet p q x g) a h
  discover-quiet p q x r false g a h = conclude-quiet p q x g x.buffer a h

  with_discovery-quiet :
      (p : Proxy) (q : Query) (x : Answer) (d : Option HostResolver)
      → (p.bogus_priv && is_private_query q) ≡ true
      → (a : Answer) → with_discovery m p q x d ≡ some a
      → a.is_error ≡ false
  with_discovery-quiet p q x none g a h = conclude-quiet p q x g x.buffer a h
  with_discovery-quiet p q x (some r) g a h =
      let (missing, e, h') = >>=-eq-some (has_no_result x) (discover m p q x r) h in
      discover-quiet p q x r missing g a h'

  after_upstream-quiet :
      (p : Proxy) (q : Query) (x : Answer)
      → (p.bogus_priv && is_private_query q) ≡ true
      → (a : Answer) → after_upstream m p q x ≡ some a
      → a.is_error ≡ false
  after_upstream-quiet p q x g a h = elim (Bool-cases q.recursion_desired) [
    | inl e ↦ with_discovery-quiet p q x p.discovery_resolver g a (simp e at h)
    | inr e ↦ conclude-quiet p q x g x.buffer a (simp e at h)
  ]

  with_discovery-upstream :
      (p : Proxy) (u : Query → Bytes → Option Answer) (q : Query) (x : Answer)
      → (d : Option HostResolver)
      → with_discovery m p q x d ≡ with_discovery m (record p { upstream = u }) q x d
  with_discovery-upstream p u q x none = refl
  with_discovery-upstream p u q x (some r) = ap (◌>>=◌ (has_no_result x)) (fun_ext same)
    where
      same : (b : Bool) → discover m p q x r b ≡ discover m (record p { upstream = u }) q x r b
      same true = refl
      same false = refl

  after_upstream-upstream :
      (p : Proxy) (u : Query → Bytes → Option Answer) (q : Query) (x : Answer)
      → after_upstream m p q x ≡ after_upstream m (record p { upstream = u }) q x
  after_upstream-upstream p u q x =
      ap (λ t. if q.recursion_desired then t else conclude m p q x x.buffer)
        (with_discovery-upstream p u q x p.discovery_resolver)

  -- With bogus-priv the answer to a private reverse name does not depend on the upstream, which is
  -- so never asked, and it is never an error.
  pub resolve_private :
      (p : Proxy) (u : Query → Bytes → Option Answer) (q : Query) (buf : Bytes)
      → p.bogus_priv ≡ true
      → is_private_query q ≡ true
      → (resolve m p q buf ≡ resolve m (record p { upstream = u }) q buf)
        × ((a : Answer) → resolve m p q buf ≡ some a → a.is_error ≡ false)
  unfolding resolve
  resolve_private p u q buf on private = (
    ap (try_hosts m p.local_resolver q buf) (
        fun_ext
          (λ b. step p.upstream b ∙ after_upstream-upstream p u q (not_asked b) ∙ sym (step u b))),
    λ a h.
        try_hosts-quiet p.local_resolver q buf _
          (λ b x e. after_upstream-quiet p q (not_asked b) g x (sym (step p.upstream b) ∙ e)) a h,
  )
    where
      g : (p.bogus_priv && is_private_query q) ≡ true
      g = ground (arith, on, private)

      ask : (v : Query → Bytes → Option Answer) → Proxy
      ask v = record p { upstream = v }

      step :
          (v : Query → Bytes → Option Answer) (b : Bytes)
          → (ask_upstream m (ask v) q b >>= after_upstream m (ask v) q)
            ≡ after_upstream m (ask v) q (not_asked b)
      step v b =
          ap (λ t. (if t then some (not_asked b) else v q b) >>= after_upstream m (ask v) q) g
