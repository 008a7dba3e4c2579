-- ===== src/Config/Forwarder/Order.antt =====
-- Which forwarder serves a name, config/forwarder.go.
use nextdns.Prelude.{
  All, Bool-cases, Bytes, List, [], ap, arith, bytes_eq, bytes_eq_iff, eq_of_has_suffix, false,
  has_suffix, has_suffix-append, inl, inr, length, map, refl, some, some_inj, sym, true, ◌++◌, ◌==◌,
  ◌||◌, ◌↔◌, ◌∷◌, ◌≡◌, ◌≢◌, ◌⊎◌,
}
use mathlib.Core.Path.{ap, subst}
use nextdns.Config.Forwarder.{Resolver, get, insert, matches}

All-snoc {ℓ κ} :
    {A : Type ℓ} (P : A → Type κ) (xs : List A) (y : A) → All P xs → P y → All P (xs ++ y ∷ [])
All-snoc P [] y h p = (p, tt)
All-snoc P (x ∷ xs) y (px, h) p = (px, All-snoc P xs y h p)

module _ {ℓ} {A : Type ℓ} where
  -- A forwarder is for every name if it has no domain, and otherwise for its domain and for the names
  -- below it, cut at a dot.
  pub matches_iff :
      (r : Resolver A) (name : Bytes)
      → (matches r name ≡ true)
        ↔ ((r.domain ≡ []) ⊎ (name ≡ r.domain) ⊎ ((pre : Bytes) × (name ≡ pre ++ 46 ∷ r.domain)))
  unfolding matches
  matches_iff r name = (from, to)
    where
      nil_of_length : (d : Bytes) → (length d == 0) ≡ true → d ≡ []
      nil_of_length [] e = refl
      nil_of_length (c ∷ d) e = absurd (ground (arith, e))

      from :
          matches r name ≡ true
          → (r.domain ≡ []) ⊎ (name ≡ r.domain) ⊎ ((pre : Bytes) × (name ≡ pre ++ 46 ∷ r.domain))
      from h = elim (Bool-cases (length r.domain == 0)) [
        | inl e ↦ inl (nil_of_length r.domain e)
        | inr e ↦ elim (Bool-cases (bytes_eq name r.domain)) [
          | inl e' ↦ inr (inl ((bytes_eq_iff name r.domain).0 e'))
          | inr e' ↦ inr (inr (eq_of_has_suffix name (46 ∷ r.domain) (rw (e, e') at h)))
        ]
      ]

      to :
          (r.domain ≡ []) ⊎ (name ≡ r.domain) ⊎ ((pre : Bytes) × (name ≡ pre ++ 46 ∷ r.domain))
          → matches r name ≡ true
      to (inl e) = ap (λ d. length d == 0 || (bytes_eq name d || has_suffix name (46 ∷ d))) e
      to (inr (inl e)) = let same = (bytes_eq_iff name r.domain).1 e in ground (arith, same)
      to (inr (inr (pre, e))) =
          let below : has_suffix name (46 ∷ r.domain) ≡ true =
            rw e (has_suffix-append pre (46 ∷ r.domain)) in
          ground (arith, below)

  -- The first forwarder that matches serves the name.
  pub get_iff :
      (rs : List (Resolver A)) (name : Bytes) (s : A)
      → (get rs name ≡ some s) ↔ (
          (xs : List (Resolver A)) × (r : Resolver A) × (ys : List (Resolver A)) × (rs
            ≡ xs ++ r ∷ ys)
          × All (λ x. matches x name ≡ false) xs
          × (matches r name ≡ true)
          × (r.server ≡ s))
  unfolding get
  get_iff rs name s =
      (from rs, λ (xs, r, ys, e, before, hit, same). rw e (to xs r ys before hit same))
    where
      from :
          (rs : List (Resolver A))
          → get rs name ≡ some s
          → (xs : List (Resolver A)) × (r : Resolver A) × (ys : List (Resolver A)) × (rs
              ≡ xs ++ r ∷ ys)
            × All (λ x. matches x name ≡ false) xs
            × (matches r name ≡ true)
            × (r.server ≡ s)
      from [] h = cc
      from (x ∷ rs) h = elim (Bool-cases (matches x name)) [
        | inl e ↦ ([], x, rs, refl, tt, e, some_inj (rw e at h))
        | inr e ↦
            let (xs, r, ys, split, before, hit, same) = from rs (rw e at h) in
            (x ∷ xs, r, ys, ap (◌∷◌ x) split, (e, before), hit, same)
      ]

      to :
          (xs : List (Resolver A)) (r : Resolver A) (ys : List (Resolver A))
          → All (λ x. matches x name ≡ false) xs
          → matches r name ≡ true
          → r.server ≡ s
          → get (xs ++ r ∷ ys) name ≡ some s
      to [] r ys before hit same = rw hit (ap some same)
      to (x ∷ xs) r ys (e, before) hit same = rw e (to xs r ys before hit same)

  abbrev pub domains : List (Resolver A) → List Bytes
  domains rs = map (λ r. r.domain) rs

  -- No domain has two forwarders.
  abbrev pub IsUnique : List (Resolver A) → Type 0
  IsUnique [] = Unit
  IsUnique (x ∷ rs) = All (λ d. x.domain ≢ d) (domains rs) × IsUnique rs

  -- A new value replaces the forwarder of its domain, in its place, or is added behind the others;
  -- the domains stay without repetition.
  pub insert-IsUnique :
      (rs : List (Resolver A)) (r : Resolver A)
      → IsUnique rs
      → IsUnique (insert rs r)
        × ((domains (insert rs r) ≡ domains rs)
            ⊎ (domains (insert rs r) ≡ domains rs ++ r.domain ∷ []))
  unfolding insert
  insert-IsUnique [] r h = ((tt, tt), inr refl)
  insert-IsUnique (x ∷ rs) r (fresh, h) = elim (Bool-cases (bytes_eq r.domain x.domain)) [
    | inl e ↦
        let same : r.domain ≡ x.domain = (bytes_eq_iff r.domain x.domain).0 e in
        rw e ((rw same fresh, h), inl (ap (λ d. d ∷ domains rs) same))
    | inr e ↦
        let (rest, order) = insert-IsUnique rs r h in rw e ((still (ne e) order, rest), grown order)
  ]
    where
      ne : bytes_eq r.domain x.domain ≡ false → x.domain ≢ r.domain
      ne e same = cc ((bytes_eq_iff r.domain x.domain).1 (sym same), e)

      still :
          x.domain ≢ r.domain
          → (domains (insert rs r) ≡ domains rs)
            ⊎ (domains (insert rs r) ≡ domains rs ++ r.domain ∷ [])
          → All (λ d. x.domain ≢ d) (domains (insert rs r))
      still other (inl e) = subst (All (λ d. x.domain ≢ d)) (sym e) fresh
      still other (inr e) =
          subst (All (λ d. x.domain ≢ d)) (sym e)
            (All-snoc (λ d. x.domain ≢ d) (domains rs) r.domain fresh other)

      grown :
          (domains (insert rs r) ≡ domains rs)
            ⊎ (domains (insert rs r) ≡ domains rs ++ r.domain ∷ [])
          → (x.domain ∷ domains (insert rs r) ≡ x.domain ∷ domains rs)
            ⊎ (x.domain ∷ domains (insert rs r) ≡ x.domain ∷ domains rs ++ r.domain ∷ [])
      grown (inl e) = inl (ap (◌∷◌ x.domain) e)
      grown (inr e) = inr (ap (◌∷◌ x.domain) e)
