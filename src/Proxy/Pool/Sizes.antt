-- ===== src/Proxy/Pool/Sizes.antt =====
-- The sizes of the buffers of proxy/bufferpool.go.
use nextdns.Prelude.{
  ==_iff, All, Bool-cases, List, [], inl, inr, leb, refl, some, suc, sym, tests, zero, ℕ, ◌==◌, ◌∙◌,
  ◌∷◌, ◌≡◌, ◌≤◌,
}
use nextdns.Proxy.Pool.{Buffer, TieredBufferPool, get, pick, put, remove_at}

abbrev pub HasSize : ℕ → Buffer → Type 0
HasSize n b = (b.len ≡ n) × (b.capacity ≡ n)

-- Each tier holds whole buffers of its size.
pub record IsTiered (p : TieredBufferPool) : Type 0 where
  pub smalls : All (HasSize 512) p.small
  pub mediums : All (HasSize 4096) p.medium
  pub larges : All (HasSize 65536) p.large

pick-HasSize : (n : ℕ) (bs : List Buffer) (i : ℕ) → All (HasSize n) bs → HasSize n (pick n bs i)
pick-HasSize n [] i h = (refl, refl)
pick-HasSize n (b ∷ bs) zero (hb, h) = hb
pick-HasSize n (b ∷ bs) (suc i) (hb, h) = pick-HasSize n bs i h

remove_at-All :
    (n : ℕ) (bs : List Buffer) (i : ℕ) → All (HasSize n) bs → All (HasSize n) (remove_at bs i)
remove_at-All n [] i h = h
remove_at-All n (b ∷ bs) zero (hb, h) = h
remove_at-All n (b ∷ bs) (suc i) (hb, h) = (hb, remove_at-All n bs i h)

-- A buffer of a tiered pool has at least the size that was asked for, up to 65536, and the pool
-- stays tiered, whichever object is handed out.
pub get-IsTiered :
    (p : TieredBufferPool) (size i : ℕ)
    → IsTiered p
    → IsTiered (get p size i).1
      × (size ≤ 65536 → size ≤ (get p size i).0.len)
      × ((get p size i).0.len ≡ (get p size i).0.capacity)
unfolding get
get-IsTiered p size i h = elim (Bool-cases (leb size 512)) [
  | inl e ↦
      let (l, c) = pick-HasSize 512 p.small i h.smalls in
      rw e (
        record {
          smalls = remove_at-All 512 p.small i h.smalls;
          mediums = h.mediums;
          larges = h.larges;
        },
        λ le. omega (tests, l),
        l ∙ sym c,
      )
  | inr e ↦ elim (Bool-cases (leb size 4096)) [
    | inl e' ↦
        let (l, c) = pick-HasSize 4096 p.medium i h.mediums in
        rw (e, e')
          (
            record {
              smalls = h.smalls;
              mediums = remove_at-All 4096 p.medium i h.mediums;
              larges = h.larges;
            },
            λ le. omega (tests, l),
            l ∙ sym c,
          )
    | inr e' ↦
        let (l, c) = pick-HasSize 65536 p.large i h.larges in
        rw (e, e')
          (
            record {
              smalls = h.smalls;
              mediums = h.mediums;
              larges = remove_at-All 65536 p.large i h.larges;
            },
            λ le. omega (tests, l),
            l ∙ sym c,
          )
  ]
]

-- A whole buffer of any size, or none, can be put back.
pub put-IsTiered :
    (p : TieredBufferPool) (b : Buffer)
    → IsTiered p
    → b.len ≡ b.capacity
    → IsTiered (put p (some b))
unfolding put
put-IsTiered p b h whole = elim (Bool-cases (b.capacity == 512)) [
  | inl e ↦
      let is = (==_iff b.capacity 512).0 e in
      rw e
        (record { smalls = ((whole ∙ is, is), h.smalls); mediums = h.mediums; larges = h.larges })
  | inr e ↦ elim (Bool-cases (b.capacity == 4096)) [
    | inl e' ↦
        let is = (==_iff b.capacity 4096).0 e' in
        rw (e, e')
          (record { smalls = h.smalls; mediums = ((whole ∙ is, is), h.mediums); larges = h.larges })
    | inr e' ↦ elim (Bool-cases (b.capacity == 65536)) [
      | inl e'' ↦
          let is = (==_iff b.capacity 65536).0 e'' in
          rw (e, e', e'')
            (record {
              smalls = h.smalls;
              mediums = h.mediums;
              larges = ((whole ∙ is, is), h.larges);
            })
      | inr e'' ↦ rw (e, e', e'') h
    ]
  ]
]
