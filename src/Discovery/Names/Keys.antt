-- ===== src/Discovery/Names/Keys.antt =====
-- The keys under which the hosts' names are kept, discovery/util.go.
use mathlib.Core.Path.{ap}
use nextdns.Prelude.{Bool-cases, Bytes, [], ap, arith, inl, inr, refl, ℕ, ◌==◌, ◌∙◌, ◌∷◌, ◌≡◌, ◌≢◌}
use nextdns.Discovery.Names.{abs_domain_name, lower_ascii_bytes, lower_byte, prepare_host_lookup}

lower_byte_idem : (b : ℕ) → lower_byte (lower_byte b) ≡ lower_byte b
lower_byte_idem b = ground arith

lower_ascii_bytes_idem : (s : Bytes) → lower_ascii_bytes (lower_ascii_bytes s) ≡ lower_ascii_bytes s
lower_ascii_bytes_idem [] = refl
lower_ascii_bytes_idem (b ∷ s) = rw (lower_byte_idem b, lower_ascii_bytes_idem s)

lower_byte-dot : (b : ℕ) → (lower_byte b == 46) ≡ (b == 46)
lower_byte-dot b = ground arith

pub lower-abs :
    (s : Bytes) → lower_ascii_bytes (abs_domain_name s) ≡ abs_domain_name (lower_ascii_bytes s)
unfolding abs_domain_name
lower-abs [] = refl
lower-abs (b ∷ []) = elim (Bool-cases (b == 46)) [
  | inl e ↦ rw (lower_byte-dot b, e)
  | inr e ↦ rw (lower_byte-dot b, e)
]
lower-abs (b ∷ c ∷ s) = ap (◌∷◌ (lower_byte b)) (lower-abs (c ∷ s))

pub abs_ne : (s : Bytes) → abs_domain_name s ≢ []
unfolding abs_domain_name
abs_ne [] e = cc
abs_ne (b ∷ []) e = ground (arith, e)
abs_ne (b ∷ c ∷ s) e = cc

abs-cons : (b : ℕ) (t : Bytes) → t ≢ [] → abs_domain_name (b ∷ t) ≡ b ∷ abs_domain_name t
unfolding abs_domain_name
abs-cons b [] ne = absurd (ne refl)
abs-cons b (c ∷ t) ne = refl

abs_domain_name_idem : (s : Bytes) → abs_domain_name (abs_domain_name s) ≡ abs_domain_name s
unfolding abs_domain_name
abs_domain_name_idem [] = refl
abs_domain_name_idem (b ∷ []) = elim (Bool-cases (b == 46)) [ inl e ↦ rw (e, e) | inr e ↦ rw e ]
abs_domain_name_idem (b ∷ c ∷ s) =
    abs-cons b (abs_domain_name (c ∷ s)) (abs_ne (c ∷ s))
    ∙ ap (◌∷◌ b) (abs_domain_name_idem (c ∷ s))

-- A name is looked up under the same key with or without its final dot, and in any case.
pub prepare_host_lookup_idem :
    (host : Bytes)
    → (prepare_host_lookup (abs_domain_name host) ≡ prepare_host_lookup host)
      × (prepare_host_lookup (lower_ascii_bytes host) ≡ prepare_host_lookup host)
      × (prepare_host_lookup (prepare_host_lookup host) ≡ prepare_host_lookup host)
unfolding prepare_host_lookup
prepare_host_lookup_idem host = (
  ap abs_domain_name (lower-abs host) ∙ abs_domain_name_idem (lower_ascii_bytes host),
  ap abs_domain_name (lower_ascii_bytes_idem host),
  ap abs_domain_name
        (lower-abs (lower_ascii_bytes host) ∙ ap abs_domain_name (lower_ascii_bytes_idem host))
      ∙ abs_domain_name_idem (lower_ascii_bytes host),
)
