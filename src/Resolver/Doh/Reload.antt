-- ===== src/Resolver/Doh/Reload.antt =====
-- The time of the last change of a configuration, in resolver/doh.go.
use nextdns.Prelude.{
  Bytes, Option, arith, bytes_eq_refl, bytes_eq_iff, none, refl, some, ℕ, ◌≡◌, ◌≢◌, ◌≤◌,
}
use nextdns.Resolver.Doh.{Modified, update_last_mod}

-- The recorded time of a configuration never goes back, the times of others stay, and a time that
-- was announced is reached.
pub update_last_mod_forward :
    (known : Modified) (url other : Bytes) (announced : Option ℕ)
    → (known other ≤ update_last_mod known url announced other)
      × (other ≢ url → update_last_mod known url announced other ≡ known other)
      × ((t : ℕ) → announced ≡ some t → t ≤ update_last_mod known url announced url)
unfolding update_last_mod
update_last_mod_forward known url other none = (omega arith, λ h. refl, λ t e. cc)
update_last_mod_forward known url other (some t) = (
  ground (arith, bytes_eq_iff other url),
  λ h. ground (arith, bytes_eq_iff other url),
  λ u e. ground (arith, bytes_eq_refl url),
)
