-- ===== src/Proxy/Reverse/Private.antt =====
-- `isPrivateReverse` (proxy/util.go) on the reverse names of IPv4 addresses.
use nextdns.Prelude.{
  Bool, Bytes, [], all_below, all_below-true, arith, bit_and, if◌then◌else◌, leb, not, refl, some,
  true, ℕ, ◌&&◌, ◌<◌, ◌==◌, ◌↔◌, ◌∷◌, ◌≡◌, ◌≤◌, ◌⊎◌,
}
use nextdns.Net.{is_link_local_unicast, is_loopback, to4}
use nextdns.Proxy.Reverse.{is_private, is_private_reverse, ptr_ip}

-- The networks by their bounds.
abbrev pub InPrivateRange : ℕ → ℕ → Type 0
InPrivateRange a b =
    (a ≡ 10)
    ⊎ (a ≡ 127)
    ⊎ ((a ≡ 172) × (16 ≤ b) × (b ≤ 31))
    ⊎ ((a ≡ 192) × (b ≡ 168))
    ⊎ ((a ≡ 169) × (b ≡ 254))

abbrev mask_ok : ℕ → Bool
mask_ok b = if bit_and b 240 == 16 then leb 16 b && leb b 31 else not (leb 16 b && leb b 31)

masks : all_below 256 mask_ok ≡ true
masks = refl

mask_iff : (b : ℕ) → b < 256 → ((bit_and b 240 == 16) ≡ true) ↔ ((16 ≤ b) × (b ≤ 31))
mask_iff b h = let ok = all_below-true 256 mask_ok masks b h in ground (arith, ok)

-- A reverse name that reads as an IPv4 address is private exactly in 10/8, 127/8, 172.16/12,
-- 192.168/16 and 169.254/16.
pub is_private_reverse_iff :
    (name : Bytes) (a b c d : ℕ)
    → b < 256
    → ptr_ip name ≡ some (a ∷ b ∷ c ∷ d ∷ [])
    → (is_private_reverse name ≡ true) ↔ InPrivateRange a b
unfolding is_private_reverse is_private to4 is_loopback is_link_local_unicast
is_private_reverse_iff name a b c d h e = let mask = mask_iff b h in rw e (ground (arith, mask))
