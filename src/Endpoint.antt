-- ===== src/Endpoint.antt =====
-- resolver/endpoint/: the endpoints and the manager that chooses one.
pub mod Manager
pub mod Request
pub mod Providers
pub mod Address
use nextdns.Prelude.{
  Bool, Bytes, List, [], arith, bytes_eq, bytes_eq_refl, bytes_eq_iff, false, refl, true, ◌&&◌, ◌↔◌,
  ◌∷◌, ◌≡◌,
}

-- `DOHEndpoint` and `DNSEndpoint`
pub data Endpoint : Type 0 where
  doh : Bytes → Bytes → List Bytes → List Bytes → Endpoint
  dns : Bytes → Endpoint

pub data Protocol : Type 0 where
  protocol_doh protocol_dns : Protocol

unfoldable pub protocol : Endpoint → Protocol
protocol (doh hostname path bootstrap alpn) = protocol_doh
protocol (dns addr) = protocol_dns

-- The length test and the loop over the bootstrap addresses.
unfoldable pub bootstrap_eq : List Bytes → List Bytes → Bool
bootstrap_eq [] [] = true
bootstrap_eq [] (y ∷ ys) = false
bootstrap_eq (x ∷ xs) [] = false
bootstrap_eq (x ∷ xs) (y ∷ ys) = bytes_eq x y && bootstrap_eq xs ys

-- `Equal`: the ALPN ids of a DoH endpoint are not compared.
unfoldable pub equal : Endpoint → Endpoint → Bool
equal (doh hostname path bootstrap alpn) (doh hostname' path' bootstrap' alpn') =
    bytes_eq hostname hostname' && bytes_eq path path' && bootstrap_eq bootstrap bootstrap'
equal (doh hostname path bootstrap alpn) (dns addr) = false
equal (dns addr) (doh hostname path bootstrap alpn) = false
equal (dns addr) (dns addr') = bytes_eq addr addr'

-- What `Equal` compares.
abbrev pub identity : Endpoint → Endpoint
identity (doh hostname path bootstrap alpn) = doh hostname path bootstrap []
identity (dns addr) = dns addr

bootstrap_eq-eq : (xs ys : List Bytes) → bootstrap_eq xs ys ≡ true → xs ≡ ys
unfolding bootstrap_eq
bootstrap_eq-eq [] [] h = refl
bootstrap_eq-eq [] (y ∷ ys) h = cc
bootstrap_eq-eq (x ∷ xs) [] h = cc
bootstrap_eq-eq (x ∷ xs) (y ∷ ys) h = ground (arith, bytes_eq_iff x y, bootstrap_eq-eq xs ys)

bootstrap_eq_refl : (xs : List Bytes) → bootstrap_eq xs xs ≡ true
unfolding bootstrap_eq
bootstrap_eq_refl [] = refl
bootstrap_eq_refl (x ∷ xs) = ground (arith, bytes_eq_refl x, bootstrap_eq_refl xs)

equal-identity : (a b : Endpoint) → equal a b ≡ true → identity a ≡ identity b
unfolding equal
equal-identity (doh h p b a) (doh h' p' b' a') e =
    ground (arith, bytes_eq_iff h h', bytes_eq_iff p p', bootstrap_eq-eq b b')
equal-identity (doh h p b a) (dns x) e = cc
equal-identity (dns x) (doh h p b a) e = cc
equal-identity (dns x) (dns y) e = ground (arith, bytes_eq_iff x y)

identity-equal : (a b : Endpoint) → identity a ≡ identity b → equal a b ≡ true
unfolding equal
identity-equal (doh h p b a) (doh h' p' b' a') e =
    let eh : h ≡ h' = cc in
    let ep : p ≡ p' = cc in
    let eb : b ≡ b' = cc in
    rw (eh, ep, eb, bytes_eq_refl h', bytes_eq_refl p', bootstrap_eq_refl b')
identity-equal (doh h p b a) (dns x) e = cc
identity-equal (dns x) (doh h p b a) e = cc
identity-equal (dns x) (dns y) e = let exy : x ≡ y = cc in rw (exy, bytes_eq_refl y)

-- `Equal` holds exactly of two endpoints with the same protocol and the same address, or the same
-- host name, path and bootstrap addresses in order; the ALPN ids do not count.
pub equal_iff : (a b : Endpoint) → (equal a b ≡ true) ↔ (identity a ≡ identity b)
equal_iff a b = (equal-identity a b, identity-equal a b)
