-- ===== src/Config/Forwarder/Reload.antt =====
-- The forwarders of config/forwarder.go, printed for the file of the settings and read again.
use nextdns.Prelude.{
  drop_behind, index_byte-append, All, Bytes, List, Option, [], append-nil, append_assoc, bytes_eq,
  false, has_suffix, index_byte, none, refl, some, sym, take_front, true, ◌++◌, ◌∷◌, ◌≡◌,
}
use nextdns.Config.Forwarder.{
  Resolver, fqdn, insert, new_resolver, print_domain, print_resolver, set_value, split_at,
  strings_of,
}
use nextdns.Config.Storage.Lines.{IsTrimmed, trim_space-IsTrimmed}
use nextdns.Config.Storage.RoundTrip.{SetsTo}

-- What the domain of a forwarder looks like: none, or a text that ends with a dot.
abbrev pub DomainReads : Bytes → Bytes → Type 0
DomainReads [] addr = index_byte addr 61 ≡ none
DomainReads (c ∷ domain) addr =
    IsTrimmed (c ∷ domain)
    × IsTrimmed addr
    × (index_byte (c ∷ domain) 61 ≡ none)
    × (has_suffix (c ∷ domain) (46 ∷ []) ≡ true)

split_at-append :
    (domain addr : Bytes)
    → IsTrimmed domain
    → IsTrimmed addr
    → index_byte domain 61 ≡ none
    → has_suffix domain (46 ∷ []) ≡ true
    → split_at (domain ++ 61 ∷ addr) (index_byte (domain ++ 61 ∷ addr) 61) ≡ (addr, domain)
unfolding fqdn
split_at-append domain addr d a plain dot = rw (
  index_byte-append domain 61 addr plain,
  take_front domain (61 ∷ addr),
  drop_behind domain 61 addr,
  trim_space-IsTrimmed domain d,
  trim_space-IsTrimmed addr a,
  dot,
)

module _ {ℓ} {A : Type ℓ} (new : Bytes → Option A) where
  -- A forwarder whose server is made of its address.
  pub record IsReadable (r : Resolver A) : Type ℓ where
    pub made : new r.addr ≡ some r.server
    pub domain_reads : DomainReads r.domain r.addr

  split_at-print_domain :
      (domain addr : Bytes)
      → DomainReads domain addr
      → split_at (print_domain domain addr) (index_byte (print_domain domain addr) 61)
        ≡ (addr, domain)
  unfolding fqdn
  split_at-print_domain [] addr d = rw d
  split_at-print_domain (c ∷ domain) addr d = split_at-append (c ∷ domain) addr d.0 d.1 d.2 d.3

  pub new_resolver-print_resolver :
      (r : Resolver A) → IsReadable r → new_resolver new (print_resolver r) ≡ some r
  unfolding new_resolver print_resolver
  new_resolver-print_resolver r h =
      rw (split_at-print_domain r.domain r.addr h.domain_reads, h.made)

  abbrev pub AllApart : List (Resolver A) → List (Resolver A) → Type 0
  AllApart qs [] = Unit
  AllApart qs (r ∷ rs) =
      All (λ x. bytes_eq r.domain x.domain ≡ false) qs × AllApart (qs ++ r ∷ []) rs

  insert_last :
      (qs : List (Resolver A)) (r : Resolver A)
      → All (λ x. bytes_eq r.domain x.domain ≡ false) qs
      → insert qs r ≡ qs ++ r ∷ []
  unfolding insert
  insert_last [] r h = refl
  insert_last (x ∷ qs) r h = rw (h.0, insert_last qs r h.1)

  -- The printed forwarders are set one by one to the same list, behind those that are there.
  pub set_value-strings_of :
      (qs rs : List (Resolver A))
      → All IsReadable rs
      → AllApart qs rs
      → SetsTo (set_value new) qs (strings_of rs) (qs ++ rs)
  unfolding strings_of set_value
  set_value-strings_of qs [] h a = sym (append-nil qs)
  set_value-strings_of qs (r ∷ rs) h a = (
    qs ++ r ∷ [],
    rw (new_resolver-print_resolver r h.0, insert_last qs r a.0),
    rw (← append_assoc qs (r ∷ []) rs) (set_value-strings_of (qs ++ r ∷ []) rs h.1 a.1),
  )
