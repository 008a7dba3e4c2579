-- ===== src/Discovery/Hosts/Complete.antt =====
-- What a lookup finds of the lines of a hosts file, discovery/hosts.go.
use mathlib.Core.Path.{subst}
use nextdns.Prelude.{
  Bytes, List, [], ap, arith, index_byte, inl, inr, refl, sym, ℕ, ◌++◌, ◌+◌, ◌∙◌, ◌∷◌, ◌≡◌, ◌≢◌,
  ◌≤◌, ◌⊎◌,
}
use nextdns.Discovery.Hosts.{
  Literals, Maps, add_fields, add_line, add_lines, add_literal, add_name, add_names, fields,
  no_maps, parse_literal_ip, read_hosts_file, uncomment_at,
}
use nextdns.Discovery.Hosts.Tables.{
  Member, Member-snoc_self, put-grows, put_self, read_hosts_file-IsConsistent,
}
use nextdns.Discovery.Names.{abs_domain_name, lower_ascii_bytes, lower_byte, prepare_host_lookup}

-- Names that differ in the case of ASCII letters only.
abbrev pub SameLetter : ℕ → ℕ → Type 0
SameLetter b c =
    (b ≡ c) ⊎ ((65 ≤ b) × (b ≤ 90) × (c ≡ b + 32)) ⊎ ((65 ≤ c) × (c ≤ 90) × (b ≡ c + 32))

abbrev pub SameButCase : Bytes → Bytes → Type 0
SameButCase [] [] = Unit
SameButCase [] (c ∷ t) = ⊥
SameButCase (b ∷ s) [] = ⊥
SameButCase (b ∷ s) (c ∷ t) = SameLetter b c × SameButCase s t

lower_byte-SameLetter : (b c : ℕ) → SameLetter b c → lower_byte b ≡ lower_byte c
lower_byte-SameLetter b c h = ground (arith, h)

lower-SameButCase : (s t : Bytes) → SameButCase s t → lower_ascii_bytes s ≡ lower_ascii_bytes t
lower-SameButCase [] [] h = refl
lower-SameButCase [] (c ∷ t) h = absurd h
lower-SameButCase (b ∷ s) [] h = absurd h
lower-SameButCase (b ∷ s) (c ∷ t) (same, h) =
    ap (λ x. x ∷ lower_ascii_bytes s) (lower_byte-SameLetter b c same)
    ∙ ap (◌∷◌ (lower_byte c)) (lower-SameButCase s t h)

module _ (l : Literals) where
  -- A line gives a name to an address: behind its comment is cut off, it is the address and its names.
  pub record Gives (line addr name : Bytes) : Type 0 where
    pub literal : Bytes
    pub first : Bytes
    pub others : List Bytes
    pub parts : fields (uncomment_at l line (index_byte line 35)) ≡ literal ∷ first ∷ others
    pub parsed : parse_literal_ip l literal ≡ addr
    pub some_address : addr ≢ []
    pub named : Member name (first ∷ others)

  names-grow :
      (addr : Bytes) (m : Maps l) (fs : List Bytes) (x k : Bytes)
      → Member x (m.addrs k)
      → Member x ((add_names l addr m fs).addrs k)
  unfolding add_name
  names-grow addr m [] x k h = h
  names-grow addr m (f ∷ fs) x k h =
      names-grow addr (add_name l addr m f) fs x k
        (put-grows l m.addrs addr (abs_domain_name f) x k h)

  fields-grow :
      (m : Maps l) (fs : List Bytes) (x k : Bytes)
      → Member x (m.addrs k)
      → Member x ((add_fields l m fs).addrs k)
  fields-grow m [] x k h = h
  fields-grow m (a ∷ []) x k h = h
  fields-grow m (a ∷ f ∷ fs) x k h = literal (parse_literal_ip l a)
    where
      literal : (addr : Bytes) → Member x ((add_literal l m addr (f ∷ fs)).addrs k)
      literal [] = h
      literal (c ∷ addr) = names-grow (c ∷ addr) m (f ∷ fs) x k h

  lines-grow :
      (m : Maps l) (lines : List Bytes) (x k : Bytes)
      → Member x (m.addrs k)
      → Member x ((add_lines l m lines).addrs k)
  unfolding add_line
  lines-grow m [] x k h = h
  lines-grow m (line ∷ lines) x k h =
      lines-grow (add_line l m line) lines x k
        (fields-grow m (fields (uncomment_at l line (index_byte line 35))) x k h)

  adds_name :
      (addr : Bytes) (m : Maps l) (fs : List Bytes) (f : Bytes)
      → Member f fs
      → Member (abs_domain_name f) ((add_names l addr m fs).addrs addr)
  unfolding add_name
  adds_name addr m [] f h = absurd h
  adds_name addr m (g ∷ fs) f (inl e) =
      names-grow addr (add_name l addr m g) fs (abs_domain_name f) addr (
        subst (Member (abs_domain_name f))
          (sym (put_self m.addrs addr (m.addrs addr ++ abs_domain_name g ∷ [])))
          (subst (λ y. Member (abs_domain_name f) (m.addrs addr ++ abs_domain_name y ∷ [])) e
            (Member-snoc_self (abs_domain_name f) (m.addrs addr))))
  adds_name addr m (g ∷ fs) f (inr h) = adds_name addr (add_name l addr m g) fs f h

  adds_line :
      (m : Maps l) (line addr name : Bytes)
      → Gives line addr name
      → Member (abs_domain_name name) ((add_line l m line).addrs addr)
  unfolding add_line
  adds_line m line addr name g =
      subst (λ fs. Member (abs_domain_name name) ((add_fields l m fs).addrs addr)) (sym g.parts)
        (literal (parse_literal_ip l g.literal) g.parsed)
    where
      literal :
          (x : Bytes)
          → x ≡ addr
          → Member (abs_domain_name name) ((add_literal l m x (g.first ∷ g.others)).addrs addr)
      literal [] e = absurd (g.some_address (sym e))
      literal (c ∷ x) e =
          subst
            (λ y. Member (abs_domain_name name) ((add_names l y m (g.first ∷ g.others)).addrs addr))
            (sym e) (adds_name addr m (g.first ∷ g.others) name g.named)

  adds_lines :
      (m : Maps l) (lines : List Bytes) (line addr name : Bytes)
      → Member line lines
      → Gives line addr name
      → Member (abs_domain_name name) ((add_lines l m lines).addrs addr)
  adds_lines m [] line addr name h g = absurd h
  adds_lines m (x ∷ lines) line addr name (inl e) g =
      lines-grow (add_line l m x) lines (abs_domain_name name) addr (
        subst (λ y. Member (abs_domain_name name) ((add_line l m y).addrs addr)) e
          (adds_line m line addr name g))
  adds_lines m (x ∷ lines) line addr name (inr h) g =
      adds_lines (add_line l m x) lines line addr name h g

  -- A name that a line gives to an address is a name of the address, and asking for a name of an
  -- address, in any case of its letters, finds the address.
  pub lookup_finds :
      (lines : List Bytes) (addr name asked : Bytes)
      → ((line : Bytes)
          → Member line lines
          → Gives line addr name
          → Member (abs_domain_name name) ((read_hosts_file l lines).addrs addr))
        × (Member name ((read_hosts_file l lines).addrs addr)
            → SameButCase asked name
            → Member addr ((read_hosts_file l lines).names (prepare_host_lookup asked)))
  unfolding read_hosts_file prepare_host_lookup
  lookup_finds lines addr name asked = (
    λ line h g. adds_lines (no_maps l) lines line addr name h g,
    λ h same.
        subst (λ k. Member addr ((read_hosts_file l lines).names (abs_domain_name k)))
          (sym (lower-SameButCase asked name same))
          (read_hosts_file-IsConsistent l lines addr name h),
  )
