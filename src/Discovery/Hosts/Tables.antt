-- ===== src/Discovery/Hosts/Tables.antt =====
-- The two tables of the hosts file, discovery/hosts.go.
use nextdns.Prelude.{
  Bool-cases, Bytes, List, [], ap, bytes_eq, bytes_eq_iff, bytes_eq_refl, codes, false, index_byte,
  inl, inr, refl, sym, ◌++◌, ◌∙◌, ◌∷◌, ◌≡◌, ◌≢◌, ◌⊎◌,
}
use nextdns.Discovery.Names.Keys.{prepare_host_lookup_idem}
use mathlib.Core.Path.{ap, subst}
use nextdns.Discovery.Hosts.{
  Literals, Maps, Table, add_fields, add_line, add_lines, add_literal, add_name, add_names,
  default_to, fields, local_addrs, no_maps, parse_literal_ip, put, read_hosts_file, uncomment_at,
  with_default,
}
use nextdns.Discovery.Names.{abs_domain_name, lower_ascii_bytes, prepare_host_lookup}
use nextdns.Discovery.Hosts.{
  Literals, Maps, Table, add_fields, add_line, add_lines, add_literal, add_name, add_names,
  default_to, fields, local_addrs, no_maps, parse_literal_ip, put, read_hosts_file, uncomment_at,
  with_default,
}

abbrev pub Member : Bytes → List Bytes → Type 0
Member x [] = ⊥
Member x (y ∷ ys) = (x ≡ y) ⊎ Member x ys

Member-append_left : (x : Bytes) (xs ys : List Bytes) → Member x xs → Member x (xs ++ ys)
Member-append_left x [] ys h = elim h [ ]
Member-append_left x (y ∷ xs) ys (inl e) = inl e
Member-append_left x (y ∷ xs) ys (inr h) = inr (Member-append_left x xs ys h)

pub Member-snoc_self : (x : Bytes) (xs : List Bytes) → Member x (xs ++ x ∷ [])
Member-snoc_self x [] = inl refl
Member-snoc_self x (y ∷ xs) = inr (Member-snoc_self x xs)

Member-snoc : (x y : Bytes) (xs : List Bytes) → Member x (xs ++ y ∷ []) → Member x xs ⊎ (x ≡ y)
Member-snoc x y [] (inl e) = inr e
Member-snoc x y [] (inr h) = absurd h
Member-snoc x y (z ∷ xs) (inl e) = inl (inl e)
Member-snoc x y (z ∷ xs) (inr h) = elim (Member-snoc x y xs h) [
  | inl k ↦ inl (inr k)
  | inr e ↦ inr e
]

pub put_self : (m : Table) (key : Bytes) (vs : List Bytes) → put m key vs key ≡ vs
put_self m key vs = rw (bytes_eq_refl key)

put_other :
    (m : Table) (key k : Bytes) (vs : List Bytes) → bytes_eq k key ≡ false → put m key vs k ≡ m k
put_other m key k vs e = rw e

not_eq : (k key : Bytes) → k ≢ key → bytes_eq k key ≡ false
not_eq k key ne = elim (Bool-cases (bytes_eq k key)) [
  | inl e ↦ absurd (ne ((bytes_eq_iff k key).0 e))
  | inr e ↦ e
]

-- A key of a lookup ends with a dot.
not_localhost : (name : Bytes) → prepare_host_lookup name ≢ codes "localhost"
unfolding prepare_host_lookup abs_domain_name
not_localhost name e =
    let twice = (prepare_host_lookup_idem name).2 in
    let dotted : prepare_host_lookup (codes "localhost") ≡ codes "localhost." = refl in
    let h : codes "localhost." ≡ codes "localhost" =
      sym dotted ∙ ap prepare_host_lookup (sym e) ∙ twice ∙ e in
    cc h

-- A name that an address has leads back to the address.
abbrev pub IsConsistent : (l : Literals) → Maps l → Type 0
IsConsistent l m =
    (addr name : Bytes)
    → Member name (m.addrs addr)
    → Member addr (m.names (prepare_host_lookup name))

module _ (l : Literals) where
  -- A table that grows keeps its members.
  pub put-grows :
      (m : Table) (key v x k : Bytes) → Member x (m k) → Member x (put m key (m key ++ v ∷ []) k)
  put-grows m key v x k h = elim (Bool-cases (bytes_eq k key)) [
    | inl e ↦
        let same : m k ≡ m key = ap m ((bytes_eq_iff k key).0 e) in
        rw e (Member-append_left x (m key) (v ∷ []) (subst (Member x) same h))
    | inr e ↦ rw e h
  ]

  add_name-IsConsistent :
      (addr : Bytes) (m : Maps l) (field : Bytes)
      → IsConsistent l m
      → IsConsistent l (add_name l addr m field)
  unfolding add_name prepare_host_lookup
  add_name-IsConsistent addr m field ok a name h = elim (Bool-cases (bytes_eq a addr)) [
    | inr e ↦ put-grows m.names key addr a (prepare_host_lookup name) (ok a name (rw e at h))
    | inl e ↦
        let same : a ≡ addr = (bytes_eq_iff a addr).0 e in
        elim (Member-snoc name (abs_domain_name field) (m.addrs addr) (rw e at h)) [
          | inl k ↦
              put-grows m.names key addr a (prepare_host_lookup name)
                (ok a name (subst (λ x. Member name (m.addrs x)) (sym same) k))
          | inr new ↦
              let at : prepare_host_lookup name ≡ key =
                ap prepare_host_lookup new ∙ (prepare_host_lookup_idem field).0 in
              subst (λ k. Member a (put m.names key (m.names key ++ addr ∷ []) k)) (sym at)
                (subst (Member a) (sym (put_self m.names key (m.names key ++ addr ∷ []))) (
                  subst (λ x. Member a (m.names key ++ x ∷ [])) same
                    (Member-snoc_self a (m.names key))))
        ]
  ]
    where
      key : Bytes
      key = abs_domain_name (lower_ascii_bytes field)

  add_names-IsConsistent :
      (addr : Bytes) (m : Maps l) (fs : List Bytes)
      → IsConsistent l m
      → IsConsistent l (add_names l addr m fs)
  add_names-IsConsistent addr m [] ok = ok
  add_names-IsConsistent addr m (f ∷ fs) ok =
      add_names-IsConsistent addr (add_name l addr m f) fs (add_name-IsConsistent addr m f ok)

  add_literal-IsConsistent :
      (m : Maps l) (addr : Bytes) (fs : List Bytes)
      → IsConsistent l m
      → IsConsistent l (add_literal l m addr fs)
  add_literal-IsConsistent m [] fs ok = ok
  add_literal-IsConsistent m (c ∷ addr) fs ok = add_names-IsConsistent (c ∷ addr) m fs ok

  add_fields-IsConsistent :
      (m : Maps l) (fs : List Bytes) → IsConsistent l m → IsConsistent l (add_fields l m fs)
  add_fields-IsConsistent m [] ok = ok
  add_fields-IsConsistent m (a ∷ []) ok = ok
  add_fields-IsConsistent m (a ∷ f ∷ fs) ok =
      add_literal-IsConsistent m (parse_literal_ip l a) (f ∷ fs) ok

  add_lines-IsConsistent :
      (m : Maps l) (lines : List Bytes) → IsConsistent l m → IsConsistent l (add_lines l m lines)
  unfolding add_line
  add_lines-IsConsistent m [] ok = ok
  add_lines-IsConsistent m (line ∷ lines) ok =
      add_lines-IsConsistent (add_line l m line) lines
        (add_fields-IsConsistent m (fields (uncomment_at l line (index_byte line 35))) ok)

  with_default-IsConsistent :
      (m : Maps l) (key : Bytes) → IsConsistent l m → IsConsistent l (with_default l m key)
  with_default-IsConsistent m key ok a name h = elim (Bool-cases (bytes_eq k key)) [
    | inr e ↦ rw e (ok a name h)
    | inl e ↦
        let same : m.names k ≡ m.names key = ap m.names ((bytes_eq_iff k key).0 e) in
        rw e (Member-default a (m.names key) (subst (Member a) same (ok a name h)))
  ]
    where
      k : Bytes
      k = prepare_host_lookup name

      Member-default :
          (x : Bytes) (vs : List Bytes) → Member x vs → Member x (default_to local_addrs vs)
      Member-default x [] q = elim q [ ]
      Member-default x (v ∷ vs) q = q

  -- The hosts file is read into two tables that agree: each name that an address has is looked up, in
  -- any case, and leads to the address.
  pub read_hosts_file-IsConsistent : (lines : List Bytes) → IsConsistent l (read_hosts_file l lines)
  unfolding read_hosts_file
  read_hosts_file-IsConsistent lines =
      with_default-IsConsistent (with_default l (add_lines l (no_maps l) lines) (codes "localhost"))
        (codes "localhost.localdomain.")
        (with_default-IsConsistent (add_lines l (no_maps l) lines) (codes "localhost")
          (add_lines-IsConsistent (no_maps l) lines (λ a name h. elim h [ ])))

  -- The default for `localhost` stands under a key without the final dot, which no lookup has: the
  -- addresses of the names other than localhost.localdomain are those that the file's lines give.
  pub lookup_host_default :
      (lines : List Bytes) (name : Bytes)
      → prepare_host_lookup name ≢ codes "localhost.localdomain."
      → (read_hosts_file l lines).names (prepare_host_lookup name)
        ≡ (add_lines l (no_maps l) lines).names (prepare_host_lookup name)
  unfolding read_hosts_file
  lookup_host_default lines name other =
      let m = add_lines l (no_maps l) lines in
      let k = prepare_host_lookup name in
      put_other (with_default l m (codes "localhost")).names (codes "localhost.localdomain.") k _
        (not_eq _ _ other)
      ∙ put_other m.names (codes "localhost") k _ (not_eq _ _ (not_localhost name))
