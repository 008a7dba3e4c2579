-- ===== src/Netstatus/Unchanged.antt =====
-- When netstatus/netstatus.go sees no change.
use nextdns.Prelude.{
  ==_iff, All, Bool, Bool-cases, Bytes, List, Option-cases, [], ap, arith, bytes_eq, bytes_eq_iff,
  bytes_eq_refl, false, if◌then◌else◌, inl, inr, length, none, refl, true, ℕ, ◌==◌, ◌↔◌, ◌∙◌, ◌∷◌,
  ◌≡◌, ◌≢◌, ◌⊎◌,
}
use mathlib.Core.Path.{subst}
use nextdns.Netstatus.{
  Addresses, Change, Interface, added, address_added, address_removed, diff_addrs, diff_flags,
  diff_sorted, first_missing, flags_changed, goes_down, goes_up, has_addr, or_next, removed,
  string_lt, unchanged,
}

-- The addresses of the one list are all in the other.
abbrev pub IsWithin : List Bytes → List Bytes → Type 0
IsWithin xs ys = All (λ a. has_addr ys a ≡ true) xs

-- The same interfaces with the same flags; no address that the old list's is asked for is gone, and
-- none is new where their number differs.
abbrev pub SameInterfaces : Addresses → List Interface → List Interface → Type 0
SameInterfaces a [] [] = Unit
SameInterfaces a [] (n ∷ ns) = ⊥
SameInterfaces a (o ∷ os) [] = ⊥
SameInterfaces a (o ∷ os) (n ∷ ns) =
    (o.name ≡ n.name)
    × (o.flags ≡ n.flags)
    × IsWithin (a.of_old o.index) (a.of_new n.index)
    × ((length (a.of_old o.index) ≡ length (a.of_new n.index))
        ⊎ IsWithin (a.of_new n.index) (a.of_old o.index))
    × SameInterfaces a os ns

first_missing_iff : (xs ys : List Bytes) → (first_missing xs ys ≡ none) ↔ IsWithin xs ys
unfolding first_missing
first_missing_iff [] ys = (λ e. tt, λ h. refl)
first_missing_iff (x ∷ xs) ys =
    let rest = first_missing_iff xs ys in
    (
      λ h. elim (Bool-cases (has_addr ys x)) [
        | inl e ↦ (e, rest.0 (rw e at h))
        | inr e ↦ absurd (cc (rw e at h))
      ],
      λ (e, h). rw e (rest.1 h),
    )

diff_addrs_iff :
    (name : Bytes) (old new : List Bytes)
    → (diff_addrs name old new ≡ unchanged)
      ↔ (IsWithin old new × ((length old ≡ length new) ⊎ IsWithin new old))
unfolding diff_addrs
diff_addrs_iff name old new = (from, to)
  where
    from :
        diff_addrs name old new ≡ unchanged
        → IsWithin old new × ((length old ≡ length new) ⊎ IsWithin new old)
    from h = elim (Option-cases (first_missing old new)) [
      | inr (a, e) ↦ absurd (cc (rw e at h))
      | inl e ↦ elim (Bool-cases (length old == length new)) [
        | inl same ↦ ((first_missing_iff old new).0 e, inl (ground (arith, same)))
        | inr differ ↦ elim (Option-cases (first_missing new old)) [
          | inl e' ↦ ((first_missing_iff old new).0 e, inr ((first_missing_iff new old).0 e'))
          | inr (a, e') ↦ absurd (cc (rw (e, differ, e') at h))
        ]
      ]
    ]

    to :
        IsWithin old new × ((length old ≡ length new) ⊎ IsWithin new old)
        → diff_addrs name old new ≡ unchanged
    to (h, inl same) =
        let yes_same : (length old == length new) ≡ true = ground arith in
        rw ((first_missing_iff old new).1 h, yes_same)
    to (h, inr back) = elim (Bool-cases (length old == length new)) [
      | inl e ↦ rw ((first_missing_iff old new).1 h, e)
      | inr e ↦ rw ((first_missing_iff old new).1 h, e, (first_missing_iff new old).1 back)
    ]

diff_flags_ne : (name : Bytes) (old new : ℕ) → diff_flags name old new ≢ unchanged
diff_flags_ne name old new h = ground (arith, h)

or_next_iff :
    (c rest : Change) → (or_next c rest ≡ unchanged) ↔ ((c ≡ unchanged) × (rest ≡ unchanged))
or_next_iff unchanged rest = (λ h. (refl, h), λ h. h.1)
or_next_iff (added a) rest = (λ h. cc, λ h. absurd (cc (h.0)))
or_next_iff (removed a) rest = (λ h. cc, λ h. absurd (cc (h.0)))
or_next_iff (goes_down a) rest = (λ h. cc, λ h. absurd (cc (h.0)))
or_next_iff (goes_up a) rest = (λ h. cc, λ h. absurd (cc (h.0)))
or_next_iff (flags_changed a x y) rest = (λ h. cc, λ h. absurd (cc (h.0)))
or_next_iff (address_added a x) rest = (λ h. cc, λ h. absurd (cc (h.0)))
or_next_iff (address_removed a x) rest = (λ h. cc, λ h. absurd (cc (h.0)))

pair_iff :
    (a : Addresses) (o n : Interface) (os ns : List Interface)
    → ((diff_sorted a os ns ≡ unchanged) ↔ SameInterfaces a os ns)
    → (diff_sorted a (o ∷ os) (n ∷ ns) ≡ unchanged) ↔ SameInterfaces a (o ∷ os) (n ∷ ns)
unfolding diff_sorted
pair_iff a o n os ns rest = (from, to)
  where
    renamed : (b : Bool) → (if b then removed o.name else added n.name) ≢ unchanged
    renamed true h = cc
    renamed false h = cc

    from : diff_sorted a (o ∷ os) (n ∷ ns) ≡ unchanged → SameInterfaces a (o ∷ os) (n ∷ ns)
    from h = elim (Bool-cases (bytes_eq o.name n.name)) [
      | inr e ↦ absurd (renamed (string_lt o.name n.name) (rw e at h))
      | inl e ↦ elim (Bool-cases (o.flags == n.flags)) [
        | inr f ↦ absurd (diff_flags_ne n.name o.flags n.flags (rw (e, f) at h))
        | inl f ↦
            let (c, r) =
              (or_next_iff (diff_addrs n.name (a.of_old o.index) (a.of_new n.index))
                  (diff_sorted a os ns)).0
                (rw (e, f) at h) in
            let (within, back) =
              (diff_addrs_iff n.name (a.of_old o.index) (a.of_new n.index)).0 c in
            ((bytes_eq_iff o.name n.name).0 e, (==_iff o.flags n.flags).0 f, within, back, rest.0 r)
      ]
    ]

    to : SameInterfaces a (o ∷ os) (n ∷ ns) → diff_sorted a (o ∷ os) (n ∷ ns) ≡ unchanged
    to (name, flags, within, back, more_same) =
        rw ((bytes_eq_iff o.name n.name).1 name, (==_iff o.flags n.flags).1 flags)
          ((or_next_iff (diff_addrs n.name (a.of_old o.index) (a.of_new n.index))
              (diff_sorted a os ns)).1
            (
              (diff_addrs_iff n.name (a.of_old o.index) (a.of_new n.index)).1 (within, back),
              rest.1 more_same,
            ))

sorted_iff :
    (a : Addresses) (os ns : List Interface)
    → (diff_sorted a os ns ≡ unchanged) ↔ SameInterfaces a os ns
unfolding diff_sorted
sorted_iff a [] [] = (λ e. tt, λ h. refl)
sorted_iff a [] (n ∷ ns) = (λ e. absurd (cc e), λ h. absurd h)
sorted_iff a (o ∷ os) [] = (λ e. absurd (cc e), λ h. absurd h)
sorted_iff a (o ∷ os) (n ∷ ns) = pair_iff a o n os ns (sorted_iff a os ns)

-- The same names, flags and indices, in order.
abbrev pub SameFlags : List Interface → List Interface → Type 0
SameFlags [] [] = Unit
SameFlags [] (n ∷ ns) = ⊥
SameFlags (o ∷ os) [] = ⊥
SameFlags (o ∷ os) (n ∷ ns) =
    (o.name ≡ n.name) × (o.flags ≡ n.flags) × (o.index ≡ n.index) × SameFlags os ns

IsWithin-cons : (xs ys : List Bytes) (y : Bytes) → IsWithin xs ys → IsWithin xs (y ∷ ys)
IsWithin-cons [] ys y h = tt
IsWithin-cons (x ∷ xs) ys y (e, h) = (ground (arith, e), IsWithin-cons xs ys y h)

IsWithin-refl : (xs : List Bytes) → IsWithin xs xs
IsWithin-refl [] = tt
IsWithin-refl (x ∷ xs) = (ground (arith, bytes_eq_refl x), IsWithin-cons xs xs x (IsWithin-refl xs))

SameFlags-SameInterfaces :
    (a : Addresses) (os ns : List Interface)
    → ((i : ℕ) → a.of_old i ≡ a.of_new i)
    → SameFlags os ns
    → SameInterfaces a os ns
SameFlags-SameInterfaces a [] [] same h = tt
SameFlags-SameInterfaces a [] (n ∷ ns) same h = h
SameFlags-SameInterfaces a (o ∷ os) [] same h = h
SameFlags-SameInterfaces a (o ∷ os) (n ∷ ns) same (name, flags, index, h) =
    let e : a.of_old o.index ≡ a.of_new n.index = same o.index ∙ ap a.of_new index in
    (
      name,
      flags,
      subst (IsWithin (a.of_old o.index)) e (IsWithin-refl (a.of_old o.index)),
      inl (ap length e),
      SameFlags-SameInterfaces a os ns same h,
    )

-- Two sorted lists of interfaces show no change exactly where they have the same names and flags in
-- order, no address is gone, and none is new or the number of addresses is the same. Both lists are
-- asked for their addresses at the comparison: unless an address changes between these two calls, the
-- same names, flags and indices show no change, whatever addresses came or went since the last check.
pub diff_sorted_iff :
    (a : Addresses) (os ns : List Interface)
    → ((diff_sorted a os ns ≡ unchanged) ↔ SameInterfaces a os ns)
      × (((i : ℕ) → a.of_old i ≡ a.of_new i) → SameFlags os ns → diff_sorted a os ns ≡ unchanged)
diff_sorted_iff a os ns =
    (sorted_iff a os ns, λ same h. (sorted_iff a os ns).1 (SameFlags-SameInterfaces a os ns same h))
