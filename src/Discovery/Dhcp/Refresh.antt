-- ===== src/Discovery/Dhcp/Refresh.antt =====
-- How often the lease file of discovery/dhcp.go is read, and what a refresh leaves.
use nextdns.Prelude.{
  Bool, Bool-cases, Bytes, List, Option, ap, arith, false, if◌then◌else◌, inl, inr, ltb, none, refl,
  some, sym, true, ℕ, ◌*◌, ◌+◌, ◌<◌, ◌^◌, ◌≡◌, ◌≤◌, ◌⊎◌,
}
use mathlib.Core.Path.{ap, subst}
use nextdns.Discovery.Hosts.{FileView, info_equal}
use nextdns.Discovery.Dhcp.{
  Dhcp, Format, read_format, read_found_lease, read_lease, read_lease_lines, refresh_leases,
}

-- Within five seconds of a refresh_leases the table is not read again. A refresh that is due moves the time
-- forward; the table then stays, or is what the lines of the file say where they were read whole.
pub refresh_leases_lem :
    (r : Dhcp) (now : ℕ) (found : Option (FileView × Format))
    → (now < r.expires → refresh_leases r now found ≡ r)
      × (r.expires ≤ now
          → ((refresh_leases r now found).expires ≡ now + 5 * 10 ^ 9)
            × (((refresh_leases r now found).leases ≡ r.leases)
                ⊎ ((f : FileView) × (format : Format) × (lines : List Bytes) × (found
                      ≡ some (f, format))
                    × (f.lines ≡ some (lines, false))
                    × (info_equal r.file_info f ≡ false)
                    × ((refresh_leases r now found).leases ≡ read_format format lines))))
unfolding refresh_leases read_lease
refresh_leases_lem r now found = (
  λ lt.
      let early : ltb now r.expires ≡ true = ground arith in
      ap (λ b. if b then r else read_found_lease due found) early,
  λ le.
      let late : ltb now r.expires ≡ false = ground arith in
      let e : refresh_leases r now found ≡ read_found_lease due found =
        ap (λ b. if b then r else read_found_lease due found) late in
      subst (Outcome found) (sym e) (read found),
)
  where
    due : Dhcp
    due = record r { expires = now + 5 * 10 ^ 9 }

    Outcome : Option (FileView × Format) → Dhcp → Type 0
    Outcome o d =
        (d.expires ≡ now + 5 * 10 ^ 9)
        × ((d.leases ≡ r.leases)
            ⊎ ((f : FileView) × (format : Format) × (lines : List Bytes) × (o ≡ some (f, format))
                × (f.lines ≡ some (lines, false))
                × (info_equal r.file_info f ≡ false)
                × (d.leases ≡ read_format format lines)))

    of_lines :
        (f : FileView) (format : Format) (ls : Option (List Bytes × Bool))
        → f.lines ≡ ls
        → info_equal r.file_info f ≡ false
        → Outcome (some (f, format)) (read_lease_lines due format f ls)
    of_lines f format none e ne = (refl, inl refl)
    of_lines f format (some (lines, true)) e ne = (refl, inl refl)
    of_lines f format (some (lines, false)) e ne = (refl, inr (f, format, lines, refl, e, ne, refl))

    read : (o : Option (FileView × Format)) → Outcome o (read_found_lease due o)
    read none = (refl, inl refl)
    read (some (f, format)) = elim (Bool-cases (info_equal r.file_info f)) [
      | inl same ↦
          subst (Outcome (some (f, format)))
            (ap (λ b. if b then due else read_lease_lines due format f f.lines) (sym same))
            (refl, inl refl)
      | inr differs ↦
          subst (Outcome (some (f, format)))
            (ap (λ b. if b then due else read_lease_lines due format f f.lines) (sym differs))
            (of_lines f format f.lines refl differs)
    ]
