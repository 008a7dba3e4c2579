-- ===== src/Host/ResolvConf/Restore.antt =====
-- What `SetDNS` and `ResetDNS` of host/dns_linux.go do to the file of the user.
use nextdns.Prelude.{
  Option-cases, Bool, Bool-cases, Bytes, List, Option, [], false, if◌then◌else◌, inl, inr, none,
  not, refl, some, true, ◌∙◌, ◌∷◌, ◌≡◌, ◌⊎◌,
}
use nextdns.Host.ResolvConf.{
  Done, Faults, File, Files, Folder, and_then, back_up, disable_network_manager, folder, new_lines,
  no_folder, not_a_folder, rename_resolv, rename_tmp, reset_dns, restore_manager_file,
  restore_network_manager, set_dns, setup_resolv_conf, stat_fails, write_temp, write_temp_from,
}

-- The user's file is in its place, or it is the backup.
abbrev pub IsKept : File → Files → Type 0
IsKept lines f = ((f.backup ≡ none) × (f.resolv ≡ some lines)) ⊎ (f.backup ≡ some lines)

-- The calls of `SetDNS`, each with its faults.
unfoldable pub set_all : List (Faults × Folder × Bytes) → Files → Files
set_all [] f = f
set_all ((x, d, dns) ∷ calls) f = set_all calls (set_dns x d dns f).0

and_then-IsKept :
    (lines : File) (r : Done) (next : Files → Done)
    → IsKept lines r.0
    → ((g : Files) → IsKept lines g → IsKept lines (next g).0)
    → IsKept lines (and_then r next).0
and_then-IsKept lines (f, true) next h k = k f h
and_then-IsKept lines (f, false) next h k = h

-- Only the file that is written first is altered.
write_temp_same :
    (x : Faults) (dns : Bytes) (f : Files)
    → ((write_temp x dns f).0.backup ≡ f.backup) × ((write_temp x dns f).0.resolv ≡ f.resolv)
unfolding write_temp
write_temp_same x dns f = from f.resolv
  where
    Same : Done → Type 0
    Same r = (r.0.backup ≡ f.backup) × (r.0.resolv ≡ f.resolv)

    made :
        (b : Bool) (ls : File)
        → Same (
            if b
            then (record f { tmp = none }, false)
            else (record f { tmp = some (new_lines dns ls) }, not x.scan_breaks))
    made true ls = (refl, refl)
    made false ls = (refl, refl)

    from : (o : Option File) → Same (write_temp_from x dns f o)
    from none = (refl, refl)
    from (some ls) = made x.no_tmp ls

rename_tmp_backup :
    (x : Faults) (f : Files) (o : Option File) → (rename_tmp x f o).0.backup ≡ f.backup
rename_tmp_backup x f none = refl
rename_tmp_backup x f (some ls) = elim (Bool-cases x.tmp_stays) [ inl e ↦ rw e | inr e ↦ rw e ]

-- The new file comes into place only once the backup is there.
rename_resolv-IsKept :
    (lines : File) (x : Faults) (f : Files) (o : Option File)
    → f.backup ≡ none
    → f.resolv ≡ o
    → f.resolv ≡ some lines
    → IsKept lines (and_then (rename_resolv x f o) (λ h. rename_tmp x h h.tmp)).0
rename_resolv-IsKept lines x f none n r user = absurd (cc (r, user))
rename_resolv-IsKept lines x f (some ls) n r user = renamed x.resolv_stays
  where
    renamed :
        (b : Bool)
        → IsKept lines
            (and_then
              (if b then (f, false) else (record f { resolv = none; backup = some ls }, true))
              (λ h. rename_tmp x h h.tmp)).0
    renamed true = inl (n, user)
    renamed false =
        inr
          (rename_tmp_backup x (record f { resolv = none; backup = some ls }) f.tmp ∙ cc (r, user))

back_up-IsKept :
    (lines : File) (x : Faults) (f : Files) (o : Option File)
    → f.backup ≡ o
    → IsKept lines f
    → IsKept lines (and_then (back_up x f o) (λ h. rename_tmp x h h.tmp)).0
back_up-IsKept lines x f none e (inl (n, user)) =
    rename_resolv-IsKept lines x f f.resolv n refl user
back_up-IsKept lines x f (some ls) e (inl (n, user)) = absurd (cc (e, n))
back_up-IsKept lines x f none e (inr kept) = absurd (cc (e, kept))
back_up-IsKept lines x f (some ls) e (inr kept) = inr (rename_tmp_backup x f f.tmp ∙ kept)

disable_network_manager-IsKept :
    (lines : File) (x : Faults) (d : Folder) (f : Files)
    → IsKept lines f
    → IsKept lines (disable_network_manager x d f).0
unfolding disable_network_manager
disable_network_manager-IsKept lines x no_folder f h = h
disable_network_manager-IsKept lines x stat_fails f h = h
disable_network_manager-IsKept lines x not_a_folder f h = h
disable_network_manager-IsKept lines x folder f h = elim (Option-cases x.manager_written) [
  | inl e ↦ rw e h
  | inr (left, e) ↦ rw e h
]

moved_IsKept :
    (lines : File) (f g : Files)
    → g.backup ≡ f.backup
    → g.resolv ≡ f.resolv
    → IsKept lines f
    → IsKept lines g
moved_IsKept lines f g b r (inl (n, user)) = inl (b ∙ n, r ∙ user)
moved_IsKept lines f g b r (inr kept) = inr (b ∙ kept)

set_dns-IsKept :
    (lines : File) (x : Faults) (d : Folder) (dns : Bytes) (f : Files)
    → IsKept lines f
    → IsKept lines (set_dns x d dns f).0
unfolding set_dns setup_resolv_conf
set_dns-IsKept lines x d dns f h =
    and_then-IsKept lines (setup_resolv_conf x dns f) (disable_network_manager x d)
      (set x.backup_unknown) (λ g k. disable_network_manager-IsKept lines x d g k)
  where
    written :
        (r : Done)
        → r.0.backup ≡ f.backup
        → r.0.resolv ≡ f.resolv
        → IsKept lines
            (and_then r (λ g. and_then (back_up x g f.backup) (λ h. rename_tmp x h h.tmp))).0
    written (g, true) b r = back_up-IsKept lines x g f.backup b (moved_IsKept lines f g b r h)
    written (g, false) b r = moved_IsKept lines f g b r h

    set :
        (b : Bool)
        → IsKept lines
            (if b
              then (f, false)
              else and_then
                  (write_temp x dns f)
                  (λ g. and_then (back_up x g f.backup) (λ h. rename_tmp x h h.tmp))).0
    set true = h
    set false = let (b, r) = write_temp_same x dns f in written (write_temp x dns f) b r

pub set_all-IsKept :
    (calls : List (Faults × Folder × Bytes)) (lines : File) (f : Files)
    → IsKept lines f
    → IsKept lines (set_all calls f)
unfolding set_all
set_all-IsKept [] lines f h = h
set_all-IsKept ((x, d, dns) ∷ calls) lines f h =
    set_all-IsKept calls lines (set_dns x d dns f).0 (set_dns-IsKept lines x d dns f h)

reset_dns-IsKept :
    (lines : File) (x : Faults) (f : Files)
    → IsKept lines f
    → (reset_dns x f).1 ≡ true
    → ((reset_dns x f).0.resolv ≡ some lines) × ((reset_dns x f).0.backup ≡ none)
unfolding reset_dns restore_network_manager
reset_dns-IsKept lines x f (inl (none_yet, user)) ok = rw none_yet (user, refl)
reset_dns-IsKept lines x f (inr kept) ok = elim (Bool-cases x.backup_stays) [
  | inl e ↦ absurd (cc (rw (kept, e) at ok))
  | inr e ↦ rw (kept, e) (from f.network_manager)
]
  where
    from :
        (o : Option File)
        → ((restore_manager_file x (record f { resolv = some lines; backup = none }) o).0.resolv
            ≡ some lines)
          × ((restore_manager_file x (record f { resolv = some lines; backup = none }) o).0.backup
              ≡ none)
    from none = (refl, refl)
    from (some ls) = elim (Bool-cases x.manager_stays) [
      | inl e ↦ rw e (refl, refl)
      | inr e ↦ rw e (refl, refl)
    ]

-- Start with the user's `resolv.conf` in its place and no backup. However many calls of `SetDNS`
-- follow, and whichever of their steps fail, the next `ResetDNS` that succeeds puts the user's file
-- back, and leaves no backup.
pub reset_dns-set_all :
    (calls : List (Faults × Folder × Bytes)) (lines : File) (x : Faults) (f : Files)
    → f.backup ≡ none
    → f.resolv ≡ some lines
    → (reset_dns x (set_all calls f)).1 ≡ true
    → ((reset_dns x (set_all calls f)).0.resolv ≡ some lines)
      × ((reset_dns x (set_all calls f)).0.backup ≡ none)
reset_dns-set_all calls lines x f none_yet user ok =
    reset_dns-IsKept lines x (set_all calls f) (set_all-IsKept calls lines f (inl (none_yet, user)))
      ok
