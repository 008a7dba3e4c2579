-- ===== src/Config/Profile/Reload.antt =====
-- The profiles of config/profile.go, printed for the file of the settings and read again.
use nextdns.Prelude.{
  drop_behind, index_byte-append, All, Bytes, List, Option, [], ap, append-nil, append_assoc, false,
  index_byte, none, refl, some, sym, take_front, true, ◌++◌, ◌∙◌, ◌∷◌, ◌≡◌,
}
use nextdns.Config.Storage.RoundTrip.{SetsTo}
use nextdns.Net.{Ip}
use nextdns.Config.Profile.{
  Host, IpNet, Profile, by_mac, by_prefix, insert, match_rule, new_config, no_condition,
  print_condition, print_profile, same_criteria, set_value, strings_of,
}
use nextdns.Config.Storage.Lines.{IsTrimmed, trim_space-IsTrimmed}

-- A profile that is bound to an interface is printed as its id, and so read back with no condition:
-- it then matches every client.
pub print_profile_interface :
    (h : Host) (p : Profile) (source dest : Ip) (mac : Bytes)
    → p.mac ≡ none
    → p.prefix ≡ none
    → index_byte p.id 61 ≡ none
    → (new_config h (print_profile h p) ≡ some (no_condition p.id))
      × (match_rule (no_condition p.id) source dest mac ≡ true)
unfolding new_config print_profile match_rule
print_profile_interface h p source dest mac m n plain = (rw (m, n, plain), refl)

-- What a profile needs to be read back: no interface, an id without white space at its ends, and a
-- condition that the standard library reads as it prints it.
abbrev pub CondReads : Host → Option Bytes → Option IpNet → Bytes → Type 0
CondReads h none none id = index_byte id 61 ≡ none
CondReads h none (some n) id =
    IsTrimmed (h.print_net n)
    × (index_byte (h.print_net n) 61 ≡ none)
    × (h.parse_cidr (h.print_net n) ≡ some n)
CondReads h (some mac) none id =
    IsTrimmed (h.print_mac mac)
    × (index_byte (h.print_mac mac) 61 ≡ none)
    × (h.parse_cidr (h.print_mac mac) ≡ none)
    × (h.parse_mac (h.print_mac mac) ≡ some mac)
CondReads h (some mac) (some n) id = ⊥

pub record IsReadable (h : Host) (p : Profile) : Type 0 where
  pub no_interface : p.dest_ips ≡ []
  pub trimmed : IsTrimmed p.id
  pub condition : CondReads h p.mac p.prefix p.id

parse_at-append :
    (h : Host) (cond id : Bytes)
    → IsTrimmed cond
    → IsTrimmed id
    → index_byte cond 61 ≡ none
    → new_config h (cond ++ 61 ∷ id) ≡ by_prefix h cond id (h.parse_cidr cond)
unfolding new_config
parse_at-append h cond id c i plain = rw (
  index_byte-append cond 61 id plain,
  take_front cond (61 ∷ id),
  drop_behind cond 61 id,
  trim_space-IsTrimmed cond c,
  trim_space-IsTrimmed id i,
)

new_config-print_condition :
    (h : Host) (id : Bytes) (prefix : Option IpNet) (mac : Option Bytes)
    → IsTrimmed id
    → CondReads h mac prefix id
    → new_config h (print_condition h mac prefix id)
      ≡ some (record { id = id; prefix = prefix; mac = mac; dest_ips = [] })
unfolding new_config
new_config-print_condition h id none none i c = rw c
new_config-print_condition h id (some n) none i c =
    parse_at-append h (h.print_net n) id c.0 i c.1 ∙ ap (by_prefix h (h.print_net n) id) c.2
new_config-print_condition h id none (some mac) i c =
    parse_at-append h (h.print_mac mac) id c.0 i c.1
    ∙ ap (by_prefix h (h.print_mac mac) id) c.2
    ∙ ap (by_mac h (h.print_mac mac) id) c.3
new_config-print_condition h id (some n) (some mac) i c = elim c [ ]

pub new_config-print_profile :
    (h : Host) (p : Profile) → IsReadable h p → new_config h (print_profile h p) ≡ some p
unfolding print_profile
new_config-print_profile h p r =
    new_config-print_condition h p.id p.prefix p.mac r.trimmed r.condition
    ∙ ap (λ d. some (record p { dest_ips = d })) (sym r.no_interface)

-- No two profiles have the same criteria.
abbrev pub Misses : Host → Profile → List Profile → Type 0
Misses h p [] = Unit
Misses h p (x ∷ ps) = (same_criteria h p x ≡ false) × Misses h p ps

abbrev pub AllApart : Host → List Profile → List Profile → Type 0
AllApart h qs [] = Unit
AllApart h qs (p ∷ ps) = Misses h p qs × AllApart h (qs ++ p ∷ []) ps

insert-Misses :
    (h : Host) (ps : List Profile) (p : Profile) → Misses h p ps → insert h ps p ≡ ps ++ p ∷ []
unfolding insert
insert-Misses h [] p m = refl
insert-Misses h (x ∷ ps) p m = rw (m.0, insert-Misses h ps p m.1)

-- The printed profiles are set one by one to the same list, behind those that are there.
pub set_value-strings_of :
    (h : Host) (qs ps : List Profile)
    → All (IsReadable h) ps
    → AllApart h qs ps
    → SetsTo (set_value h) qs (strings_of h ps) (qs ++ ps)
unfolding strings_of set_value
set_value-strings_of h qs [] r a = sym (append-nil qs)
set_value-strings_of h qs (p ∷ ps) r a = (
  qs ++ p ∷ [],
  rw (new_config-print_profile h p r.0, insert-Misses h qs p a.0),
  rw (← append_assoc qs (p ∷ []) ps) (set_value-strings_of h (qs ++ p ∷ []) ps r.1 a.1),
)
