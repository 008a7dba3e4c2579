-- ===== src/Config/Flags/Reload.antt =====
-- The settings of config/config.go, saved and loaded.
use nextdns.Prelude.{
  All, List, Option, ltb, ◌<◌, ◌^◌, Bool, Bytes, [], arith, bytes_eq, false, has_key, leb, not,
  refl, some, true, ◌&&◌, ◌++◌, ◌==◌, ◌∷◌, ◌≡◌,
}
use nextdns.Config.Settings.{
  Durations, Setting, text, flag, duration, uint, strings, profiles, forwarders,
}
use nextdns.Config.Profile.{Host, Profile}
use nextdns.Config.Profile as Profiles
use nextdns.Config.Profile.Reload as ProfileReload
use nextdns.Config.Forwarder
use nextdns.Config.Forwarder.Reload as ForwarderReload
use nextdns.Config.Storage.{
  Disk, Settings, has_long_line, load_config, opened, save_config, scan_lines,
}
use nextdns.Config.Storage.Lines.{IsName, IsValue, IsVisible, IsVisible-IsName}
use nextdns.Config.Storage.RoundTrip.{AllNamed, AllNew, IsStorable, load_config-save_config}
use nextdns.Config.Flags.{Config, default_config, flag_set, listed_forwarders, listed_profiles}

-- A test for different names without blanks, and what its success says.
abbrev are_inked : Bytes → Bool
are_inked [] = true
are_inked (c ∷ s) = (leb 33 c && ltb c 128) && are_inked s

abbrev is_word : Bytes → Bool
is_word [] = false
is_word (c ∷ s) = not (c == 35) && ((leb 33 c && ltb c 128) && are_inked s)

abbrev are_named : {P F : Type 0} → Settings P F → Settings P F → Bool
are_named ds [] = true
are_named ds ((name, e) ∷ c) =
    is_word name && (not (has_key ds name) && are_named (ds ++ (name, e) ∷ []) c)

are_inked-IsVisible : (s : Bytes) → are_inked s ≡ true → IsVisible s
are_inked-IsVisible [] h = tt
are_inked-IsVisible (c ∷ s) h =
    ((ground (arith, h), ground (arith, h)), are_inked-IsVisible s (ground (arith, h)))

is_word-IsName : (s : Bytes) → is_word s ≡ true → IsName s
is_word-IsName [] h = cc
is_word-IsName (c ∷ s) h =
    IsVisible-IsName (c ∷ s) (are_inked-IsVisible (c ∷ s) (ground (arith, h))) (ground (arith, h))

are_named-AllNamed : {P F : Type 0} (ds c : Settings P F) → are_named ds c ≡ true → AllNamed ds c
are_named-AllNamed ds [] h = tt
are_named-AllNamed ds ((name, e) ∷ c) h = (
  is_word-IsName name (ground (arith, h)),
  ground (arith, h),
  are_named-AllNamed (ds ++ (name, e) ∷ []) c (ground (arith, h)),
)

-- The names of the settings are words, and differ.
flag_set-AllNamed : {P F : Type 0} (c : Config P F) → AllNamed [] (flag_set c)
unfolding has_key bytes_eq
flag_set-AllNamed c = are_named-AllNamed [] (flag_set c) refl

module _ {A : Type 0} (t : Durations) (h : Host) (new : Bytes → Option A) where
  -- What can be kept in a file, of each kind of setting: profiles that are printed as they were given,
  -- with different criteria, and forwarders whose servers are made of their addresses, with different
  -- domains.
  abbrev pub IsKept : Setting (List Profile) (List (Forwarder.Resolver A)) → Type 0
  IsKept (profiles p) =
      All IsValue (Profiles.strings_of h p)
      × All (ProfileReload.IsReadable h) p
      × ProfileReload.AllApart h [] p
  IsKept (forwarders f) =
      All IsValue (Forwarder.strings_of f)
      × All (ForwarderReload.IsReadable new) f
      × ForwarderReload.AllApart new [] f
  IsKept (text v d) = IsValue v
  IsKept (flag v d) = Unit
  IsKept (duration v d) =
      IsValue (t.print_duration v) × (t.parse_duration (t.print_duration v) ≡ some v)
  IsKept (uint v d) = v < 2 ^ 16
  IsKept (strings ss) = All IsValue ss × AllNew [] ss

  IsKept-IsStorable :
      (e : Setting (List Profile) (List (Forwarder.Resolver A)))
      → IsKept e
      → IsStorable t (listed_profiles h) (listed_forwarders new) e
  IsKept-IsStorable (profiles p) k = (k.0, ProfileReload.set_value-strings_of h [] p k.1 k.2)
  IsKept-IsStorable (forwarders f) k = (k.0, ForwarderReload.set_value-strings_of new [] f k.1 k.2)
  IsKept-IsStorable (text v d) k = k
  IsKept-IsStorable (flag v d) k = k
  IsKept-IsStorable (duration v d) k = k
  IsKept-IsStorable (uint v d) k = k
  IsKept-IsStorable (strings ss) k = k

  AllKept-AllStorable :
      (c : Settings (List Profile) (List (Forwarder.Resolver A)))
      → All (λ (name, e). IsKept e) c
      → All (λ (name, e). IsStorable t (listed_profiles h) (listed_forwarders new) e) c
  AllKept-AllStorable [] k = tt
  AllKept-AllStorable ((name, e) ∷ c) k = (IsKept-IsStorable e k.0, AllKept-AllStorable c k.1)

  -- A configuration whose settings can be kept in a file, none of whose lines has 64 KiB, is loaded
  -- from the file that it was saved to, starting from the defaults of the program.
  pub config_reload :
      (d : Disk) (c : Config (List Profile) (List (Forwarder.Resolver A))) {file : Bytes}
      → All (λ (name, e). IsKept e) (flag_set c)
      → save_config t (listed_profiles h) (listed_forwarders new) d (flag_set c) ≡ some file
      → has_long_line (scan_lines [] file) ≡ false
      → load_config t
          (listed_profiles h)
          (listed_forwarders new)
          (flag_set (default_config [] []))
          (opened file false)
        ≡ some (flag_set c)
  config_reload d c k saved short =
      load_config-save_config t (listed_profiles h) (listed_forwarders new) d (flag_set c)
        (flag_set-AllNamed c) (AllKept-AllStorable (flag_set c) k) saved short
