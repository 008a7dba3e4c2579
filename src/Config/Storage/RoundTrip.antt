-- ===== src/Config/Storage/RoundTrip.antt =====
-- The settings of host/service/config.go, saved to a file and loaded from it.
use nextdns.Prelude.{
  index_byte-none, All, Bytes, List, Option, [], ap, append-nil, append_assoc, arith, codes, false,
  find-append, has_key, index_byte, lt→ltb, none, put-append, refl, set, some, sym, true, ◌++◌, ◌<◌,
  ◌^◌, ◌∙◌, ◌∷◌, ◌≡◌,
}
use nextdns.Config.Settings.{
  Durations, Listed, Setting, add_string, duration, flag, forwarders, has_string, lines_of,
  print_digits, profiles, set_setting, strings, text, uint,
}
use nextdns.Config.Settings.Numbers.{parse_uint-print_uint, print_digits-All}
use nextdns.Config.Storage.{
  Disk, Settings, load_config, load_lines, opened, print_line, print_lines, print_settings,
  has_long_line, save_config, scan_lines, set_named,
}
use nextdns.Config.Storage.Lines.{
  IsName, IsValue, IsVisible-IsValue, read_line-append, scan_lines-append,
}

-- From `l`, the values set one after the other come to `l'`.
abbrev pub SetsTo {ℓ} : {L : Type ℓ} → (L → Bytes → Option L) → L → List Bytes → L → Type ℓ
SetsTo set l [] l' = l ≡ l'
SetsTo {L} set l (v ∷ vs) l' = (m : L) × (set l v ≡ some m) × SetsTo set m vs l'

-- No value stands twice.
abbrev pub AllNew : List Bytes → List Bytes → Type 0
AllNew ss [] = Unit
AllNew ss (v ∷ vs) = (has_string ss v ≡ false) × AllNew (ss ++ v ∷ []) vs

-- No name stands twice.
abbrev pub AllNamed : {P F : Type 0} → Settings P F → Settings P F → Type 0
AllNamed ds [] = Unit
AllNamed ds ((name, e) ∷ c) =
    IsName name × (has_key ds name ≡ false) × AllNamed (ds ++ (name, e) ∷ []) c

print_line-append :
    (name value rest : Bytes) → print_line name value ++ rest ≡ (name ++ 32 ∷ value) ++ 10 ∷ rest
print_line-append name value rest = simp append_assoc

one_line :
    (name value : Bytes) → IsName name → IsValue value → index_byte (name ++ 32 ∷ value) 10 ≡ none
unfolding index_byte
one_line name value n v =
    index_byte-none name (32 ∷ value) 10 n.value.one_line (ground (arith, v.one_line))

module _ {P F : Type 0} (t : Durations) (ps : Listed P) (fs : Listed F) where
  -- The setting before anything is read: its default, or no elements.
  abbrev pub blank : Setting P F → Setting P F
  blank (text v d) = text d d
  blank (flag v d) = flag d d
  blank (duration v d) = duration d d
  blank (uint v d) = uint d d
  blank (strings ss) = strings []
  blank (profiles p) = profiles ps.empty
  blank (forwarders f) = forwarders fs.empty

  -- What can be kept in a file: ASCII text without line breaks and without white space at its ends,
  -- numbers of 16 bits, strings that differ, and lists whose elements are read back one by one.
  abbrev pub IsStorable : Setting P F → Type 0
  IsStorable (text v d) = IsValue v
  IsStorable (flag v d) = Unit
  IsStorable (duration v d) =
      IsValue (t.print_duration v) × (t.parse_duration (t.print_duration v) ≡ some v)
  IsStorable (uint v d) = v < 2 ^ 16
  IsStorable (strings ss) = All IsValue ss × AllNew [] ss
  IsStorable (profiles p) =
      All IsValue (ps.strings_of p) × SetsTo ps.set_listed ps.empty (ps.strings_of p) p
  IsStorable (forwarders f) =
      All IsValue (fs.strings_of f) × SetsTo fs.set_listed fs.empty (fs.strings_of f) f

  set_setting-strings :
      (ss vs : List Bytes)
      → AllNew ss vs
      → SetsTo (set_setting t ps fs) (strings ss) vs (strings (ss ++ vs))
  unfolding set_setting add_string
  set_setting-strings ss [] h = rw append-nil
  set_setting-strings ss (v ∷ vs) h = (
    strings (ss ++ v ∷ []),
    rw h.0,
    rw (← append_assoc ss (v ∷ []) vs) (set_setting-strings (ss ++ v ∷ []) vs h.1),
  )

  set_setting-profiles :
      (p p' : P) (vs : List Bytes)
      → SetsTo ps.set_listed p vs p'
      → SetsTo (set_setting t ps fs) (profiles p) vs (profiles p')
  unfolding set_setting
  set_setting-profiles p p' [] h = ap profiles h
  set_setting-profiles p p' (v ∷ vs) (m, e, h) = (profiles m, rw e, set_setting-profiles m p' vs h)

  set_setting-forwarders :
      (f f' : F) (vs : List Bytes)
      → SetsTo fs.set_listed f vs f'
      → SetsTo (set_setting t ps fs) (forwarders f) vs (forwarders f')
  unfolding set_setting
  set_setting-forwarders f f' [] h = ap forwarders h
  set_setting-forwarders f f' (v ∷ vs) (m, e, h) =
      (forwarders m, rw e, set_setting-forwarders m f' vs h)

  -- The lines of a setting make it of its blank.
  lines_of-set_setting :
      (e : Setting P F)
      → IsStorable e
      → SetsTo (set_setting t ps fs) (blank e) (lines_of t ps fs e) e
  unfolding lines_of set_setting nextdns.Config.Settings.parse_flag nextdns.Prelude.bytes_eq
      nextdns.Config.Settings.print_flag
  lines_of-set_setting (text v d) h = (text v d, refl, refl)
  lines_of-set_setting (flag true d) h = (flag true d, refl, refl)
  lines_of-set_setting (flag false d) h = (flag false d, refl, refl)
  lines_of-set_setting (duration v d) h = (duration v d, rw h.1, refl)
  lines_of-set_setting (uint v d) h =
      (uint v d, rw (parse_uint-print_uint v (omega (arith, h)), lt→ltb v (2 ^ 16) h), refl)
  lines_of-set_setting (strings ss) h = set_setting-strings [] ss h.1
  lines_of-set_setting (profiles p) h = set_setting-profiles ps.empty p (ps.strings_of p) h.1
  lines_of-set_setting (forwarders f) h = set_setting-forwarders fs.empty f (fs.strings_of f) h.1

  lines_of-IsValue : (e : Setting P F) → IsStorable e → All IsValue (lines_of t ps fs e)
  unfolding lines_of nextdns.Config.Settings.print_flag nextdns.Config.Settings.print_uint
  lines_of-IsValue (text v d) h = (h, tt)
  lines_of-IsValue (flag true d) h = (IsVisible-IsValue (codes "true") (omega arith), tt)
  lines_of-IsValue (flag false d) h = (IsVisible-IsValue (codes "false") (omega arith), tt)
  lines_of-IsValue (duration v d) h = (h.0, tt)
  lines_of-IsValue (uint v d) h =
      (IsVisible-IsValue (print_digits 20 v) (print_digits-All 20 v), tt)
  lines_of-IsValue (strings ss) h = h.0
  lines_of-IsValue (profiles p) h = h.0
  lines_of-IsValue (forwarders f) h = h.0

  -- The lines of one setting, read at its place among the others.
  load_text-print_lines :
      (ds rest : Settings P F) (name more : Bytes) (vs : List Bytes) (e e' : Setting P F)
      → IsName name
      → has_key ds name ≡ false
      → All IsValue vs
      → SetsTo (set_setting t ps fs) e vs e'
      → load_lines t ps fs (ds ++ (name, e) ∷ rest) (scan_lines [] (print_lines name vs more))
        ≡ load_lines t ps fs (ds ++ (name, e') ∷ rest) (scan_lines [] more)
  unfolding load_lines set_named
  load_text-print_lines ds rest name more [] e e' n free v s = rw s
  load_text-print_lines ds rest name more (w ∷ vs) e e' n free v (m, q, s) =
      rw
        (
          print_line-append name w (print_lines name vs more),
          scan_lines-append [] (name ++ 32 ∷ w) (print_lines name vs more) (one_line name w n v.0),
          read_line-append t name w n v.0,
          find-append ds name e rest free,
          q,
          put-append ds name e m rest free,
        )
        (load_text-print_lines ds rest name more vs m e' n free v.1 s)

  abbrev pub blanks : Settings P F → Settings P F
  blanks [] = []
  blanks ((name, e) ∷ c) = (name, blank e) ∷ blanks c

  load_text-print_settings :
      (ds c : Settings P F)
      → AllNamed ds c
      → All (λ (name, e). IsStorable e) c
      → load_lines t ps fs (ds ++ blanks c) (scan_lines [] (print_settings t ps fs c))
        ≡ some (ds ++ c)
  unfolding load_lines print_settings scan_lines
  load_text-print_settings ds [] n s = refl
  load_text-print_settings ds ((name, e) ∷ c) n s =
      load_text-print_lines ds (blanks c) name (print_settings t ps fs c) (lines_of t ps fs e)
        (blank e) e n.0 n.1 (lines_of-IsValue e s.0) (lines_of-set_setting e s.0)
      ∙ ap (λ l. load_lines t ps fs l (scan_lines [] (print_settings t ps fs c)))
          (sym (append_assoc ds ((name, e) ∷ []) (blanks c)))
      ∙ load_text-print_settings (ds ++ (name, e) ∷ []) c n.2 s.1
      ∙ ap some (append_assoc ds ((name, e) ∷ []) c)

  -- Settings with different names, each of which can be kept in a file, are loaded from the file
  -- that they were saved to: the defaults and empty lists become what was saved.
  pub load_config-save_config :
      (d : Disk) (c : Settings P F) {file : Bytes}
      → AllNamed [] c
      → All (λ (name, e). IsStorable e) c
      → save_config t ps fs d c ≡ some file
      → has_long_line (scan_lines [] file) ≡ false
      → load_config t ps fs (blanks c) (opened file false) ≡ some c
  unfolding save_config load_config
  load_config-save_config d c {file} n s h short =
      let same : print_settings t ps fs c ≡ file = ground (arith, h) in
      let short' = rw (← same) at short in rw (← same, short', load_text-print_settings [] c n s)
