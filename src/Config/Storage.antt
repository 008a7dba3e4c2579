-- ===== src/Config/Storage.antt =====
-- host/service/config.go: the file of the settings. Whether directories and files can be opened is
-- an input; the order of the settings is that of one iteration over the map.
pub mod Lines
pub mod RoundTrip
use nextdns.Prelude.{
  length, leb, ltb, true, false, ◌&&◌, ◌||◌, Bool, Bytes, List, Option, [], drop, find,
  if◌then◌else◌, index_byte, none, put, some, suc, take, trim_space, ℕ, ◌++◌, ◌==◌, ◌>>=◌, ◌∷◌,
}
use nextdns.Config.Settings.{Durations, Listed, Setting, lines_of, set_setting}

-- `os.Stat` of the directory, `os.MkdirAll`, and `os.OpenFile`
pub data Directory : Type 0 where
  is_missing stat_fails is_file is_directory : Directory

pub record Disk : Type 0 where
  pub directory : Directory
  pub makes_directory : Bool
  pub opens : Bool

-- What `os.Open` brings to a reader; the flag is an error of reading the file.
pub data Opened : Type 0 where
  not_there open_fails : Opened
  opened : Bytes → Bool → Opened

-- The settings by their names
abbrev pub Settings : Type 0 → Type 0 → Type 0
Settings P F = List (Bytes × Setting P F)

-- `bufio.ScanLines`; a carriage return at the end of a line is white space, which `TrimSpace` takes.
unfoldable pub scan_lines : Bytes → Bytes → List Bytes
scan_lines [] [] = []
scan_lines (c ∷ word) [] = (c ∷ word) ∷ []
scan_lines word (c ∷ s) =
    let rest = scan_lines [] s in
    let longer = scan_lines (word ++ c ∷ []) s in if c == 10 then word ∷ rest else longer

abbrev pub print_line : Bytes → Bytes → Bytes
print_line name value = name ++ 32 ∷ (value ++ 10 ∷ [])

abbrev pub print_lines : Bytes → List Bytes → Bytes → Bytes
print_lines name [] rest = rest
print_lines name (v ∷ vs) rest = print_line name v ++ print_lines name vs rest

-- `strings.TrimSpace`: the white space of ASCII, and that of Unicode where there may be some.
abbrev pub is_ascii : Bytes → Bool
is_ascii [] = true
is_ascii (c ∷ s) = ltb c 128 && is_ascii s

abbrev pub trim_text : Durations → Bytes → Bytes
trim_text t s = if is_ascii s then trim_space s else t.trim_unicode s

-- The scanner fails on a line of 64 KiB or more.
abbrev pub has_long_line : List Bytes → Bool
has_long_line [] = false
has_long_line (line ∷ lines) = leb 65536 (length line) || has_long_line lines

-- A line as `LoadConfig` reads it: its name and its value, or none for an empty line or a comment.
abbrev pub split_line : Durations → Bytes → Option ℕ → Bytes × Bytes
split_line t line none = (line, [])
split_line t line (some i) = (take i line, trim_text t (drop (suc i) line))

abbrev pub read_trimmed : Durations → Bytes → Option (Bytes × Bytes)
read_trimmed t [] = none
read_trimmed t (c ∷ line) =
    if c == 35 then none else some (split_line t (c ∷ line) (index_byte (c ∷ line) 32))

unfoldable pub read_line : Durations → Bytes → Option (Bytes × Bytes)
read_line t s = read_trimmed t (trim_text t s)

module _ {P F : Type 0} (t : Durations) (ps : Listed P) (fs : Listed F) where
  -- The text of the file, `SaveConfig` and `Config.Write`.
  unfoldable pub print_settings : Settings P F → Bytes
  print_settings [] = []
  print_settings ((name, e) ∷ c) = print_lines name (lines_of t ps fs e) (print_settings c)

  abbrev pub write_file : Disk → Settings P F → Option Bytes
  write_file d c = if d.opens then some (print_settings c) else none

  -- `SaveConfig`; `none` is an error.
  unfoldable pub save_config : Disk → Settings P F → Option Bytes
  save_config d c = elim d.directory [
    | is_missing ↦ if d.makes_directory then write_file d c else none
    | stat_fails ↦ none
    | is_file ↦ none
    | is_directory ↦ write_file d c
  ]

  -- One value that is read; a name that is not known is ignored.
  abbrev pub set_found : Settings P F → Bytes → Bytes → Option (Setting P F) → Option (Settings P F)
  set_found c name value none = some c
  set_found c name value (some e) = do e' ← set_setting t ps fs e value; some (put c name e')

  unfoldable pub set_named : Settings P F → Bytes → Bytes → Option (Settings P F)
  set_named c name value = set_found c name value (find c name)

  abbrev pub load_pair : Settings P F → Option (Bytes × Bytes) → Option (Settings P F)
  load_pair c none = some c
  load_pair c (some (name, value)) = set_named c name value

  -- The loop over the lines, which stops at the first error.
  unfoldable pub load_lines : Settings P F → List Bytes → Option (Settings P F)
  load_lines c [] = some c
  load_lines c (line ∷ lines) = do c' ← load_pair c (read_line t line); load_lines c' lines

  -- `LoadConfig`; a file that is not there leaves the settings as they are.
  unfoldable pub load_config : Settings P F → Opened → Option (Settings P F)
  load_config c not_there = some c
  load_config c open_fails = none
  load_config c (opened s fails) =
      if fails || has_long_line (scan_lines [] s) then none else load_lines c (scan_lines [] s)
