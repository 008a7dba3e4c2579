-- ===== src/Config/Settings.antt =====
-- host/service/config.go and config/: the settings that are read from the command line and kept in
-- a file. A setting is its value with its default. A duration is the 64 bits of its nanoseconds;
-- its text is that of the time package, a pair of functions.
pub mod Numbers
use nextdns.Prelude.{
  Bool, Bytes, List, Option, [], bytes_eq, codes, false, if◌then◌else◌, leb, ltb, none, not, some,
  suc, true, zero, ℕ, ◌%◌, ◌&&◌, ◌*◌, ◌++◌, ◌+◌, ◌-◌, ◌/◌, ◌==◌, ◌>>=◌, ◌^◌, ◌||◌, ◌∷◌,
}

-- `time.ParseDuration` and `Duration.String`
-- `strings.TrimSpace` of a text that is not all ASCII is a function too.
pub record Durations : Type 0 where
  pub parse_duration : Bytes → Option ℕ
  pub print_duration : ℕ → Bytes
  pub trim_unicode : Bytes → Bytes

-- `strconv.ParseUint(v, 10, 16)`: the digits in order; a value of more than 16 bits is an error.
abbrev pub add_digit : ℕ → ℕ → Option ℕ
add_digit n c =
    if leb 48 c && leb c 57
    then (if ltb (n * 10 + (c - 48)) (2 ^ 16) then some (n * 10 + (c - 48)) else none)
    else none

unfoldable pub parse_digits : ℕ → Bytes → Option ℕ
parse_digits n [] = some n
parse_digits n (c ∷ s) = do n' ← add_digit n c; parse_digits n' s

unfoldable pub parse_uint : Bytes → Option ℕ
parse_uint [] = none
parse_uint (c ∷ s) = parse_digits 0 (c ∷ s)

-- `%d` of a number of at most `fuel` digits
unfoldable pub print_digits : ℕ → ℕ → Bytes
print_digits zero n = []
print_digits (suc fuel) n =
    let front = print_digits fuel (n / 10) in
    if ltb n 10 then (48 + n) ∷ [] else front ++ (48 + n % 10) ∷ []

-- 20 digits hold 64 bits.
unfoldable pub print_uint : ℕ → Bytes
print_uint n = print_digits 20 n

-- `ConfigFlag.Set` and `ConfigFlag.String`
unfoldable pub parse_flag : Bytes → Option Bool
parse_flag v =
    if bytes_eq v (codes "yes") || bytes_eq v (codes "true") || bytes_eq v (codes "1")
    then some true
    else if bytes_eq v (codes "no")
        || bytes_eq v (codes "false")
        || bytes_eq v (codes "0")
        || bytes_eq v []
    then some false
    else none

unfoldable pub print_flag : Bool → Bytes
print_flag true = codes "true"
print_flag false = codes "false"

-- `multiStringValue.Set`: a value that is there is not added again.
unfoldable pub has_string : List Bytes → Bytes → Bool
has_string [] v = false
has_string (s ∷ ss) v = bytes_eq v s || has_string ss v

unfoldable pub add_string : List Bytes → Bytes → List Bytes
add_string ss v = if has_string ss v then ss else ss ++ v ∷ []

-- What a list of profiles or of forwarders is to the storage: no elements, its `Set` and its
-- `Strings`.
pub record Listed (L : Type 0) : Type 0 where
  pub empty : L
  pub set_listed : L → Bytes → Option L
  pub strings_of : L → List Bytes

-- The kinds of settings; the lists are of strings, of profiles and of forwarders.
pub data Setting (P F : Type 0) : Type 0 where
  text : Bytes → Bytes → Setting P F
  flag : Bool → Bool → Setting P F
  duration : ℕ → ℕ → Setting P F
  uint : ℕ → ℕ → Setting P F
  strings : List Bytes → Setting P F
  profiles : P → Setting P F
  forwarders : F → Setting P F

module _ {P F : Type 0} (t : Durations) (ps : Listed P) (fs : Listed F) where
  -- `Set` of each kind; `none` is an error.
  unfoldable pub set_setting : Setting P F → Bytes → Option (Setting P F)
  set_setting (text v d) s = some (text s d)
  set_setting (flag v d) s = do v' ← parse_flag s; some (flag v' d)
  set_setting (duration v d) s = do v' ← t.parse_duration s; some (duration v' d)
  set_setting (uint v d) s = do v' ← parse_uint s; some (uint v' d)
  set_setting (strings ss) s = some (strings (add_string ss s))
  set_setting (profiles p) s = do p' ← ps.set_listed p s; some (profiles p')
  set_setting (forwarders f) s = do f' ← fs.set_listed f s; some (forwarders f')

  -- `String`, or `Strings` of a `ConfigListEntry`: what a file holds of the setting.
  unfoldable pub lines_of : Setting P F → List Bytes
  lines_of (text v d) = v ∷ []
  lines_of (flag v d) = print_flag v ∷ []
  lines_of (duration v d) = t.print_duration v ∷ []
  lines_of (uint v d) = print_uint v ∷ []
  lines_of (strings ss) = ss
  lines_of (profiles p) = ps.strings_of p
  lines_of (forwarders f) = fs.strings_of f

-- `IsDefault`; a list has none.
unfoldable pub is_default : {P F : Type 0} → Setting P F → Bool
is_default (text v d) = bytes_eq v d
is_default (flag true d) = d
is_default (flag false d) = not d
is_default (duration v d) = v == d
is_default (uint v d) = v == d
is_default _ = false
