-- ===== src/Discovery/Names.antt =====
-- discovery/util.go: the names of hosts, and the sets of strings that are kept for them.
pub mod Keys
pub mod Insertion
use nextdns.Prelude.{
  Bool, Bytes, List, Option, [], bytes_eq, drop, false, get_elem?, get_or, if◌then◌else◌, leb,
  length, ltb, none, not, set, some, suc, take, true, ℕ, ◌&&◌, ◌++◌, ◌+◌, ◌-◌, ◌/◌, zero, ◌==◌,
  ◌||◌, ◌∷◌,
}

-- `lowerASCIIBytes`
abbrev pub lower_byte : ℕ → ℕ
lower_byte b = if leb 65 b && leb b 90 then b + 32 else b

abbrev pub lower_ascii_bytes : Bytes → Bytes
lower_ascii_bytes [] = []
lower_ascii_bytes (b ∷ x) = lower_byte b ∷ lower_ascii_bytes x

-- `absDomainName`
unfoldable pub abs_domain_name : Bytes → Bytes
abs_domain_name [] = 46 ∷ []
abs_domain_name (b ∷ []) = if b == 46 then b ∷ [] else b ∷ 46 ∷ []
abs_domain_name (b ∷ c ∷ s) = b ∷ abs_domain_name (c ∷ s)

-- `prepareHostLookup`
unfoldable pub prepare_host_lookup : Bytes → Bytes
prepare_host_lookup host = abs_domain_name (lower_ascii_bytes host)

-- `strings.Trim(name, set) == ""`: every byte is of the set.
abbrev pub all_bytes : (ℕ → Bool) → Bytes → Bool
all_bytes p [] = true
all_bytes p (b ∷ s) = p b && all_bytes p s

abbrev pub is_digit : ℕ → Bool
is_digit b = leb 48 b && leb b 57

abbrev pub is_byte_at : Bytes → ℕ → ℕ → Bool
is_byte_at name i b = get_or name i 0 == b

abbrev pub is_uuid : Bytes → Bool
is_uuid name =
    length name == 36
    && (is_byte_at name 8 45
        && is_byte_at name 13 45
        && is_byte_at name 18 45
        && is_byte_at name 23 45)
    && all_bytes (λ b. is_digit b || (leb 97 b && leb b 102) || b == 45) name

abbrev pub is_mac_name : Bytes → Bool
is_mac_name name =
    length name == 17
    && (is_byte_at name 2 95
        && is_byte_at name 5 95
        && is_byte_at name 8 95
        && is_byte_at name 11 95
        && is_byte_at name 14 95)
    && all_bytes (λ b. is_digit b || (leb 65 b && leb b 70) || b == 95) name

abbrev pub is_address_name : Bytes → Bool
is_address_name name =
    leb 7 (length name) && leb (length name) 15 && all_bytes (λ b. is_digit b || b == 45) name

-- `isValidName`
unfoldable pub is_valid_name : Bytes → Bool
is_valid_name name =
    if bytes_eq name [] || bytes_eq name (42 ∷ [])
    then false
    else (not (is_uuid name) && not (is_mac_name name) && not (is_address_name name))

-- `sort.SearchStrings`: the binary search of `sort.Search`, with a round for each place at most. The
-- place is the first that is not below the string where the set is sorted.
abbrev pub string_lt : Bytes → Bytes → Bool
string_lt [] [] = false
string_lt [] (b ∷ t) = true
string_lt (a ∷ s) [] = false
string_lt (a ∷ s) (b ∷ t) = ltb a b || (a == b && string_lt s t)

unfoldable pub search_from : ℕ → List Bytes → Bytes → ℕ → ℕ → ℕ
search_from zero ss x i j = i
search_from (suc fuel) ss x i j =
    let upper = search_from fuel ss x ((i + j) / 2 + 1) j in
    let lower = search_from fuel ss x i ((i + j) / 2) in
    if ltb i j then (if string_lt (get_or ss ((i + j) / 2) []) x then upper else lower) else i

unfoldable pub search_strings : List Bytes → Bytes → ℕ
search_strings ss x = search_from (length ss) ss x 0 (length ss)

-- `copy(set[i+1:], set[i:])` once the set was extended by one: the elements from `i` on move by one.
abbrev pub shift_from : ℕ → List Bytes → List Bytes
shift_from i set = take (suc i) set ++ drop i (take (length set - 1) set)

-- One round of `appendUniq`; `none` is the early return of a value that is there.
abbrev pub is_at : Option Bytes → Bytes → Bool
is_at none x = false
is_at (some s) x = bytes_eq s x

unfoldable pub insert_at : ℕ → ℕ → List Bytes → Bytes → List Bytes
insert_at i pos ss x = set (shift_from i (ss ++ [] ∷ [])) pos x

abbrev pub add_one : ℕ → List Bytes → Bytes → Option (List Bytes)
add_one i ss x =
    if is_at (get_elem? ss (search_strings ss x)) x
    then none
    else some (insert_at i (search_strings ss x) ss x)

-- `appendUniq`
abbrev pub after_add : List Bytes → Option (List Bytes) → (List Bytes → List Bytes) → List Bytes
after_add ss none rest = ss
after_add ss (some ss') rest = rest ss'

unfoldable pub append_uniq_from : ℕ → List Bytes → List Bytes → List Bytes
append_uniq_from i ss [] = ss
append_uniq_from i ss (x ∷ adds) =
    after_add ss (add_one i ss x) (λ ss'. append_uniq_from (suc i) ss' adds)

unfoldable pub append_uniq : List Bytes → List Bytes → List Bytes
append_uniq ss adds = append_uniq_from 0 ss adds
