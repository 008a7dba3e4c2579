-- ===== src/Netstatus.antt =====
-- netstatus/netstatus.go: changes of the network interfaces, and who is told of them. A change is
-- what its text says. The interfaces of the host are an input, and so is what `Addrs` says of one of them
-- when it is called: the one list is asked for its addresses, then the other, while they are compared.
pub mod Unchanged
pub mod Handlers
use nextdns.Prelude.{
  Bool, Bytes, List, Option, [], bit_and, bytes_eq, false, if◌then◌else◌, length, ltb, none, not,
  some, true, ℕ, ◌&&◌, ◌==◌, ◌||◌, ◌∷◌,
}

pub record Interface : Type 0 where
  pub name : Bytes
  pub flags : ℕ
  pub index : ℕ

pub data Change : Type 0 where
  unchanged : Change
  added removed goes_down goes_up : Bytes → Change
  flags_changed : Bytes → ℕ → ℕ → Change
  address_added address_removed : Bytes → Bytes → Change

-- `Changed`
unfoldable pub is_changed : Change → Bool
is_changed unchanged = false
is_changed c = true

-- `<` on strings
abbrev pub string_lt : Bytes → Bytes → Bool
string_lt [] [] = false
string_lt [] (b ∷ t) = true
string_lt (a ∷ s) [] = false
string_lt (a ∷ s) (b ∷ t) = ltb a b || (a == b && string_lt s t)

-- `sort.Slice` by name, as an insertion sort
abbrev pub insert_sorted : Interface → List Interface → List Interface
insert_sorted i [] = i ∷ []
insert_sorted i (j ∷ is) = if string_lt j.name i.name then j ∷ insert_sorted i is else i ∷ j ∷ is

unfoldable pub sort_by_name : List Interface → List Interface
sort_by_name [] = []
sort_by_name (i ∷ is) = insert_sorted i (sort_by_name is)

-- The loops of `diffAddrs`: the first address of the one list that the other lacks.
abbrev pub has_addr : List Bytes → Bytes → Bool
has_addr [] a = false
has_addr (b ∷ bs) a = bytes_eq a b || has_addr bs a

unfoldable pub first_missing : List Bytes → List Bytes → Option Bytes
first_missing [] bs = none
first_missing (a ∷ as') bs = if has_addr bs a then first_missing as' bs else some a

-- `diffAddrs`, with the name of the interface that the caller puts before it
abbrev pub added_address : Bytes → Option Bytes → Change
added_address name none = unchanged
added_address name (some a) = address_added name a

abbrev pub removed_or_added : Bytes → List Bytes → List Bytes → Option Bytes → Change
removed_or_added name old new (some a) = address_removed name a
removed_or_added name old new none =
    if length old == length new then unchanged else added_address name (first_missing new old)

unfoldable pub diff_addrs : Bytes → List Bytes → List Bytes → Change
diff_addrs name old new = removed_or_added name old new (first_missing old new)

-- `Flags&net.FlagUp != 0`
abbrev pub is_up : ℕ → Bool
is_up flags = not (bit_and flags 1 == 0)

abbrev pub diff_flags : Bytes → ℕ → ℕ → Change
diff_flags name old new =
    if is_up old && not (is_up new)
    then goes_down name
    else (if not (is_up old) && is_up new then goes_up name else flags_changed name old new)

-- One round of the loop over two sorted lists, and the rounds behind it.
abbrev pub or_next : Change → Change → Change
or_next unchanged rest = rest
or_next c rest = c

-- What the interface of an index answers: as one of the old list, and as one of the new list.
pub record Addresses : Type 0 where
  pub of_old : ℕ → List Bytes
  pub of_new : ℕ → List Bytes

unfoldable pub diff_sorted : Addresses → List Interface → List Interface → Change
diff_sorted a [] [] = unchanged
diff_sorted a [] (n ∷ ns) = added n.name
diff_sorted a (o ∷ os) [] = removed o.name
diff_sorted a (o ∷ os) (n ∷ ns) =
    if bytes_eq o.name n.name
    then (if o.flags == n.flags
        then or_next (diff_addrs n.name (a.of_old o.index) (a.of_new n.index)) (diff_sorted a os ns)
        else diff_flags n.name o.flags n.flags)
    else (if string_lt o.name n.name then removed o.name else added n.name)

-- `diff`; a nil list is `none`
unfoldable pub diff : Addresses → Option (List Interface) → Option (List Interface) → Change
diff a none new = unchanged
diff a (some old) none = unchanged
diff a (some old) (some new) = diff_sorted a (sort_by_name old) (sort_by_name new)

-- `changed`: an error of the host leaves the interfaces that are known.
abbrev pub changed_by :
    Addresses
    → Option (List Interface)
    → Option (List Interface)
    → Option Change × Option (List Interface)
changed_by a prev none = (none, prev)
changed_by a prev (some now) = (some (diff a prev (some now)), some now)

unfoldable pub changed :
    Addresses
    → Option (List Interface)
    → Option (List Interface)
    → Option Change × Option (List Interface)
changed a prev now = changed_by a prev now
