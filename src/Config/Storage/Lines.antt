-- ===== src/Config/Storage/Lines.antt =====
-- A line of the file of the settings, host/service/config.go, printed and read.
use nextdns.Prelude.{
  drop_behind, index_byte-append, All, Bytes, [], ap, append-nil, append_assoc, arith, false,
  index_byte, is_space, length, none, refl, some, take_front, trim_left, trim_right, trim_space, ℕ,
  ◌++◌, ◌==◌, ◌∙◌, ◌∷◌, ◌≡◌, ◌≤◌, ◌<◌, true,
}
use nextdns.Config.Settings.{Durations}
use nextdns.Config.Storage.{is_ascii, trim_text, read_line, scan_lines, split_line}

-- The text does not begin with white space, and does not end with it.
abbrev pub Begins : Bytes → Type 0
Begins [] = Unit
Begins (c ∷ s) = is_space c ≡ false

pub record IsTrimmed (s : Bytes) : Type 0 where
  pub begins : Begins s
  pub ends : trim_right s ≡ s

-- A value is ASCII text and has no line break.
pub record IsValue (s : Bytes) : Type 0 where
  pub ascii : is_ascii s ≡ true
  pub trimmed : IsTrimmed s
  pub one_line : index_byte s 10 ≡ none

-- A name has no space and is no comment.
abbrev pub NoComment : Bytes → Type 0
NoComment [] = ⊥
NoComment (c ∷ s) = (c == 35) ≡ false

pub record IsName (s : Bytes) : Type 0 where
  pub value : IsValue s
  pub no_comment : NoComment s
  pub one_word : index_byte s 32 ≡ none

trim_left_lem : (s : Bytes) → Begins s → trim_left s ≡ s
trim_left_lem [] h = refl
trim_left_lem (c ∷ s) h = rw h

pub trim_space-IsTrimmed : (s : Bytes) → IsTrimmed s → trim_space s ≡ s
trim_space-IsTrimmed s h = ap trim_right (trim_left_lem s h.begins) ∙ h.ends

trim_right-append :
    (a : Bytes) (c : ℕ) (s : Bytes)
    → trim_right (c ∷ s) ≡ c ∷ s
    → trim_right (a ++ c ∷ s) ≡ a ++ c ∷ s
trim_right-append [] c s h = h
trim_right-append (d ∷ []) c s h = rw (trim_right-append [] c s h)
trim_right-append (d ∷ e ∷ a) c s h = rw (trim_right-append (e ∷ a) c s h)

trim_right-space : (s : Bytes) → trim_right (s ++ 32 ∷ []) ≡ trim_right s
trim_right-space [] = refl
trim_right-space (c ∷ s) = rw (trim_right-space s)

trim_text-IsValue : (t : Durations) (s : Bytes) → IsValue s → trim_text t s ≡ s
trim_text-IsValue t s v = rw v.ascii (trim_space-IsTrimmed s v.trimmed)

ascii_line :
    (name value : Bytes)
    → is_ascii name ≡ true
    → is_ascii value ≡ true
    → is_ascii (name ++ 32 ∷ value) ≡ true
ascii_line [] value h k = k
ascii_line (c ∷ name) value h k = ground (arith, h, ascii_line name value (ground (arith, h)) k)

split_line-append :
    (t : Durations) (name value : Bytes)
    → IsValue value
    → split_line t (name ++ 32 ∷ value) (some (length name)) ≡ (name, value)
split_line-append t name value v =
    rw (take_front name (32 ∷ value), drop_behind name 32 value, trim_text-IsValue t value v)

-- A line that was written is read as its name and its value.
pub read_line-append :
    (t : Durations) (name value : Bytes)
    → IsName name
    → IsValue value
    → read_line t (name ++ 32 ∷ value) ≡ some (name, value)
unfolding read_line
read_line-append t [] value n v = elim n.no_comment [ ]
read_line-append t (c ∷ name) [] n v = rw (
  ascii_line (c ∷ name) [] n.value.ascii refl,
  n.value.trimmed.begins,
  trim_right-space (c ∷ name),
  n.value.trimmed.ends,
  n.no_comment,
  n.one_word,
)
read_line-append t (c ∷ name) (d ∷ value) n v =
    let whole =
      trim_right-append (c ∷ name) 32 (d ∷ value)
        (trim_right-append (32 ∷ []) d value v.trimmed.ends) in
    let found = index_byte-append (c ∷ name) 32 (d ∷ value) n.one_word in
    rw
      (
        ascii_line (c ∷ name) (d ∷ value) n.value.ascii v.ascii,
        n.value.trimmed.begins,
        whole,
        n.no_comment,
        found,
      )
      (ap some (split_line-append t (c ∷ name) (d ∷ value) v))

-- A line without a line break ends at the next one.
pub scan_lines-append :
    (word line rest : Bytes)
    → index_byte line 10 ≡ none
    → scan_lines word (line ++ 10 ∷ rest) ≡ (word ++ line) ∷ scan_lines [] rest
unfolding scan_lines index_byte
scan_lines-append [] [] rest h = refl
scan_lines-append (d ∷ word) [] rest h = rw append-nil
scan_lines-append [] (c ∷ line) rest h = ground (arith, h, scan_lines-append (c ∷ []) line rest)
scan_lines-append (d ∷ word) (c ∷ line) rest h = ground (
  arith,
  h,
  scan_lines-append (d ∷ word ++ c ∷ []) line rest,
  append_assoc (d ∷ word) (c ∷ []) line,
)

-- ASCII text without blanks is a value.
abbrev pub IsVisible : Bytes → Type 0
IsVisible s = All (λ c. (33 ≤ c) × (c < 128)) s

IsVisible-trim_right : (s : Bytes) → IsVisible s → trim_right s ≡ s
IsVisible-trim_right [] h = refl
IsVisible-trim_right (c ∷ []) h = ground (arith, h.0)
IsVisible-trim_right (c ∷ d ∷ s) h = rw (IsVisible-trim_right (d ∷ s) h.1)

IsVisible-index_byte : (s : Bytes) → IsVisible s → index_byte s 10 ≡ none
unfolding index_byte
IsVisible-index_byte [] h = refl
IsVisible-index_byte (c ∷ s) h = ground (arith, h.0, IsVisible-index_byte s h.1)

IsVisible-is_ascii : (s : Bytes) → IsVisible s → is_ascii s ≡ true
IsVisible-is_ascii [] h = refl
IsVisible-is_ascii (c ∷ s) h = ground (arith, h.0, IsVisible-is_ascii s h.1)

pub IsVisible-IsValue : (s : Bytes) → IsVisible s → IsValue s
IsVisible-IsValue s h = record {
  ascii = IsVisible-is_ascii s h;
  trimmed = record { begins = begins s h; ends = IsVisible-trim_right s h };
  one_line = IsVisible-index_byte s h;
}
  where
    begins : (s : Bytes) → IsVisible s → Begins s
    begins [] h = tt
    begins (c ∷ s) h = ground (arith, h.0)

-- So is a name without them that does not begin a comment.
visible_one_word : (s : Bytes) → IsVisible s → index_byte s 32 ≡ none
unfolding index_byte
visible_one_word [] h = refl
visible_one_word (c ∷ s) h = ground (arith, h.0, visible_one_word s h.1)

pub IsVisible-IsName : (s : Bytes) → IsVisible s → NoComment s → IsName s
IsVisible-IsName s h n = record {
  value = IsVisible-IsValue s h;
  no_comment = n;
  one_word = visible_one_word s h;
}
