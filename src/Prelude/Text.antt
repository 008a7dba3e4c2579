-- ===== src/Prelude/Text.antt =====
-- Go strings and byte slices: lists of bytes, with the comparisons that the code makes.
use Prim.Native.Nat.{ℕ, suc, ◌<◌, ◌-◌}
use Prim.Native.Char.{code}
use Prim.Native.String.{String}
use mathlib.Core.Path.{◌≡◌, refl, sym, ap, ◌∙◌}
use mathlib.Core.Logic.{◌↔◌}
use mathlib.Core.Bool.{Bool, true, false, ◌&&◌, ◌||◌}
use mathlib.Core.List.{List, [], ◌∷◌, ◌++◌}
use mathlib.Core.Option.{Option, none, some}
use native.Mathlib.Omega.{arith}
use nextdns.Prelude.Tests.{if◌then◌else◌, leb, ◌==◌}
use nextdns.Prelude.Lists.{drop, length, length-append, take, take-append-drop}

-- The bytes of an ASCII literal.
abbrev pub codes : String → List ℕ
codes String.[] = []
codes (String.◌∷◌ c s) = code c ∷ codes s

abbrev pub Bytes : Type 0
Bytes = List ℕ

-- Go's `==` on strings, and `bytes.Equal`.
unfoldable pub bytes_eq : Bytes → Bytes → Bool
bytes_eq [] [] = true
bytes_eq [] (y ∷ ys) = false
bytes_eq (x ∷ xs) [] = false
bytes_eq (x ∷ xs) (y ∷ ys) = x == y && bytes_eq xs ys

eq_of_bytes_eq : (xs ys : Bytes) → bytes_eq xs ys ≡ true → xs ≡ ys
unfolding bytes_eq
eq_of_bytes_eq [] [] h = refl
eq_of_bytes_eq [] (y ∷ ys) h = ground arith
eq_of_bytes_eq (x ∷ xs) [] h = ground arith
eq_of_bytes_eq (x ∷ xs) (y ∷ ys) h = ground (arith, eq_of_bytes_eq xs ys)

pub bytes_eq_refl : (xs : Bytes) → bytes_eq xs xs ≡ true
unfolding bytes_eq
bytes_eq_refl [] = refl
bytes_eq_refl (x ∷ xs) = ground (arith, bytes_eq_refl xs)

pub bytes_eq_iff : (xs ys : Bytes) → (bytes_eq xs ys ≡ true) ↔ (xs ≡ ys)
bytes_eq_iff xs ys = (eq_of_bytes_eq xs ys, λ e. to e)
  where
    to : xs ≡ ys → bytes_eq xs ys ≡ true
    to e = rw e (bytes_eq_refl ys)

abbrev pub IsByte : ℕ → Type 0
IsByte b = b < 256

-- `strings.HasSuffix`, and `strings.LastIndexByte`, whose -1 is `none`.
unfoldable pub has_suffix : Bytes → Bytes → Bool
has_suffix s suffix =
    leb (length suffix) (length s) && bytes_eq (drop (length s - length suffix) s) suffix

-- `strings.HasPrefix`
unfoldable pub has_prefix : Bytes → Bytes → Bool
has_prefix s [] = true
has_prefix [] (c ∷ prefix) = false
has_prefix (b ∷ s) (c ∷ prefix) = b == c && has_prefix s prefix

unfoldable pub last_index_byte : Bytes → ℕ → Option ℕ
last_index_byte [] c = none
last_index_byte (x ∷ s) c = elim (last_index_byte s c) [
  | some i ↦ some (suc i)
  | none ↦ if x == c then some 0 else none
]

drop-append {ℓ} : {A : Type ℓ} (xs ys : List A) → drop (length xs) (xs ++ ys) ≡ ys
drop-append [] ys = refl
drop-append (x ∷ xs) ys = drop-append xs ys

-- A suffix that was appended is found.
pub has_suffix-append : (s suffix : Bytes) → has_suffix (s ++ suffix) suffix ≡ true
unfolding has_suffix
has_suffix-append s suffix =
    let len = length-append s suffix in
    let d : length (s ++ suffix) - length suffix ≡ length s = omega arith in
    let le : leb (length suffix) (length (s ++ suffix)) ≡ true = ground arith in
    rw (le, d, drop-append s suffix) (bytes_eq_refl suffix)

pub last_index_byte-append :
    (s t : Bytes) (c : ℕ)
    → last_index_byte t c ≡ none
    → last_index_byte (s ++ c ∷ t) c ≡ some (length s)
unfolding last_index_byte
last_index_byte-append [] t c h = rw h (ground arith)
last_index_byte-append (x ∷ s) t c h = rw (last_index_byte-append s t c h)

-- `strings.IndexByte`, whose -1 is `none`.
unfoldable pub index_byte : Bytes → ℕ → Option ℕ
index_byte [] c = none
index_byte (x ∷ s) c = elim (x == c) [
  | true ↦ some 0
  | false ↦ elim (index_byte s c) [ some i ↦ some (suc i) | none ↦ none ]
]

-- `strings.TrimSpace`, on the white space of ASCII.
abbrev pub is_space : ℕ → Bool
is_space c = c == 32 || (leb 9 c && leb c 13)

abbrev pub trim_left : Bytes → Bytes
trim_left [] = []
trim_left (c ∷ s) = if is_space c then trim_left s else c ∷ s

abbrev pub trim_right : Bytes → Bytes
trim_right [] = []
trim_right (c ∷ s) = elim (trim_right s) [
  | [] ↦ if is_space c then [] else c ∷ []
  | d ∷ t ↦ c ∷ d ∷ t
]

abbrev pub trim_space : Bytes → Bytes
trim_space s = trim_right (trim_left s)

-- What has a suffix is something and the suffix.
pub eq_of_has_suffix :
    (s suffix : Bytes) → has_suffix s suffix ≡ true → (pre : Bytes) × (s ≡ pre ++ suffix)
unfolding has_suffix
eq_of_has_suffix s suffix h =
    let same : bytes_eq (drop (length s - length suffix) s) suffix ≡ true = ground (arith, h) in
    let tail = eq_of_bytes_eq (drop (length s - length suffix) s) suffix same in
    (
      take (length s - length suffix) s,
      sym (take-append-drop (length s - length suffix) s)
          ∙ ap (λ t. take (length s - length suffix) s ++ t) tail,
    )

pub take_front {ℓ} : {A : Type ℓ} (xs ys : List A) → take (length xs) (xs ++ ys) ≡ xs
take_front [] ys = refl
take_front (x ∷ xs) ys = ap (◌∷◌ x) (take_front xs ys)

pub drop_front {ℓ} : {A : Type ℓ} (xs ys : List A) → drop (length xs) (xs ++ ys) ≡ ys
drop_front [] ys = refl
drop_front (x ∷ xs) ys = drop_front xs ys

pub drop_behind : (xs : Bytes) (y : ℕ) (ys : Bytes) → drop (suc (length xs)) (xs ++ y ∷ ys) ≡ ys
drop_behind [] y ys = refl
drop_behind (x ∷ xs) y ys = drop_behind xs y ys

pub index_byte-append :
    (n : Bytes) (c : ℕ) (s : Bytes)
    → index_byte n c ≡ none
    → index_byte (n ++ c ∷ s) c ≡ some (length n)
unfolding index_byte
index_byte-append [] c s h = ground arith
index_byte-append (d ∷ n) c s h = ground (arith, h, index_byte-append n c s)

pub index_byte-none :
    (a : Bytes) (b : Bytes) (c : ℕ)
    → index_byte a c ≡ none
    → index_byte b c ≡ none
    → index_byte (a ++ b) c ≡ none
unfolding index_byte
index_byte-none [] b c h k = k
index_byte-none (d ∷ a) b c h k = ground (arith, h, k, index_byte-none a b c)
