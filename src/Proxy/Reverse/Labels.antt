-- ===== src/Proxy/Reverse/Labels.antt =====
-- The loop of `ptrIP` (proxy/util.go) on a name that is made of labels.
use nextdns.Prelude.{
  Bytes, List, Option-cases, [], ap, append_assoc, arith, drop, false, get_elem?, inl, inr,
  last_index_byte, last_index_byte-append, length, length-append, none, refl, some, suc, take, zero,
  ℕ, ◌++◌, ◌+◌, ◌-◌, ◌<◌, ◌==◌, ◌>>=◌, ◌∙◌, ◌∷◌, ◌≡◌, ◌≢◌, ◌≤◌,
}
use nextdns.Net.{Ip}
use native.Mathlib.Nat.{zero-add, suc-add}
use mathlib.Core.Path.{ap}
use nextdns.Proxy.Reverse.{cut, fill_ip, parse_uint, place, strip}

-- The labels in the order of the loop, from the end of the name: each with its dot, and without
-- the last dot.
abbrev pub dotted : List Bytes → Bytes
dotted [] = []
dotted (l ∷ ls) = dotted ls ++ l ++ 46 ∷ []

abbrev pub joined : List Bytes → Bytes
joined [] = []
joined (l ∷ ls) = dotted ls ++ l

-- Each label is read as one of the numbers.
abbrev pub Parses : ℕ → List Bytes → List ℕ → Type 0
Parses base [] [] = Unit
Parses base [] (b ∷ bs) = ⊥
Parses base (l ∷ ls) [] = ⊥
Parses base (l ∷ ls) (b ∷ bs) =
    (last_index_byte l 46 ≡ none) × (parse_uint l base ≡ some b) × Parses base ls bs

abbrev pub place_all : ℕ → ℕ → List ℕ → Ip → Ip
place_all base i [] ip = ip
place_all base i (b ∷ bs) ip = place_all base (suc i) bs (place base i b ip)

pub take_left {ℓ} : {A : Type ℓ} (xs ys : List A) → take (length xs) (xs ++ ys) ≡ xs
take_left [] ys = refl
take_left (x ∷ xs) ys = ap (◌∷◌ x) (take_left xs ys)

pub drop_left {ℓ} :
    {A : Type ℓ} (xs ys : List A) (n : ℕ) → drop (length xs + n) (xs ++ ys) ≡ drop n ys
drop_left [] ys n = rw zero-add
drop_left (x ∷ xs) ys n = rw suc-add (drop_left xs ys n)

pub strip-append : (n : ℕ) (s suffix : Bytes) → length suffix ≡ n → strip n (s ++ suffix) ≡ s
strip-append n s suffix h =
    let e : length (s ++ suffix) - n ≡ length s = omega (arith, length-append s suffix) in
    rw e (take_left s suffix)

nil_of_no_head : (l : Bytes) → get_elem? l 0 ≡ none → l ≡ []
nil_of_no_head [] e = refl
nil_of_no_head (c ∷ l) e = cc

length_of_head : (l : Bytes) (c : ℕ) → get_elem? l 0 ≡ some c → 0 < length l
length_of_head [] c e = cc
length_of_head (d ∷ l) c e = omega arith

cut-dotted : (s l : Bytes) → last_index_byte l 46 ≡ none → l ≢ [] → cut (s ++ 46 ∷ l) ≡ some (l, s)
unfolding cut
cut-dotted s l no_dot ne =
    rw (last_index_byte-append s l 46 no_dot, not_last, drop_one s, take_left s (46 ∷ l))
  where
    not_last : (suc (length s) == length (s ++ 46 ∷ l)) ≡ false
    not_last = elim (Option-cases (get_elem? l 0)) [
      | inl e ↦ absurd (ne (nil_of_no_head l e))
      | inr (c, e) ↦ ground (arith, length-append s (46 ∷ l), length_of_head l c e)
    ]

    drop_one : (s : Bytes) → drop (suc (length s)) (s ++ 46 ∷ l) ≡ l
    drop_one [] = refl
    drop_one (c ∷ s) = drop_one s

pub cut-joined :
    (l : Bytes) (ls : List Bytes)
    → last_index_byte l 46 ≡ none
    → l ≢ []
    → cut (joined (l ∷ ls)) ≡ some (l, joined ls)
unfolding cut
cut-joined l [] no_dot ne = rw no_dot
cut-joined l (m ∷ ls) no_dot ne = rw e (cut-dotted (joined (m ∷ ls)) l no_dot ne)
  where
    e : joined (l ∷ m ∷ ls) ≡ joined (m ∷ ls) ++ 46 ∷ l
    e = simp append_assoc

fill_ip-step :
    (base n i : ℕ) (s : Bytes) (ip : Ip)
    → s ≢ []
    → fill_ip base (suc n) i s ip ≡ (
        cut s >>= λ (label, rest).
        parse_uint label base >>= λ b. fill_ip base n (suc i) rest (place base i b ip))
unfolding fill_ip
fill_ip-step base n i [] ip ne = absurd (ne refl)
fill_ip-step base n i (c ∷ s) ip ne = refl

ne_of_parse : (l : Bytes) (base b : ℕ) → parse_uint l base ≡ some b → l ≢ []
ne_of_parse l base b h e = cc (rw e at h)

append_ne : (s l : Bytes) → l ≢ [] → s ++ l ≢ []
append_ne [] l ne e = ne e
append_ne (c ∷ s) l ne e = cc

-- The loop places what the labels are read as.
pub fill_ip-joined :
    (base n i : ℕ) (ls : List Bytes) (bs : List ℕ) (ip : Ip)
    → Parses base ls bs
    → length ls ≤ n
    → fill_ip base n i (joined ls) ip ≡ some (place_all base i bs ip)
unfolding fill_ip
fill_ip-joined base zero i [] [] ip p h = refl
fill_ip-joined base (suc n) i [] [] ip p h = refl
fill_ip-joined base zero i (l ∷ ls) bs ip p h = absurd (omega arith)
fill_ip-joined base n i [] (b ∷ bs) ip p h = absurd p
fill_ip-joined base n i (l ∷ ls) [] ip p h = absurd p
fill_ip-joined base (suc n) i (l ∷ ls) (b ∷ bs) ip (no_dot, parse, p) h =
    let ne = ne_of_parse l base b parse in
    fill_ip-step base n i (joined (l ∷ ls)) ip (append_ne (dotted ls) l ne)
    ∙ rw (cut-joined l ls no_dot ne, parse) (fill_ip-joined base n (suc i) ls bs _ p (omega arith))
