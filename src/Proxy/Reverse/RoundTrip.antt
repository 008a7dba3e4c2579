-- ===== src/Proxy/Reverse/RoundTrip.antt =====
-- `reverseIP` (discovery/dns.go) against `ptrIP` (proxy/util.go): the proxy reads every reverse name
-- that the discovery asks for.
use nextdns.Prelude.{
  ==_iff, All, Bool, Bool-cases, Bytes, IsByte, List, Option, [], all_below, all_below-true, ap,
  append_assoc, arith, bit_and, bit_or, bytes_eq, bytes_eq_iff, codes, drop, false, get_elem?,
  get_elem?-drop, get_or, has_suffix, has_suffix-append, if◌then◌else◌, inl, inr, last_index_byte,
  leb, length, length-append, length-drop, none, refl, replicate, set, some, suc, sym, take,
  take-append-drop, true, zero, ℕ, ◌%◌, ◌&&◌, ◌*◌, ◌++◌, ◌-◌, ◌/◌, ◌<◌, ◌==◌, ◌∙◌, ◌∷◌, ◌≡◌, ◌⊎◌,
}
use nextdns.Net.{Ip, to4, v4_in_v6_prefix}
use nextdns.Discovery.Dns.{
  hex_digit, put_digits, reverse_by, reverse_ip, reverse_nibbles, reverse_v4, uitoa, uitoa_slow,
}
use nextdns.Proxy.Reverse.{
  address_of, arpa, digit, fill_ip, in_addr, ip6, parse_digits, parse_uint, place, ptr_ip, strip,
}
use nextdns.Proxy.Reverse.Labels.{Parses, dotted, fill_ip-joined, joined, place_all, strip-append}
use mathlib.Core.Path.{ap, subst}

-- What is checked of the printed form of one byte, and of its two nibbles.
abbrev label_read : ℕ → Option ℕ → Option ℕ → Bool
label_read v (some dot) n = false
label_read v none none = false
label_read v none (some b) = b == v

abbrev is_label : ℕ → ℕ → Bytes → Bool
is_label base v l = label_read v (last_index_byte l 46) (parse_uint l base)

abbrev is_decimal : ℕ → Option Bytes → Bool
is_decimal v none = false
is_decimal v (some l) = is_label 10 v l

abbrev nibbles_ok : ℕ → Bool
nibbles_ok v =
    is_label 16 (v / 16) (hex_digit (v / 16) ∷ [])
    && (is_label 16 (bit_and v 15) (hex_digit (bit_and v 15) ∷ [])
        && bit_or (bit_and v 15) (v / 16 * 16 % 256) == v)

decimals_read : all_below 256 (λ v. is_decimal v (uitoa v)) ≡ true
unfolding uitoa last_index_byte parse_digits digit nextdns.Discovery.Dns.uitoa_slow
    nextdns.Discovery.Dns.put_digits
decimals_read = refl

nibbles_read : all_below 256 nibbles_ok ≡ true
unfolding last_index_byte parse_digits digit
nibbles_read = refl

and-eq-true : (a b : Bool) → a && b ≡ true → (a ≡ true) × (b ≡ true)
and-eq-true a b h = ground (arith, h)

label_read-true :
    (v : ℕ) (dot n : Option ℕ) → label_read v dot n ≡ true → (dot ≡ none) × (n ≡ some v)
label_read-true v none (some b) h = (refl, ap some ((==_iff b v).0 h))
label_read-true v none none h = cc
label_read-true v (some dot) n h = cc

is_label-true :
    (base v : ℕ) (l : Bytes)
    → is_label base v l ≡ true
    → (last_index_byte l 46 ≡ none) × (parse_uint l base ≡ some v)
is_label-true base v l h = label_read-true v _ _ h

nibbles_ok-true :
    (v : ℕ)
    → v < 256
    → (is_label 16 (v / 16) (hex_digit (v / 16) ∷ []) ≡ true)
      × (is_label 16 (bit_and v 15) (hex_digit (bit_and v 15) ∷ []) ≡ true)
      × (bit_or (bit_and v 15) (v / 16 * 16 % 256) ≡ v)
nibbles_ok-true v h =
    let (hi, rest) =
      and-eq-true (is_label 16 (v / 16) (hex_digit (v / 16) ∷ []))
        (is_label 16 (bit_and v 15) (hex_digit (bit_and v 15) ∷ [])
          && bit_or (bit_and v 15) (v / 16 * 16 % 256) == v)
        (all_below-true 256 nibbles_ok nibbles_read v h) in
    let (lo, join) =
      and-eq-true (is_label 16 (bit_and v 15) (hex_digit (bit_and v 15) ∷ []))
        (bit_or (bit_and v 15) (v / 16 * 16 % 256) == v) rest in
    (hi, lo, (==_iff _ _).0 join)

is_decimal-true :
    (v : ℕ) (o : Option Bytes)
    → is_decimal v o ≡ true
    → (l : Bytes) × (o ≡ some l) × (is_label 10 v l ≡ true)
is_decimal-true v none h = cc
is_decimal-true v (some l) h = (l, refl, h)

-- The labels of an IPv6 address.
abbrev nibble_labels : Ip → List Bytes
nibble_labels [] = []
nibble_labels (v ∷ ip) =
    (hex_digit (v / 16) ∷ []) ∷ (hex_digit (bit_and v 15) ∷ []) ∷ nibble_labels ip

abbrev nibbles : Ip → List ℕ
nibbles [] = []
nibbles (v ∷ ip) = v / 16 ∷ bit_and v 15 ∷ nibbles ip

nibble_labels-Parses : (ip : Ip) → All IsByte ip → Parses 16 (nibble_labels ip) (nibbles ip)
nibble_labels-Parses [] h = tt
nibble_labels-Parses (v ∷ ip) (b, h) =
    let (hi, lo, join) = nibbles_ok-true v b in
    let (dot, p) = is_label-true 16 (v / 16) (hex_digit (v / 16) ∷ []) hi in
    let (dot', p') = is_label-true 16 (bit_and v 15) (hex_digit (bit_and v 15) ∷ []) lo in
    (dot, p, (dot', p', nibble_labels-Parses ip h))

reverse_nibbles-dotted : (ip : Ip) → reverse_nibbles ip ≡ dotted (nibble_labels ip)
unfolding reverse_nibbles
reverse_nibbles-dotted [] = refl
reverse_nibbles-dotted (v ∷ ip) = rw (reverse_nibbles-dotted ip) (simp append_assoc)

set_at : (pre : Bytes) (a b : ℕ) (zs : Bytes) → set (pre ++ a ∷ zs) (length pre) b ≡ pre ++ b ∷ zs
set_at [] a b zs = refl
set_at (p ∷ pre) a b zs = ap (◌∷◌ p) (set_at pre a b zs)

get_at : (pre : Bytes) (a : ℕ) (zs : Bytes) → get_or (pre ++ a ∷ zs) (length pre) 0 ≡ a
get_at [] a zs = refl
get_at (p ∷ pre) a zs = get_at pre a zs

place_even : (k b : ℕ) (ip : Ip) → place 16 (2 * k) b ip ≡ set ip k b
unfolding place
place_even k b ip =
    let even : (2 * k % 2 == 1) ≡ false = ground arith in
    let half : 2 * k / 2 ≡ k = omega arith in rw (even, half)

place_odd :
    (k b : ℕ) (ip : Ip)
    → place 16 (suc (2 * k)) b ip ≡ set ip k (bit_or b (get_or ip k 0 * 16 % 256))
unfolding place
place_odd k b ip =
    let odd : (suc (2 * k) % 2 == 1) ≡ true = ground arith in
    let half : suc (2 * k) / 2 ≡ k = omega arith in rw (odd, half)

-- The two nibbles of a byte make the byte.
place_two :
    (pre zs : Bytes) (v : ℕ)
    → v < 256
    → place 16
        (suc (2 * length pre))
        (bit_and v 15)
        (place 16 (2 * length pre) (v / 16) (pre ++ 0 ∷ zs))
      ≡ pre ++ v ∷ zs
place_two pre zs v h =
    let (hi, lo, e) = nibbles_ok-true v h in
    ap (place 16 (suc (2 * length pre)) (bit_and v 15))
      (place_even (length pre) (v / 16) (pre ++ 0 ∷ zs) ∙ set_at pre 0 (v / 16) zs)
    ∙ place_odd (length pre) (bit_and v 15) (pre ++ v / 16 ∷ zs)
    ∙ rw (get_at pre (v / 16) zs, e) (set_at pre (v / 16) v zs)

place_all-nibbles :
    (pre ip : Bytes)
    → All IsByte ip
    → place_all 16 (2 * length pre) (nibbles ip) (pre ++ replicate (length ip) 0) ≡ pre ++ ip
place_all-nibbles pre [] h = refl
place_all-nibbles pre (v ∷ ip) (b, h) =
    let snoc : 2 * length (pre ++ v ∷ []) ≡ suc (suc (2 * length pre)) =
      omega (arith, length-append pre (v ∷ [])) in
    let rest = place_all-nibbles (pre ++ v ∷ []) ip h in
    ap (place_all 16 (suc (suc (2 * length pre))) (nibbles ip))
      (place_two pre (replicate (length ip) 0) v b)
    ∙ (simp append_assoc at (rw snoc at rest))

abbrev v6 : Bytes → Option Ip
v6 ptr = if has_suffix ptr ip6 then fill_ip 16 32 0 (strip 4 ptr) (replicate 16 0) else none

abbrev last_of : Bytes → ℕ
last_of [] = 0
last_of (x ∷ []) = x
last_of (x ∷ y ∷ s) = last_of (y ∷ s)

last_of-append : (s t : Bytes) (c : ℕ) → last_of (s ++ c ∷ t) ≡ last_of (c ∷ t)
last_of-append [] t c = refl
last_of-append (x ∷ []) t c = refl
last_of-append (x ∷ y ∷ s) t c = last_of-append (y ∷ s) t c

not_in_addr : (s : Bytes) → has_suffix (s ++ ip6) in_addr ≡ false
unfolding has_suffix
not_in_addr s = elim (Bool-cases (has_suffix (s ++ ip6) in_addr)) [
  | inr e ↦ e
  | inl e ↦
      let (long, same) =
        and-eq-true (leb 8 (length (s ++ ip6)))
          (bytes_eq (drop (length (s ++ ip6) - 8) (s ++ ip6)) in_addr) e in
      let n = length (s ++ ip6) - 8 in
      let whole = take-append-drop n (s ++ ip6) in
      let tail = (bytes_eq_iff (drop n (s ++ ip6)) in_addr).0 same in
      let ends : take n (s ++ ip6) ++ in_addr ≡ s ++ ip6 =
        ap (λ t. take n (s ++ ip6) ++ t) (sym tail) ∙ whole in
      let six : last_of (s ++ ip6) ≡ 54 = last_of-append s _ 46 in
      let r : last_of (take n (s ++ ip6) ++ in_addr) ≡ 114 =
        last_of-append (take n (s ++ ip6)) _ 46 in
      absurd (absurd_eq six (ap last_of (sym ends) ∙ r))
]
  where
    absurd_eq : {a : ℕ} → a ≡ 54 → a ≡ 114 → ⊥
    absurd_eq h k = omega arith

-- A name with one of the two suffixes is read by the loop.
ptr_ip-v4 : (s : Bytes) → ptr_ip (s ++ codes ".in-addr.arpa.") ≡ fill_ip 10 4 0 s (replicate 4 0)
unfolding ptr_ip
ptr_ip-v4 s =
    let e : s ++ codes ".in-addr.arpa." ≡ (s ++ in_addr) ++ arpa = simp append_assoc in
    ap ptr_ip e
    ∙ ap (λ b. if b then address_of (strip 6 ((s ++ in_addr) ++ arpa)) else none)
        (has_suffix-append (s ++ in_addr) arpa)
    ∙ ap address_of (strip-append 6 (s ++ in_addr) arpa refl)
    ∙ ap
        (λ b.
          if b then fill_ip 10 4 0 (strip 8 (s ++ in_addr)) (replicate 4 0) else v6 (s ++ in_addr))
        (has_suffix-append s in_addr)
    ∙ ap (λ t. fill_ip 10 4 0 t (replicate 4 0)) (strip-append 8 s in_addr refl)

ptr_ip-v6 : (s : Bytes) → ptr_ip (s ++ codes ".ip6.arpa.") ≡ fill_ip 16 32 0 s (replicate 16 0)
unfolding ptr_ip
ptr_ip-v6 s =
    let e : s ++ codes ".ip6.arpa." ≡ (s ++ ip6) ++ arpa = simp append_assoc in
    ap ptr_ip e
    ∙ ap (λ b. if b then address_of (strip 6 ((s ++ ip6) ++ arpa)) else none)
        (has_suffix-append (s ++ ip6) arpa)
    ∙ ap address_of (strip-append 6 (s ++ ip6) arpa refl)
    ∙ ap (λ b. if b then fill_ip 10 4 0 (strip 8 (s ++ ip6)) (replicate 4 0) else v6 (s ++ ip6))
        (not_in_addr s)
    ∙ ap (λ b. if b then fill_ip 16 32 0 (strip 4 (s ++ ip6)) (replicate 16 0) else none)
        (has_suffix-append s ip6)
    ∙ ap (λ t. fill_ip 16 32 0 t (replicate 16 0)) (strip-append 4 s ip6 refl)

read_v4 :
    (a b c d : ℕ)
    → All IsByte (a ∷ b ∷ c ∷ d ∷ [])
    → (a' : Bytes) × (b' : Bytes) × (c' : Bytes) × (d' : Bytes) × (uitoa a ≡ some a')
      × (uitoa b ≡ some b')
      × (uitoa c ≡ some c')
      × (uitoa d ≡ some d')
      × (ptr_ip (d' ++ 46 ∷ c' ++ 46 ∷ b' ++ 46 ∷ a' ++ codes ".in-addr.arpa.")
          ≡ some (a ∷ b ∷ c ∷ d ∷ []))
unfolding place
read_v4 a b c d (ha, (hb, (hc, (hd, _)))) =
    let (a', ea, pa) = decimal_ok a ha in
    let (b', eb, pb) = decimal_ok b hb in
    let (c', ec, pc) = decimal_ok c hc in
    let (d', ed, pd) = decimal_ok d hd in
    let ls = a' ∷ b' ∷ c' ∷ d' ∷ [] in
    let name : d' ++ 46 ∷ c' ++ 46 ∷ b' ++ 46 ∷ a' ++ codes ".in-addr.arpa."
        ≡ joined ls ++ codes ".in-addr.arpa." =
      simp append_assoc in
    let read =
      fill_ip-joined 10 4 0 ls (a ∷ b ∷ c ∷ d ∷ []) (replicate 4 0)
        (pa.0, pa.1, (pb.0, pb.1, (pc.0, pc.1, (pd.0, pd.1, tt)))) (omega arith) in
    (a', b', c', d', ea, eb, ec, ed, ap ptr_ip name ∙ ptr_ip-v4 (joined ls) ∙ read)
  where
    decimal_ok :
        (v : ℕ)
        → v < 256
        → (l : Bytes) × (uitoa v ≡ some l)
          × ((last_index_byte l 46 ≡ none) × (parse_uint l 10 ≡ some v))
    decimal_ok v h =
        let (l, e, ok) =
          is_decimal-true v (uitoa v)
            (all_below-true 256 (λ v. is_decimal v (uitoa v)) decimals_read v h) in
        (l, e, is_label-true 10 v l ok)

-- The form that the loop builds: 4 bytes for an IPv4 address.
abbrev pub or_else : Ip → Ip → Ip
or_else [] ip = ip
or_else (a ∷ rest) ip = a ∷ rest

abbrev pub canonical : Ip → Ip
canonical ip = or_else (to4 ip) ip

to4-cases : (ip : Ip) → length ip ≡ 16 → (to4 ip ≡ []) ⊎ (to4 ip ≡ drop 12 ip)
unfolding to4
to4-cases ip h =
    let no : (length ip == 4) ≡ false = ground arith in
    let yes : (length ip == 16) ≡ true = ground arith in
    elim (Bool-cases (bytes_eq (take 12 ip) v4_in_v6_prefix)) [
      | inl e ↦ inr (rw (no, yes, e))
      | inr e ↦ inl (rw (no, yes, e))
    ]

All-drop {ℓ κ} : {A : Type ℓ} (P : A → Type κ) (n : ℕ) (xs : List A) → All P xs → All P (drop n xs)
All-drop P zero xs h = h
All-drop P (suc n) [] h = h
All-drop P (suc n) (x ∷ xs) (p, h) = All-drop P n xs h

four_of :
    (xs : Bytes) → length xs ≡ 4 → (a : ℕ) × (b : ℕ) × (c : ℕ) × (d : ℕ) × (xs ≡ a ∷ b ∷ c ∷ d ∷ [])
four_of [] h = absurd (omega arith)
four_of (a ∷ []) h = absurd (omega arith)
four_of (a ∷ b ∷ []) h = absurd (omega arith)
four_of (a ∷ b ∷ c ∷ []) h = absurd (omega arith)
four_of (a ∷ b ∷ c ∷ d ∷ []) h = (a, b, c, d, refl)
four_of (a ∷ b ∷ c ∷ d ∷ e ∷ xs) h = absurd (omega arith)

reverse_v4-ptr_ip :
    (ip : Ip)
    → length ip ≡ 16
    → All IsByte ip
    → (name : Bytes) × (reverse_v4 ip ≡ some name) × (ptr_ip name ≡ some (drop 12 ip))
reverse_v4-ptr_ip ip l h =
    let (a, b, c, d, four) = four_of (drop 12 ip) (omega (arith, length-drop 12 ip)) in
    let bytes = subst (All IsByte) four (All-drop IsByte 12 ip h) in
    let (a', b', c', d', ea, eb, ec, ed, read) = read_v4 a b c d bytes in
    let at0 : get_elem? ip 12 ≡ some a =
      sym (get_elem?-drop 12 ip 0) ∙ ap (λ t. get_elem? t 0) four in
    let at1 : get_elem? ip 13 ≡ some b =
      sym (get_elem?-drop 12 ip 1) ∙ ap (λ t. get_elem? t 1) four in
    let at2 : get_elem? ip 14 ≡ some c =
      sym (get_elem?-drop 12 ip 2) ∙ ap (λ t. get_elem? t 2) four in
    let at3 : get_elem? ip 15 ≡ some d =
      sym (get_elem?-drop 12 ip 3) ∙ ap (λ t. get_elem? t 3) four in
    (
      d' ++ 46 ∷ c' ++ 46 ∷ b' ++ 46 ∷ a' ++ codes ".in-addr.arpa.",
      rw (at0, at1, at2, at3, ea, eb, ec, ed),
      read ∙ ap some (sym four),
    )

reverse_v6-ptr_ip :
    (ip : Ip)
    → length ip ≡ 16
    → All IsByte ip
    → ptr_ip (reverse_nibbles ip ++ codes "ip6.arpa.") ≡ some ip
reverse_v6-ptr_ip [] l h = absurd (omega arith)
reverse_v6-ptr_ip (v ∷ ip) l h =
    let ls = nibble_labels (v ∷ ip) in
    let name : reverse_nibbles (v ∷ ip) ++ codes "ip6.arpa." ≡ joined ls ++ codes ".ip6.arpa." =
      rw (reverse_nibbles-dotted (v ∷ ip)) (simp append_assoc) in
    let read =
      fill_ip-joined 16 32 0 ls (nibbles (v ∷ ip)) (replicate 16 0)
        (nibble_labels-Parses (v ∷ ip) h) (omega (arith, length_labels (v ∷ ip))) in
    let place = place_all-nibbles [] (v ∷ ip) h in
    ap ptr_ip name
    ∙ ptr_ip-v6 (joined ls)
    ∙ read
    ∙ ap some (subst (λ n. place_all 16 0 (nibbles (v ∷ ip)) (replicate n 0) ≡ v ∷ ip) l place)
  where
    length_labels : (ip : Ip) → length (nibble_labels ip) ≡ 2 * length ip
    length_labels [] = refl
    length_labels (v ∷ ip) = omega (arith, length_labels ip)

-- The reverse name of an address is read back as the address.
pub ptr_ip-reverse_ip :
    (ip : Ip)
    → length ip ≡ 16
    → All IsByte ip
    → (name : Bytes) × (reverse_ip ip ≡ some name) × (ptr_ip name ≡ some (canonical ip))
unfolding reverse_ip
ptr_ip-reverse_ip ip l h = elim (to4-cases ip l) [
  | inl e ↦ (
    reverse_nibbles ip ++ codes "ip6.arpa.",
    ap (reverse_by ip) e,
    reverse_v6-ptr_ip ip l h ∙ ap (λ t. some (or_else t ip)) (sym e),
  )
  | inr e ↦
      let (name, printed, read) = reverse_v4-ptr_ip ip l h in
      let (a, b, c, d, four) = four_of (drop 12 ip) (omega (arith, length-drop 12 ip)) in
      (
        name,
        ap (reverse_by ip) (e ∙ four) ∙ printed,
        read ∙ ap some (four ∙ ap (λ t. or_else t ip) (sym (e ∙ four))),
      )
]
