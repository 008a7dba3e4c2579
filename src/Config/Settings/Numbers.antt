-- ===== src/Config/Settings/Numbers.antt =====
-- The text of a number in host/service/config.go.
use nextdns.Prelude.{
  All, Bool-cases, Bytes, Option-cases, [], arith, if◌then◌else◌, inl, inr, ltb, ltb→lt, lt→ltb,
  none, refl, some, suc, zero, ℕ, ◌%◌, ◌*◌, ◌++◌, ◌+◌, ◌/◌, ◌<◌, ◌>>=◌, ◌^◌, ◌∙◌, ◌∷◌, ◌≡◌, ◌≢◌,
  ◌≤◌,
}
use nextdns.Config.Settings.{add_digit, parse_digits, parse_uint, print_digits, print_uint}

parse_digits-append :
    (n : ℕ) (s : Bytes) (c : ℕ)
    → parse_digits n (s ++ c ∷ []) ≡ (parse_digits n s >>= λ n'. add_digit n' c)
unfolding parse_digits
parse_digits-append n [] c = elim (Option-cases (add_digit n c)) [
  | inl e ↦ rw e
  | inr (m, e) ↦ rw e
]
parse_digits-append n (d ∷ s) c = elim (Option-cases (add_digit n d)) [
  | inl e ↦ rw e
  | inr (m, e) ↦ rw e (parse_digits-append m s c)
]

-- The largest numbers of so many digits, and one more.
abbrev pub power : ℕ → ℕ
power zero = 1
power (suc fuel) = power fuel * 10

add_digit-last : (n : ℕ) → n < 2 ^ 16 → add_digit (n / 10) (48 + n % 10) ≡ some n
add_digit-last n small = ground arith

add_digit-first : (n : ℕ) → n < 10 → add_digit 0 (48 + n) ≡ some n
add_digit-first n small = ground arith

add_digit-large : (n : ℕ) → 2 ^ 16 ≤ n → add_digit (n / 10) (48 + n % 10) ≡ none
add_digit-large n large = ground arith

parse_digits-print :
    (fuel n : ℕ)
    → n < power fuel
    → 0 < fuel
    → n < 2 ^ 16
    → parse_digits 0 (print_digits fuel n) ≡ some n
unfolding print_digits parse_digits
parse_digits-print zero n h pos small = absurd (omega arith)
parse_digits-print (suc zero) n h pos small =
    rw (lt→ltb n 10 (omega (arith, h)), add_digit-first n (omega (arith, h)))
parse_digits-print (suc (suc fuel)) n h pos small = elim (Bool-cases (ltb n 10)) [
  | inl one ↦ rw (one, add_digit-first n (ltb→lt n 10 one))
  | inr more ↦
      let q : n / 10 < power (suc fuel) = omega (arith, h) in
      let front = parse_digits-print (suc fuel) (n / 10) q (omega arith) (omega (arith, small)) in
      rw (more, parse_digits-append 0 (print_digits (suc fuel) (n / 10)) (48 + n % 10), front)
        (add_digit-last n small)
]

parse_digits_large :
    (fuel n : ℕ) → n < power fuel → 2 ^ 16 ≤ n → parse_digits 0 (print_digits fuel n) ≡ none
unfolding print_digits parse_digits
parse_digits_large zero n h large = absurd (omega arith)
parse_digits_large (suc fuel) n h large = elim (Bool-cases (ltb n 10)) [
  | inl one ↦ absurd (omega (arith, ltb→lt n 10 one))
  | inr more ↦ elim (Bool-cases (ltb (n / 10) (2 ^ 16))) [
    | inl fits ↦
        let q : n / 10 < power fuel = omega (arith, h) in
        let pos : 0 < fuel = some_digits fuel (n / 10) q (omega (arith, large)) in
        let front = parse_digits-print fuel (n / 10) q pos (ltb→lt (n / 10) (2 ^ 16) fits) in
        rw (more, parse_digits-append 0 (print_digits fuel (n / 10)) (48 + n % 10), front)
          (add_digit-large n large)
    | inr over ↦
        let front = parse_digits_large fuel (n / 10) (omega (arith, h)) (ground (arith, over)) in
        rw (more, parse_digits-append 0 (print_digits fuel (n / 10)) (48 + n % 10), front)
  ]
]
  where
    some_digits : (fuel n : ℕ) → n < power fuel → 0 < n → 0 < fuel
    some_digits zero n h pos = absurd (omega arith)
    some_digits (suc fuel) n h pos = omega arith

print_digits-ne-nil : (fuel n : ℕ) → 0 < fuel → print_digits fuel n ≢ []
unfolding print_digits
print_digits-ne-nil zero n pos = absurd (omega arith)
print_digits-ne-nil (suc fuel) n pos = elim (Bool-cases (ltb n 10)) [
  | inl one ↦ λ e. ground (arith, e, one)
  | inr more ↦ λ e. ends (print_digits fuel (n / 10)) (48 + n % 10) (rw more at e)
]
  where
    ends : (s : Bytes) (c : ℕ) → s ++ c ∷ [] ≢ []
    ends [] c e = cc
    ends (d ∷ s) c e = cc

parse_uint-ne : (s : Bytes) → s ≢ [] → parse_uint s ≡ parse_digits 0 s
unfolding parse_uint
parse_uint-ne [] ne = absurd (ne refl)
parse_uint-ne (c ∷ s) ne = refl

-- A number is read back from its text exactly if it has at most 16 bits: what is above is an error.
pub parse_uint-print_uint :
    (n : ℕ) → n < 2 ^ 64 → parse_uint (print_uint n) ≡ (if ltb n (2 ^ 16) then some n else none)
unfolding print_uint
parse_uint-print_uint n h = elim (Bool-cases (ltb n (2 ^ 16))) [
  | inl fits ↦ rw fits (
      parse_uint-ne (print_digits 20 n) (print_digits-ne-nil 20 n (omega arith))
      ∙ parse_digits-print 20 n (omega (arith, h)) (omega arith) (ltb→lt n (2 ^ 16) fits))
  | inr over ↦ rw over (
      parse_uint-ne (print_digits 20 n) (print_digits-ne-nil 20 n (omega arith))
      ∙ parse_digits_large 20 n (omega (arith, h)) (ground (arith, over)))
]

-- The digits are the bytes from `0` to `9`.
pub print_digits-All : (fuel n : ℕ) → All (λ c. (33 ≤ c) × (c < 128)) (print_digits fuel n)
unfolding print_digits
print_digits-All zero n = tt
print_digits-All (suc fuel) n = elim (Bool-cases (ltb n 10)) [
  | inl one ↦ rw one ((omega arith, ground arith), tt)
  | inr more ↦ rw more (
      ends (print_digits fuel (n / 10)) (48 + n % 10) (print_digits-All fuel (n / 10))
        (omega arith, omega arith))
]
  where
    ends :
        (s : Bytes) (c : ℕ)
        → All (λ d. (33 ≤ d) × (d < 128)) s
        → (33 ≤ c) × (c < 128)
        → All (λ d. (33 ≤ d) × (d < 128)) (s ++ c ∷ [])
    ends [] c h k = (k, tt)
    ends (d ∷ s) c h k = (h.0, ends s c h.1 k)
