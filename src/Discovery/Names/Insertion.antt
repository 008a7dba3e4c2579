-- ===== src/Discovery/Names/Insertion.antt =====
-- `appendUniq` of discovery/util.go with one value.
use nextdns.Prelude.{
  Bool-cases, Bytes, List, [], arith, false, get_elem?, get_elem?-set_ne, get_elem?-set_self,
  get_or, inl, inr, length, length-append, length-set, ltb, refl, set, some, suc, sym, take,
  take_front, zero, ℕ, ◌++◌, ◌+◌, ◌-◌, ◌/◌, ◌<◌, ◌∙◌, ◌∷◌, ◌≡◌, ◌≢◌, ◌≤◌,
}
use mathlib.Core.Path.{ap}
use nextdns.Discovery.Names.{
  append_uniq, append_uniq_from, insert_at, is_at, search_from, search_strings, shift_from,
  string_lt,
}

search_from-le :
    (fuel : ℕ) (ss : List Bytes) (x : Bytes) (i j : ℕ) → i ≤ j → search_from fuel ss x i j ≤ j
unfolding search_from
search_from-le zero ss x i j h = h
search_from-le (suc fuel) ss x i j h = elim (Bool-cases (ltb i j)) [
  | inr done ↦ rw done h
  | inl more ↦ elim (Bool-cases (string_lt (get_or ss ((i + j) / 2) []) x)) [
    | inl up ↦ rw (more, up) (search_from-le fuel ss x ((i + j) / 2 + 1) j (ground arith))
    | inr down ↦
        rw (more, down) (omega (arith, search_from-le fuel ss x i ((i + j) / 2) (omega arith)))
  ]
]

-- A round for each place between the two bounds is enough.
search_from_enough :
    (fuel : ℕ) (ss : List Bytes) (x : Bytes) (i j : ℕ)
    → j - i ≤ fuel
    → search_from (suc fuel) ss x i j ≡ search_from fuel ss x i j
unfolding search_from
search_from_enough zero ss x i j h = let done : ltb i j ≡ false = ground arith in rw done
search_from_enough (suc fuel) ss x i j h = elim (Bool-cases (ltb i j)) [
  | inr done ↦ rw done
  | inl more ↦ elim (Bool-cases (string_lt (get_or ss ((i + j) / 2) []) x)) [
    | inl up ↦ rw (more, up) (search_from_enough fuel ss x ((i + j) / 2 + 1) j (ground arith))
    | inr down ↦ rw (more, down) (search_from_enough fuel ss x i ((i + j) / 2) (ground arith))
  ]
]

search_strings-le : (ss : List Bytes) (x : Bytes) → search_strings ss x ≤ length ss
unfolding search_strings
search_strings-le ss x = search_from-le (length ss) ss x 0 (length ss) (omega arith)

shift_from-start : (ss : List Bytes) → shift_from 0 (ss ++ [] ∷ []) ≡ get_or ss 0 [] ∷ ss
shift_from-start [] = refl
shift_from-start (s ∷ ss) =
    let n : length (s ∷ ss ++ [] ∷ []) - 1 ≡ length (s ∷ ss) =
      omega (arith, length-append ss ([] ∷ [])) in
    ap (λ k. s ∷ take k (s ∷ ss ++ [] ∷ [])) n ∙ ap (◌∷◌ s) (take_front (s ∷ ss) ([] ∷ []))

-- A value that the search does not find is written at the place of the search, and the set has one
-- element more. The other places behind the first hold the elements, each moved by one place from the
-- start of the set, and not from the place of the value: the element in front of that place is
-- overwritten. The first element also stays where it was, unless the value is written there.
pub append_uniq_one :
    (ss : List Bytes) (x : Bytes)
    → is_at (get_elem? ss (search_strings ss x)) x ≡ false
    → (get_elem? (append_uniq ss (x ∷ [])) (search_strings ss x) ≡ some x)
      × (length (append_uniq ss (x ∷ [])) ≡ suc (length ss))
      × ((j : ℕ)
          → suc j ≢ search_strings ss x
          → j < length ss
          → get_elem? (append_uniq ss (x ∷ [])) (suc j) ≡ get_elem? ss j)
      × (0 < search_strings ss x → get_elem? (append_uniq ss (x ∷ [])) 0 ≡ get_elem? ss 0)
unfolding append_uniq append_uniq_from insert_at
append_uniq_one ss x new = (
  rw whole (get_elem?-set_self shifted (search_strings ss x) x (omega (arith, le))),
  rw whole (length-set shifted (search_strings ss x) x),
  λ j ne lt. rw whole (get_elem?-set_ne shifted x (λ e. ne (sym e))),
  λ pos.
      rw whole (get_elem?-set_ne shifted x (λ e. omega (arith, e)) ∙ head ss (omega (arith, le))),
)
  where
    shifted : List Bytes
    shifted = get_or ss 0 [] ∷ ss

    le : search_strings ss x ≤ length ss
    le = search_strings-le ss x

    whole : append_uniq ss (x ∷ []) ≡ set shifted (search_strings ss x) x
    whole = rw new (ap (λ t. set t (search_strings ss x) x) (shift_from-start ss))

    head : (ss : List Bytes) → 0 < length ss → some (get_or ss 0 []) ≡ get_elem? ss 0
    head [] lt = absurd (omega arith)
    head (s ∷ ss) lt = refl
