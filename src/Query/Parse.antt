-- ===== src/Query/Parse.antt =====
-- The parser of queries, resolver/query/query.go: when it ends, and what it erases.
use nextdns.Prelude.{
  ==_iff, Bool-cases, Bytes, Option-cases, [], arith, false, get_elem?, get_elem?-set_ne,
  get_elem?-set_self, get_or, inl, inr, leb, length, length-set, ltb, none, refl, set, some, suc,
  sym, true, zero, ℕ, ◌+◌, ◌-◌, ◌<◌, ◌==◌, ◌||◌, ◌↔◌, ◌∙◌, ◌∷◌, ◌≡◌, ◌≢◌, ◌≤◌, ◌⊎◌,
}
use mathlib.Core.Path.{subst}
use nextdns.Query.{
  Additional, EdnsOption, Header, Parser, Query, Question, ResourceHeader, erase, found, malformed,
  nutter_ecs_option, parse, parse_additionals, section_done, type_opt, with_question, zero_range,
}

zero_range_outside :
    (n i : ℕ) (payload : Bytes) (j : ℕ)
    → (j < i) ⊎ (i + n ≤ j)
    → get_elem? (zero_range n i payload) j ≡ get_elem? payload j
zero_range_outside zero i payload j h = refl
zero_range_outside (suc n) i payload j h =
    zero_range_outside n (suc i) (set payload i 0) j (ground (arith, h))
    ∙ get_elem?-set_ne payload 0 (λ e. ground (arith, h, e))

zero_range_inside :
    (n i : ℕ) (payload : Bytes) (j : ℕ)
    → i + n ≤ length payload
    → i ≤ j
    → j < i + n
    → get_elem? (zero_range n i payload) j ≡ some 0
zero_range_inside zero i payload j h le lt = absurd (omega arith)
zero_range_inside (suc n) i payload j h le lt = elim (Bool-cases (i == j)) [
  | inl e ↦
      zero_range_outside n (suc i) (set payload i 0) j (inl (ground (arith, e)))
      ∙ subst (λ k. get_elem? (set payload i 0) k ≡ some 0) ((==_iff i j).0 e)
          (get_elem?-set_self payload i 0 (omega arith))
  | inr e ↦
      zero_range_inside n (suc i) (set payload i 0) j (omega (arith, length-set payload i 0))
        (ground (arith, e, le)) (omega arith)
]

length-zero_range : (n i : ℕ) (payload : Bytes) → length (zero_range n i payload) ≡ length payload
length-zero_range zero i payload = refl
length-zero_range (suc n) i payload =
    length-zero_range n (suc i) (set payload i 0) ∙ length-set payload i 0

-- What is left of an option whose code stands at `off` and whose content ends at `end`.
pub record IsErased (before after : Bytes) (off end : ℕ) : Type 0 where
  pub length-eq : length after ≡ length before
  pub code_high : get_elem? after off ≡ some 255
  pub code_low : get_elem? after (off + 1) ≡ some 255
  pub content_zero : (j : ℕ) → off + 4 ≤ j → j < end → get_elem? after j ≡ some 0
  pub rest :
      (j : ℕ)
      → (j < off) ⊎ ((off + 2 ≤ j) × (j < off + 4)) ⊎ (end ≤ j)
      → get_elem? after j ≡ get_elem? before j

erase-IsErased :
    (payload : Bytes) (off end : ℕ)
    → off + 4 ≤ end
    → end ≤ length payload
    → IsErased payload (erase payload off end) off end
erase-IsErased payload off end le lt = record {
  length-eq = length-set coded (off + 1) 255 ∙ length-set zeroed off 255 ∙ same;
  code_high =
      get_elem?-set_ne coded {i = off + 1} {j = off} 255 (λ e. omega (arith, e))
      ∙ get_elem?-set_self zeroed off 255 (omega (arith, same));
  code_low =
      get_elem?-set_self coded (off + 1) 255 (omega (arith, same, length-set zeroed off 255));
  content_zero = λ j h k.
      outside j (λ e. omega (arith, e)) (λ e. omega (arith, e))
      ∙ zero_range_inside (end - (off + 4)) (off + 4) payload j (omega arith) h (omega arith);
  rest = λ j h.
      outside j (λ e. ground (arith, e, h)) (λ e. ground (arith, e, h))
      ∙ zero_range_outside (end - (off + 4)) (off + 4) payload j (ground (arith, h));
}
  where
    zeroed : Bytes
    zeroed = zero_range (end - (off + 4)) (off + 4) payload

    coded : Bytes
    coded = set zeroed off 255

    outside :
        (j : ℕ) → off + 1 ≢ j → off ≢ j → get_elem? (set coded (off + 1) 255) j ≡ get_elem? zeroed j
    outside j ne ne' = get_elem?-set_ne coded 255 ne ∙ get_elem?-set_ne zeroed 255 ne'

    same : length zeroed ≡ length payload
    same = length-zero_range (end - (off + 4)) (off + 4) payload

get_or_of_get : (xs : Bytes) (i v : ℕ) → get_elem? xs i ≡ some v → get_or xs i 0 ≡ v
get_or_of_get [] i v h = cc
get_or_of_get (x ∷ xs) zero v h = cc
get_or_of_get (x ∷ xs) (suc i) v h = get_or_of_get xs i v h

-- An option of 1 to 255 bytes: its code becomes 0xFFFF and its content zeros, and nothing else of the
-- message changes, where it stands whole in the message; where it does not it is left alone.
pub nutter_ecs_option-IsErased :
    (payload : Bytes) (o : EdnsOption) (off size : ℕ)
    → o.data_offset ≡ off + 4
    → get_elem? payload (off + 2) ≡ some 0
    → get_elem? payload (off + 3) ≡ some size
    → 0 < size
    → (off + 4 + size ≤ length payload
        → IsErased payload (nutter_ecs_option payload o) off (off + 4 + size))
      × ((length payload < off + 4 + size) → nutter_ecs_option payload o ≡ payload)
unfolding nutter_ecs_option
nutter_ecs_option-IsErased payload o off size at short len some_content = (
  λ le.
      let e : nutter_ecs_option payload o ≡ erase payload off (off + 4 + size) =
        written (omega arith) le in
      subst (λ t. IsErased payload t off (off + 4 + size)) (sym e)
        (erase-IsErased payload off (off + 4 + size) (omega arith) le),
  kept,
)
  where
    byte : get_or payload (o.data_offset - 1) 0 ≡ size
    byte =
        let i : o.data_offset - 1 ≡ off + 3 = omega (arith, at) in
        rw i (get_or_of_get payload (off + 3) size len)

    written :
        off + 4 < length payload
        → off + 4 + size ≤ length payload
        → nutter_ecs_option payload o ≡ erase payload off (off + 4 + size)
    written lt le =
        let ok : (ltb o.data_offset 4 || leb (length payload) o.data_offset) ≡ false =
          ground (arith, at) in
        let ok' : ltb (length payload) (off + 4 + size) ≡ false = ground arith in
        let back : off + 4 - 4 ≡ off = omega arith in rw (ok, byte, at, ok', back)

    kept : length payload < off + 4 + size → nutter_ecs_option payload o ≡ payload
    kept lt =
        let no : ltb (length payload) (off + 4 + size) ≡ true = ground arith in
        elim (Bool-cases (ltb o.data_offset 4 || leb (length payload) o.data_offset)) [
          | inl e ↦ rw e
          | inr e ↦ rw (e, byte, at, no)
        ]

-- The message whose first additional record is not an OPT record.
module _ (p : Parser) where
  open p use {
    State, start, question, skip_to_additionals, additional_header, additional_header-again,
  }

  abbrev pub Stuck : Bytes → Type 0
  Stuck payload =
      (h : Header) × (s : State) × (x : Question) × (t : State) × (r : ResourceHeader) × (u : State)
      × (start payload ≡ some (h, s))
      × (question s ≡ some (x, t))
      × (additional_header (skip_to_additionals t) ≡ found r u)
      × (r.rtype ≢ type_opt)

  -- One round of the loop decides: it returns, or no number of rounds is enough.
  stuck_for_ever :
      (fuel : ℕ) (s s' : State) (r : ResourceHeader) (q : Query)
      → additional_header s ≡ found r s'
      → r.rtype ≢ type_opt
      → parse_additionals p fuel s q ≡ none
  unfolding parse_additionals
  stuck_for_ever zero s s' r q e ne = refl
  stuck_for_ever (suc fuel) s s' r q e ne =
      let no : (r.rtype == type_opt) ≡ false = ground (arith, ne) in
      rw (e, no) (stuck_for_ever fuel s' s' r q (additional_header-again s s' r e) ne)

  Additional-cases :
      (a : Additional State)
      → (a ≡ section_done)
        ⊎ (a ≡ malformed)
        ⊎ ((r : ResourceHeader) × (u : State) × (a ≡ found r u))
  Additional-cases section_done = inl refl
  Additional-cases malformed = inr (inl refl)
  Additional-cases (found r u) = inr (inr (r, u, refl))

  loop_diverges_iff :
      (fuel : ℕ) (s : State) (q : Query)
      → (parse_additionals p (suc fuel) s q ≡ none) ↔ (
          (r : ResourceHeader) × (u : State) × (additional_header s ≡ found r u)
          × (r.rtype ≢ type_opt))
  unfolding parse_additionals
  loop_diverges_iff fuel s q = (
    from (Additional-cases (additional_header s)),
    λ (r, u, e, ne). stuck_for_ever (suc fuel) s u r q e ne,
  )
    where
      from :
          (additional_header s ≡ section_done)
            ⊎ (additional_header s ≡ malformed)
            ⊎ ((r : ResourceHeader) × (u : State) × (additional_header s ≡ found r u))
          → parse_additionals p (suc fuel) s q ≡ none
          → (r : ResourceHeader) × (u : State) × (additional_header s ≡ found r u)
            × (r.rtype ≢ type_opt)
      from (inl e) h = absurd (cc (rw e at h))
      from (inr (inl e)) h = absurd (cc (rw e at h))
      from (inr (inr (r, u, e))) h = (
        r,
        u,
        e,
        λ opt.
            let yes : (r.rtype == type_opt) ≡ true = ground (arith, opt) in cc (rw (e, yes) at h),
      )

  -- The parser never returns on a message with a question whose first additional record is not an
  -- OPT record, and returns on every other within one round.
  pub parse_diverges_iff : (fuel : ℕ) (q : Query) → (parse p (suc fuel) q ≡ none) ↔ Stuck q.payload
  unfolding parse
  parse_diverges_iff fuel q = (from, to)
    where
      from : parse p (suc fuel) q ≡ none → Stuck q.payload
      from d = elim (Option-cases (start q.payload)) [
        | inl e ↦ absurd (cc (rw e at d))
        | inr ((h, s), e) ↦ elim (Option-cases (question s)) [
          | inl e' ↦ absurd (cc (rw (e, e') at d))
          | inr ((x, t), e') ↦
              let (r, u, e'', ne) =
                (loop_diverges_iff fuel (skip_to_additionals t) (with_question p q h x)).0
                  (rw (e, e') at d) in
              (h, s, x, t, r, u, e, e', e'', ne)
        ]
      ]

      to : Stuck q.payload → parse p (suc fuel) q ≡ none
      to (h, s, x, t, r, u, e, e', e'', ne) =
          rw (e, e')
            (stuck_for_ever (suc fuel) (skip_to_additionals t) u r (with_question p q h x) e'' ne)
