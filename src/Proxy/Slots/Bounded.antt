-- ===== src/Proxy/Slots/Bounded.antt =====
-- The handlers that run at once, in proxy/udp.go and proxy/tcp.go.
use nextdns.Prelude.{
  >>=-eq-some, Bool-cases, List, Option, [], ap, arith, get_elem?, inl, inr, ltb, none, refl, set,
  some, some_inj, suc, sym, true, zero, ℕ, ◌++◌, ◌+◌, ◌∙◌, ◌∷◌, ◌≡◌, ◌≤◌,
}
use mathlib.Core.Path.{subst}
use nextdns.Proxy.Slots.{
  Event, Phase, World, begins, brings, ended, end_handler, fails, handled, idle, move, move_from,
  reading, release, run, same_phase, skips, step, takes, waiting,
}

abbrev pub holds : Phase → ℕ
holds waiting = 0
holds reading = 1
holds ended = 0

abbrev pub readers : List Phase → ℕ
readers [] = 0
readers (p ∷ ps) = holds p + readers ps

-- Every slot in use is held by one loop that reads or one handler that runs.
pub record IsCounted (w : World) : Type 0 where
  pub counted : w.used ≡ readers w.loops + w.handlers
  pub bounded : w.used ≤ w.capacity

pub readers-append : (ps qs : List Phase) → readers (ps ++ qs) ≡ readers ps + readers qs
readers-append [] qs = omega arith
readers-append (p ∷ ps) qs = omega (arith, readers-append ps qs)

pub readers-set :
    (ps : List Phase) (i : ℕ) (p q : Phase)
    → get_elem? ps i ≡ some p
    → readers (set ps i q) + holds p ≡ readers ps + holds q
readers-set [] i p q h = absurd (cc)
readers-set (x ∷ ps) zero p q h = let same : x ≡ p = cc in omega (arith, ap holds same)
readers-set (x ∷ ps) (suc i) p q h = omega (arith, readers-set ps i p q h)

same_phase_eq : (p q : Phase) → same_phase p q ≡ true → p ≡ q
same_phase_eq waiting waiting h = refl
same_phase_eq reading reading h = refl
same_phase_eq ended ended h = refl
same_phase_eq waiting reading h = cc
same_phase_eq waiting ended h = cc
same_phase_eq reading waiting h = cc
same_phase_eq reading ended h = cc
same_phase_eq ended waiting h = cc
same_phase_eq ended reading h = cc

-- What a move says: the loop was where it moves from.
pub move_eq :
    (w w' : World) (i : ℕ) (p q : Phase)
    → move w i p q ≡ some w'
    → (get_elem? w.loops i ≡ some p) × (record w { loops = set w.loops i q } ≡ w')
move_eq w w' i p q h = from (get_elem? w.loops i) refl h
  where
    from :
        (o : Option Phase)
        → get_elem? w.loops i ≡ o
        → move_from w i p q o ≡ some w'
        → (get_elem? w.loops i ≡ some p) × (record w { loops = set w.loops i q } ≡ w')
    from none e h' = absurd (cc)
    from (some x) e h' = elim (Bool-cases (same_phase x p)) [
      | inl s ↦ (e ∙ ap some (same_phase_eq x p s), some_inj (rw s at h'))
      | inr s ↦ absurd (cc (rw s at h'))
    ]

-- The counts of a world that is described.
IsCounted-of_path :
    (w w' : World)
    → w ≡ w'
    → w.used ≡ readers w.loops + w.handlers
    → w.used ≤ w.capacity
    → IsCounted w' × (w'.capacity ≡ w.capacity)
IsCounted-of_path w w' e counted bounded = (
  subst IsCounted e (record { counted = counted; bounded = bounded }),
  ap (λ (x : World). x.capacity) (sym e),
)

step-IsCounted :
    (w w' : World) (e : Event)
    → IsCounted w
    → step w e ≡ some w'
    → IsCounted w' × (w'.capacity ≡ w.capacity)
unfolding step
step-IsCounted w w' begins c h =
    IsCounted-of_path (record w { loops = w.loops ++ waiting ∷ [] }) w' (some_inj h)
      (omega (arith, c.counted, readers-append w.loops (waiting ∷ []))) c.bounded
step-IsCounted w w' (takes i) c h = elim (Bool-cases (ltb w.used w.capacity)) [
  | inr full ↦ absurd (cc (rw full at h))
  | inl room ↦
      let (at, e) = move_eq (record w { used = w.used + 1 }) w' i waiting reading (rw room at h) in
      IsCounted-of_path (record w { used = w.used + 1; loops = set w.loops i reading }) w' e
        (omega (arith, c.counted, readers-set w.loops i waiting reading at)) (ground (arith, room))
]
step-IsCounted w w' (brings i) c h =
    let (w1, e, h') = >>=-eq-some (move w i reading waiting) _ h in
    let (at, e1) = move_eq w w1 i reading waiting e in
    IsCounted-of_path (record w { loops = set w.loops i waiting; handlers = w.handlers + 1 }) w'
      (ap (λ (x : World). record x { handlers = x.handlers + 1 }) e1 ∙ some_inj h')
      (omega (arith, c.counted, readers-set w.loops i reading waiting at)) c.bounded
step-IsCounted w w' (skips i) c h =
    let (w1, e, h') = >>=-eq-some (move w i reading waiting) _ h in
    let (at, e1) = move_eq w w1 i reading waiting e in
    IsCounted-of_path (release (record w { loops = set w.loops i waiting })) w'
      (ap release e1 ∙ some_inj h')
      (omega (arith, c.counted, readers-set w.loops i reading waiting at))
      (omega (arith, c.bounded))
step-IsCounted w w' (fails i) c h =
    let (w1, e, h') = >>=-eq-some (move w i reading ended) _ h in
    let (at, e1) = move_eq w w1 i reading ended e in
    IsCounted-of_path (release (record w { loops = set w.loops i ended })) w'
      (ap release e1 ∙ some_inj h')
      (omega (arith, c.counted, readers-set w.loops i reading ended at)) (omega (arith, c.bounded))
step-IsCounted w w' handled c h = handled_one w.handlers refl h
  where
    handled_one :
        (n : ℕ)
        → w.handlers ≡ n
        → end_handler w n ≡ some w'
        → IsCounted w' × (w'.capacity ≡ w.capacity)
    handled_one zero e h' = absurd (cc)
    handled_one (suc n) e h' =
        IsCounted-of_path (release (record w { handlers = n })) w' (some_inj h')
          (omega (arith, c.counted, e)) (omega (arith, c.bounded))

run-IsCounted :
    (w w' : World) (es : List Event)
    → IsCounted w
    → run w es ≡ some w'
    → IsCounted w' × (w'.capacity ≡ w.capacity)
unfolding run
run-IsCounted w w' [] c h = IsCounted-of_path w w' (some_inj h) c.counted c.bounded
run-IsCounted w w' (e ∷ es) c h =
    let (w1, e1, h') = >>=-eq-some (step w e) _ h in
    let (c1, same) = step-IsCounted w w1 e c e1 in
    let (c', same') = run-IsCounted w1 w' es c1 h' in (c', same' ∙ same)

-- From the start, in every order of events, each slot that is taken is held by one loop that reads or
-- by one handler that runs, and there are at most as many as `MaxInflightRequests` says: so are the
-- handlers that run at once.
pub run_bounded :
    (capacity : ℕ) (w : World) (es : List Event)
    → run (idle capacity) es ≡ some w
    → (w.used ≡ readers w.loops + w.handlers) × (w.handlers ≤ capacity)
run_bounded capacity w es h =
    let (c, same) =
      run-IsCounted (idle capacity) w es (record { counted = omega arith; bounded = omega arith })
        h in
    (c.counted, omega (arith, c.counted, c.bounded, same))
