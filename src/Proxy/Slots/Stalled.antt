-- ===== src/Proxy/Slots/Stalled.antt =====
-- Clients that connect and send nothing, and the slots of proxy/tcp.go that they hold.
use nextdns.Prelude.{
  >>=-eq-some, All, Bool, List, [], ap, arith, false, get_elem?, ltb, some, some_inj, suc, sym,
  true, zero, ℕ, ◌++◌, ◌∙◌, ◌∷◌, ◌≡◌,
}
use mathlib.Core.Path.{subst}
use nextdns.Proxy.Slots.{
  Event, Phase, World, begins, brings, end_handler, fails, handled, run, skips, step, takes,
  waiting,
}
use nextdns.Proxy.Slots.Bounded.{IsCounted, readers, readers-append}

-- No read returns.
abbrev pub is_quiet : Event → Bool
is_quiet (brings i) = false
is_quiet (skips i) = false
is_quiet (fails i) = false
is_quiet _ = true

-- Every slot is held by a loop that reads, and loop `i` waits for one.
pub record IsStalled (i : ℕ) (w : World) : Type 0 where
  pub full : readers w.loops ≡ w.capacity
  pub used : w.used ≡ w.capacity
  pub no_handler : w.handlers ≡ 0
  pub waits : get_elem? w.loops i ≡ some waiting

append_waits :
    (ps : List Phase) (i : ℕ)
    → get_elem? ps i ≡ some waiting
    → get_elem? (ps ++ waiting ∷ []) i ≡ some waiting
append_waits [] i h = absurd (cc)
append_waits (p ∷ ps) zero h = h
append_waits (p ∷ ps) (suc i) h = append_waits ps i h

step-IsStalled :
    (i : ℕ) (w w' : World) (e : Event)
    → is_quiet e ≡ true
    → IsStalled i w
    → step w e ≡ some w'
    → IsStalled i w'
unfolding step
step-IsStalled i w w' begins q s h = subst (IsStalled i) (some_inj h) (record {
  full = omega (arith, s.full, readers-append w.loops (waiting ∷ []));
  used = s.used;
  no_handler = s.no_handler;
  waits = append_waits w.loops i s.waits;
})
step-IsStalled i w w' (takes j) q s h =
    let full : ltb w.used w.capacity ≡ false = ground (arith, s.used) in absurd (cc (rw full at h))
step-IsStalled i w w' (brings j) q s h = cc
step-IsStalled i w w' (skips j) q s h = cc
step-IsStalled i w w' (fails j) q s h = cc
step-IsStalled i w w' handled q s h =
    let none_left : end_handler w 0 ≡ some w' = ap (end_handler w) (sym s.no_handler) ∙ h in
    absurd (cc)

run-IsStalled :
    (i : ℕ) (w w' : World) (es : List Event)
    → All (λ e. is_quiet e ≡ true) es
    → IsStalled i w
    → run w es ≡ some w'
    → IsStalled i w'
unfolding run
run-IsStalled i w w' [] q s h = subst (IsStalled i) (some_inj h) s
run-IsStalled i w w' (e ∷ es) q s h =
    let (w1, e1, h') = >>=-eq-some (step w e) _ h in
    run-IsStalled i w1 w' es q.1 (step-IsStalled i w w1 e q.0 s e1) h'

-- Where loops that read hold every slot, and no read returns, a loop that waits goes on waiting,
-- whatever else happens: clients that connect over TCP and send nothing keep the socket of UDP from
-- being read.
pub run_stalled :
    (i : ℕ) (w w' : World) (es : List Event)
    → IsCounted w
    → readers w.loops ≡ w.capacity
    → get_elem? w.loops i ≡ some waiting
    → All (λ e. is_quiet e ≡ true) es
    → run w es ≡ some w'
    → get_elem? w'.loops i ≡ some waiting
run_stalled i w w' es c full at q h =
    (run-IsStalled i w w' es q
      (record {
        full = full;
        used = omega (arith, c.counted, c.bounded, full);
        no_handler = omega (arith, c.counted, c.bounded, full);
        waits = at;
      })
      h).waits
