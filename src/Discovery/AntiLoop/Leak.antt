-- ===== src/Discovery/AntiLoop/Leak.antt =====
-- What the anti-loop guard of discovery/dns.go promises, and where it does not hold.
use nextdns.Prelude.{
  Bool-cases, Bytes, List, [], arith, bytes_eq, bytes_eq_refl, false, inl, inr, refl, sym, true,
  ◌∙◌, ◌∷◌, ◌≡◌, ◌≤◌,
}
use mathlib.Core.Path.{ap, subst}
use nextdns.Discovery.AntiLoop.{
  Reach, World, acquire, acquire_by, arrive, arrive_by, arrives, calls_of, gives_up, has_key, here,
  more, release, return_refused,
}

has_key-release : (ks : List Bytes) (key : Bytes) → has_key (release ks key) key ≡ false
unfolding release
has_key-release [] key = refl
has_key-release (k ∷ ks) key = elim (Bool-cases (bytes_eq k key)) [
  | inl e ↦ rw e (has_key-release ks key)
  | inr e ↦ rw e (rw e (has_key-release ks key))
]

runs :
    (w : World) (key : Bytes)
    → has_key w.acquired key ≡ false
    → arrive w key ≡ record w { acquired = key ∷ w.acquired; running = key ∷ w.running }
unfolding arrive acquire
runs w key free = ap (λ b. arrive_by w key (acquire_by b w.acquired key)) free

-- While a call that holds the key runs, a second one is refused, and its return frees the key: a third
-- call then runs beside the first.
pub run_single_leaks :
    (w : World) (key : Bytes)
    → has_key w.acquired key ≡ true
    → has_key w.running key ≡ true
    → (v : World) × Reach w v × (v.running ≡ key ∷ w.running) × (2 ≤ calls_of v.running key)
unfolding arrive acquire return_refused
run_single_leaks w key held runs_one = (
  arrive (return_refused (arrive w key) key) key,
  path,
  ap (λ x. x.running) (runs (return_refused (arrive w key) key) key free) ∙ kept,
  two _ (ap (λ x. x.running) (runs (return_refused (arrive w key) key) key free) ∙ kept),
)
  where
    calls_of-pos : (ks : List Bytes) → has_key ks key ≡ true → 1 ≤ calls_of ks key
    calls_of-pos [] h = absurd cc
    calls_of-pos (k ∷ ks) h = ground (arith, h, calls_of-pos ks)

    two : (ks : List Bytes) → ks ≡ key ∷ w.running → 2 ≤ calls_of ks key
    two ks e =
        subst (λ x. 2 ≤ calls_of x key) (sym e)
          (ground (arith, bytes_eq_refl key, calls_of-pos w.running runs_one))

    refused : arrive w key ≡ record w { refused = key ∷ w.refused }
    refused = ap (λ b. arrive_by w key (acquire_by b w.acquired key)) held

    kept : key ∷ (return_refused (arrive w key) key).running ≡ key ∷ w.running
    kept = ap (λ v. key ∷ v.running) refused

    free : has_key (return_refused (arrive w key) key).acquired key ≡ false
    free = has_key-release (arrive w key).acquired key

    waits : has_key (arrive w key).refused key ≡ true
    waits = ap (λ v. has_key v.refused key) refused ∙ ground (arith, bytes_eq_refl key)

    path : Reach w (arrive (return_refused (arrive w key) key) key)
    path = more w (arrive w key) _ (arrives w key) (
        more (arrive w key) (return_refused (arrive w key) key) _
          (gives_up (arrive w key) key waits)
          (more (return_refused (arrive w key) key) (arrive (return_refused (arrive w key) key) key)
            _ (arrives (return_refused (arrive w key) key) key)
            (here (arrive (return_refused (arrive w key) key) key))))
