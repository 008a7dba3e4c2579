-- ===== src/Neighbors/Refresh.antt =====
-- The refreshes of arp/cache.go and ndp/cache.go when many calls come at once.
use mathlib.Core.Path.{subst}
use nextdns.Prelude.{
  >>=-eq-some, All, Bool-cases, List, Option, [], arith, false, get_elem?, inl, inr, ltb, none,
  refl, some, some_inj, suc, sym, true, zero, ℕ, ◌++◌, ◌+◌, ◌-◌, ◌<◌, ◌==◌, ◌∙◌, ◌∷◌, ◌≡◌, ◌≤◌, ◌⊎◌,
}
use nextdns.Neighbors.{
  Cache, Call, Event, Table, check, checks, loads, refreshed, remove_at, run, step, stops,
  store_table, swap, swap_at, swaps,
}

-- All calls of a second load at the time `now`.
abbrev pub AtTime : ℕ → Event → Type 0
AtTime now (loads t) = t ≡ now
AtTime now _ = Unit

-- A call at `now` has loaded one of two times.
abbrev pub Loaded : ℕ → ℕ → ℕ → Call → Type 0
Loaded now a b k = (k.now ≡ now) × ((k.last ≡ a) ⊎ (k.last ≡ b))

-- Before the first swap all calls have loaded the time of the last update; behind it that is `now`.
pub data IsOnce (base now started : ℕ) (c : Cache) : Type 0 where
  before :
      c.last_update ≡ base
      → c.started ≡ started
      → All (Loaded now base base) c.calls
      → IsOnce base now started c
  behind :
      c.last_update ≡ now
      → base + 30 < now
      → c.started ≤ started + 1
      → All (Loaded now base now) c.calls
      → IsOnce base now started c

module _ (P : Call → Type 0) where
  All-append : (xs : List Call) (y : Call) → All P xs → P y → All P (xs ++ y ∷ [])
  All-append [] y h k = (k, tt)
  All-append (x ∷ xs) y h k = (h.0, All-append xs y h.1 k)

  All-remove_at : (xs : List Call) (i : ℕ) → All P xs → All P (remove_at xs i)
  unfolding remove_at
  All-remove_at [] i h = tt
  All-remove_at (x ∷ xs) zero h = h.1
  All-remove_at (x ∷ xs) (suc i) h = (h.0, All-remove_at xs i h.1)

  All-get_elem? : (xs : List Call) (i : ℕ) (y : Call) → All P xs → get_elem? xs i ≡ some y → P y
  All-get_elem? [] i y h e = absurd (cc)
  All-get_elem? (x ∷ xs) zero y h e = subst P (some_inj e) h.0
  All-get_elem? (x ∷ xs) (suc i) y h e = All-get_elem? xs i y h.1 e

widen : (base now : ℕ) (k : Call) → Loaded now base base k → Loaded now base now k
widen base now k (t, inl e) = (t, inl e)
widen base now k (t, inr e) = (t, inl e)

widen_all :
    (base now : ℕ) (ks : List Call) → All (Loaded now base base) ks → All (Loaded now base now) ks
widen_all base now [] h = tt
widen_all base now (k ∷ ks) h = (widen base now k h.0, widen_all base now ks h.1)

-- A swap of a call that was loaded, whatever calls are left.
swap_before :
    (base now started : ℕ) (c : Cache) (k : Call) (rest : List Call)
    → c.last_update ≡ base
    → c.started ≡ started
    → (k.now ≡ now) × (k.last ≡ base)
    → All (Loaded now base base) rest
    → IsOnce base now started (record (swap c k) { calls = rest })
swap_before base now started c k rest lu st (t, l) h = elim (Bool-cases (ltb 30 (k.now - k.last))) [
  | inr early ↦ before (rw early lu) (rw early st) h
  | inl due ↦
      let same : (c.last_update == k.last) ≡ true = ground (arith, lu, l) in
      behind (rw (due, same) t) (ground (arith, due, t, l)) (rw (due, same) (omega (arith, st)))
        (widen_all base now rest h)
]

swap_behind :
    (base now started : ℕ) (c : Cache) (k : Call) (rest : List Call)
    → c.last_update ≡ now
    → base + 30 < now
    → c.started ≤ started + 1
    → Loaded now base now k
    → All (Loaded now base now) rest
    → IsOnce base now started (record (swap c k) { calls = rest })
swap_behind base now started c k rest lu gap st (t, inl l) h =
    let due : ltb 30 (k.now - k.last) ≡ true = ground (arith, t, l, gap) in
    let other : (c.last_update == k.last) ≡ false = ground (arith, lu, l, gap) in
    behind (rw (due, other) t) gap (rw (due, other) st) h
swap_behind base now started c k rest lu gap st (t, inr l) h =
    let early : ltb 30 (k.now - k.last) ≡ false = ground (arith, t, l) in
    behind (rw early lu) gap (rw early st) h

either_base : (base last : ℕ) → (last ≡ base) ⊎ (last ≡ base) → last ≡ base
either_base base last (inl e) = e
either_base base last (inr e) = e

swap_at-IsOnce :
    (base now started i : ℕ) (c c' : Cache) (o : Option Call)
    → get_elem? c.calls i ≡ o
    → swap_at c i o ≡ some c'
    → IsOnce base now started c
    → IsOnce base now started c'
swap_at-IsOnce base now started i c c' none e h w = absurd (cc)
swap_at-IsOnce base now started i c c' (some k) e h (before lu st ks) =
    let (t, l) = All-get_elem? (Loaded now base base) c.calls i k ks e in
    subst (IsOnce base now started) (some_inj h) (
      swap_before base now started c k (remove_at c.calls i) lu st (t, either_base base k.last l)
        (All-remove_at (Loaded now base base) c.calls i ks))
swap_at-IsOnce base now started i c c' (some k) e h (behind lu gap st ks) =
    subst (IsOnce base now started) (some_inj h) (
      swap_behind base now started c k (remove_at c.calls i) lu gap st
        (All-get_elem? (Loaded now base now) c.calls i k ks e)
        (All-remove_at (Loaded now base now) c.calls i ks))

-- A step that leaves the times, the calls and the count.
kept_IsOnce :
    (base now started : ℕ) (c c' : Cache)
    → c'.last_update ≡ c.last_update
    → c'.started ≡ c.started
    → c'.calls ≡ c.calls
    → IsOnce base now started c
    → IsOnce base now started c'
kept_IsOnce base now started c c' u s k (before lu st ks) =
    before (u ∙ lu) (s ∙ st) (subst (All (Loaded now base base)) (sym k) ks)
kept_IsOnce base now started c c' u s k (behind lu gap st ks) =
    behind (u ∙ lu) gap (omega (arith, s, st)) (subst (All (Loaded now base now)) (sym k) ks)

-- What a refresh does leaves them.
abbrev Kept : Cache → Cache → Type 0
Kept c c' = (c'.last_update ≡ c.last_update) × (c'.started ≡ c.started) × (c'.calls ≡ c.calls)

Kept-of_path : (c x c' : Cache) → x ≡ c' → Kept c x → Kept c c'
Kept-of_path c x c' e k = subst (Kept c) e k

check-Kept : (c c' : Cache) (n : ℕ) → check c n ≡ some c' → Kept c c'
check-Kept c c' zero h = absurd (cc)
check-Kept c c' (suc n) h = elim (Bool-cases c.stopped) [
  | inl over ↦ Kept-of_path c _ c' (some_inj (rw over at h)) (refl, refl, refl)
  | inr on ↦ Kept-of_path c _ c' (some_inj (rw on at h)) (refl, refl, refl)
]

store_table-Kept : (c c' : Cache) (t : Table) (n : ℕ) → store_table c t n ≡ some c' → Kept c c'
store_table-Kept c c' t zero h = absurd (cc)
store_table-Kept c c' t (suc n) h = Kept-of_path c _ c' (some_inj h) (refl, refl, refl)

step-IsOnce :
    (base now started : ℕ) (c c' : Cache) (e : Event)
    → AtTime now e
    → step c e ≡ some c'
    → IsOnce base now started c
    → IsOnce base now started c'
unfolding step
step-IsOnce base now started c c' (loads t) same h (before lu st ks) =
    subst (IsOnce base now started) (some_inj h)
      (before lu st (All-append (Loaded now base base) c.calls _ ks (same, inl lu)))
step-IsOnce base now started c c' (loads t) same h (behind lu gap st ks) =
    subst (IsOnce base now started) (some_inj h)
      (behind lu gap st (All-append (Loaded now base now) c.calls _ ks (same, inr lu)))
step-IsOnce base now started c c' (swaps i) same h w =
    swap_at-IsOnce base now started i c c' (get_elem? c.calls i) refl h w
step-IsOnce base now started c c' checks same h w =
    let (u, s, k) = check-Kept c c' c.running h in kept_IsOnce base now started c c' u s k w
step-IsOnce base now started c c' (refreshed t) same h w =
    let (u, s, k) = store_table-Kept c c' t c.getting h in kept_IsOnce base now started c c' u s k w
step-IsOnce base now started c c' stops same h w =
    let (u, s, k) = Kept-of_path c _ c' (some_inj h) (refl, refl, refl) in
    kept_IsOnce base now started c c' u s k w

run-IsOnce :
    (base now started : ℕ) (c c' : Cache) (es : List Event)
    → All (AtTime now) es
    → run c es ≡ some c'
    → IsOnce base now started c
    → IsOnce base now started c'
unfolding run
run-IsOnce base now started c c' [] at h w = subst (IsOnce base now started) (some_inj h) w
run-IsOnce base now started c c' (e ∷ es) at h w =
    let (c1, e1, h') = >>=-eq-some (step c e) _ h in
    run-IsOnce base now started c1 c' es at.1 h' (step-IsOnce base now started c c1 e at.0 e1 w)

started_once :
    (base now started : ℕ) (c : Cache) → IsOnce base now started c → c.started ≤ started + 1
started_once base now started c (before lu st ks) = omega (arith, st)
started_once base now started c (behind lu gap st ks) = st

-- However many calls come within one second, and however their loads and swaps interleave with each
-- other and with refreshes that end, at most one refresh is started: the table of the host is not read
-- twice. No call stands between its load and its swap at the start.
pub run_once :
    (now : ℕ) (c c' : Cache) (es : List Event)
    → c.calls ≡ []
    → All (AtTime now) es
    → run c es ≡ some c'
    → c'.started ≤ c.started + 1
run_once now c c' es idle at h = started_once c.last_update now c.started c' (
    run-IsOnce c.last_update now c.started c c' es at h
      (before refl refl (subst (All (Loaded now c.last_update c.last_update)) (sym idle) tt)))
