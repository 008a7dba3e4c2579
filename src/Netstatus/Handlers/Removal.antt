-- ===== src/Netstatus/Handlers/Removal.antt =====
-- Who is sent a change of netstatus/netstatus.go after `Notify` and `Stop`.
use nextdns.Prelude.{
  List, Option, [], ap, arith, if◌then◌else◌, none, refl, some, some_inj, sym, ℕ, ◌++◌, ◌+◌, ◌==◌,
  ◌∙◌, ◌∷◌, ◌≡◌,
}
use mathlib.Core.Path.{ap}
use nextdns.Netstatus.Handlers.{
  Handlers, broadcast, left_with, notify, receivers, stop, subscribe, unsubscribe, without,
}

-- How often a channel is in a list
unfoldable pub count : ℕ → List ℕ → ℕ
count d [] = 0
count d (x ∷ xs) = if d == x then count d xs + 1 else count d xs

count-append_one :
    (d c : ℕ) (cs : List ℕ) → count d (cs ++ c ∷ []) ≡ count d cs + (if d == c then 1 else 0)
unfolding count
count-append_one d c [] = ground arith
count-append_one d c (x ∷ xs) = let ih = count-append_one d c xs in ground arith

notify-broadcast :
    (d c : ℕ) (h : Handlers) (o : Option (List ℕ))
    → count d (receivers (subscribe c h o).channels)
      ≡ count d (receivers o) + (if d == c then 1 else 0)
unfolding count
notify-broadcast d c h none = ground arith
notify-broadcast d c h (some cs) = count-append_one d c cs

count-without :
    (d c : ℕ) (cs : List ℕ) → count d (without c cs) ≡ (if d == c then 0 else count d cs)
unfolding count without
count-without d c [] = ground arith
count-without d c (x ∷ xs) = let ih = count-without d c xs in ground arith

left_with-channels :
    (h : Handlers) (ys : List ℕ) (k : Option ℕ) → h.cancel ≡ k → (left_with h ys).channels ≡ some ys
left_with-channels h [] none p = rw p
left_with-channels h [] (some k) p = rw p
left_with-channels h (y ∷ ys) k p = refl

stop-broadcast :
    (d c : ℕ) (h : Handlers) (o : Option (List ℕ)) {v : Handlers}
    → unsubscribe c h o ≡ some v
    → count d (receivers v.channels) ≡ (if d == c then 0 else count d (receivers o))
stop-broadcast d c h none q = ground arith
stop-broadcast d c h (some []) q = ground arith
stop-broadcast d c h (some (x ∷ xs)) q =
    let ys = without c (x ∷ xs) in
    ap (λ w. count d (receivers w.channels)) (sym (some_inj q))
    ∙ ap (λ o. count d (receivers o)) (left_with-channels h ys h.cancel refl)
    ∙ count-without d c (x ∷ xs)

-- `Notify` adds one send of each change to its channel. A `Stop` that returns leaves none to its
-- channel, however often it was subscribed. Neither
-- alters how often another channel is sent it.
pub notify-stop-broadcast :
    (d c : ℕ) (h : Handlers) {v : Handlers}
    → stop c h ≡ some v
    → (count d (broadcast (notify c h)) ≡ count d (broadcast h) + (if d == c then 1 else 0))
      × (count d (broadcast v) ≡ (if d == c then 0 else count d (broadcast h)))
unfolding broadcast notify stop
notify-stop-broadcast d c h q =
    (notify-broadcast d c h h.channels, stop-broadcast d c h h.channels q)
