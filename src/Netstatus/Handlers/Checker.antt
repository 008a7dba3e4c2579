-- ===== src/Netstatus/Handlers/Checker.antt =====
-- The checker of netstatus/netstatus.go over a sequence of `Notify` and `Stop`.
use nextdns.Prelude.{
  List, Option, [], arith, none, refl, some, some_inj, sym, ℕ, ◌++◌, ◌∷◌, ◌≡◌, ◌≢◌,
}
use nextdns.Netstatus.Handlers.{
  Handlers, Reach, Step, here, left_with, next, notifies, notify, stop, stops, unused, without,
}
use mathlib.Core.Path.{subst}

-- The three phases: nobody has subscribed yet, one checker serves somebody, and it is over.
pub data Phase : Option (List ℕ) → Option ℕ → List ℕ → Type 0 where
  before : Phase none none []
  checking : (c : ℕ) (cs : List ℕ) (k : ℕ) → Phase (some (c ∷ cs)) (some k) (k ∷ [])
  over : (cs : List ℕ) → Phase (some cs) none []

abbrev pub IsPhased : Handlers → Type 0
IsPhased h = Phase h.channels h.cancel h.live

notify-IsPhased :
    (c n : ℕ) {o : Option (List ℕ)} {k : Option ℕ} {l : List ℕ}
    → Phase o k l
    → IsPhased (notify c (record { channels = o; cancel = k; live = l; contexts = n }))
unfolding notify
notify-IsPhased c n before = checking c [] n
notify-IsPhased c n (checking d cs k) = checking d (cs ++ c ∷ []) k
notify-IsPhased c n (over cs) = over (cs ++ c ∷ [])

without_self : (k : ℕ) → without k (k ∷ []) ≡ []
unfolding without
without_self k = ground arith

left_with-IsPhased :
    (n d k : ℕ) (cs ys : List ℕ)
    → IsPhased (
        left_with
          (record { channels = some (d ∷ cs); cancel = some k; live = k ∷ []; contexts = n })
          ys)
left_with-IsPhased n d k cs [] = subst (Phase (some []) none) (sym (without_self k)) (over [])
left_with-IsPhased n d k cs (y ∷ ys) = checking y ys k

left_with-over :
    (n : ℕ) (cs ys : List ℕ)
    → IsPhased
        (left_with (record { channels = some cs; cancel = none; live = []; contexts = n }) ys)
left_with-over n cs [] = over []
left_with-over n cs (y ∷ ys) = over (y ∷ ys)

stop-IsPhased :
    (c n : ℕ) {o : Option (List ℕ)} {k : Option ℕ} {l : List ℕ} {v : Handlers}
    → Phase o k l
    → stop c (record { channels = o; cancel = k; live = l; contexts = n }) ≡ some v
    → IsPhased v
unfolding stop
stop-IsPhased c n before h = ground arith
stop-IsPhased c n (checking d cs k) h =
    subst IsPhased (some_inj h) (left_with-IsPhased n d k cs (without c (d ∷ cs)))
stop-IsPhased c n (over []) h = ground arith
stop-IsPhased c n (over (d ∷ cs)) h =
    subst IsPhased (some_inj h) (left_with-over n (d ∷ cs) (without c (d ∷ cs)))

Step-IsPhased : {u v : Handlers} → Step u v → IsPhased u → IsPhased v
Step-IsPhased (notifies c h) p = notify-IsPhased c h.contexts p
Step-IsPhased (stops c {h} q) p = stop-IsPhased c h.contexts p q

-- However often `Notify` and `Stop` were called, either nobody has subscribed, or the one live
-- context is that of `cancel` and somebody is subscribed, or none is live and `cancel` is nil.
pub Reach-IsPhased : {v : Handlers} → Reach unused v → IsPhased v
Reach-IsPhased here = before
Reach-IsPhased (next r st) = Step-IsPhased st (Reach-IsPhased r)

-- Somebody has subscribed once, and no context is live.
data Ended : Option (List ℕ) → Option ℕ → List ℕ → Type 0 where
  ended : (cs : List ℕ) → Ended (some cs) none []

abbrev IsEnded : Handlers → Type 0
IsEnded h = Ended h.channels h.cancel h.live

notify-IsEnded :
    (c n : ℕ) {o : Option (List ℕ)} {k : Option ℕ} {l : List ℕ}
    → Ended o k l
    → IsEnded (notify c (record { channels = o; cancel = k; live = l; contexts = n }))
unfolding notify
notify-IsEnded c n (ended cs) = ended (cs ++ c ∷ [])

left_with-IsEnded :
    (n : ℕ) (cs ys : List ℕ)
    → IsEnded (left_with (record { channels = some cs; cancel = none; live = []; contexts = n }) ys)
left_with-IsEnded n cs [] = ended []
left_with-IsEnded n cs (y ∷ ys) = ended (y ∷ ys)

stop-IsEnded :
    (c n : ℕ) {o : Option (List ℕ)} {k : Option ℕ} {l : List ℕ} {v : Handlers}
    → Ended o k l
    → stop c (record { channels = o; cancel = k; live = l; contexts = n }) ≡ some v
    → IsEnded v
unfolding stop
stop-IsEnded c n (ended []) h = ground arith
stop-IsEnded c n (ended (d ∷ cs)) h =
    subst IsEnded (some_inj h) (left_with-IsEnded n (d ∷ cs) (without c (d ∷ cs)))

Step-IsEnded : {u v : Handlers} → Step u v → IsEnded u → IsEnded v
Step-IsEnded (notifies c h) p = notify-IsEnded c h.contexts p
Step-IsEnded (stops c {h} q) p = stop-IsEnded c h.contexts p q

Reach-IsEnded : {u v : Handlers} → IsEnded u → Reach u v → IsEnded v
Reach-IsEnded e here = e
Reach-IsEnded e (next r st) = Step-IsEnded st (Reach-IsEnded e r)

Phase-Ended :
    {o : Option (List ℕ)} {k : Option ℕ} {l : List ℕ} → Phase o k l → o ≡ some [] → Ended o k l
Phase-Ended before e = ground arith
Phase-Ended (checking d cs k) e = ground arith
Phase-Ended (over cs) e = ended cs

Ended-live :
    {o : Option (List ℕ)} {k : Option ℕ} {l : List ℕ}
    → Ended o k l
    → (o ≢ none) × (k ≡ none) × (l ≡ [])
Ended-live (ended cs) = (ground arith, refl, refl)

-- Once a `Stop` has removed the last channel, no later calls start a checker: whoever subscribes
-- then, `cancel` stays nil and no context is live.
pub stop_final :
    (c : ℕ) {h v u : Handlers}
    → Reach unused h
    → stop c h ≡ some v
    → v.channels ≡ some []
    → Reach v u
    → (u.channels ≢ none) × (u.cancel ≡ none) × (u.live ≡ [])
stop_final c r q e r' =
    Ended-live (Reach-IsEnded (Phase-Ended (Step-IsPhased (stops c q) (Reach-IsPhased r)) e) r')
