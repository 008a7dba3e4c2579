-- ===== src/Netstatus/Handlers.antt =====
-- netstatus/netstatus.go: who is told of a change, and the goroutine that looks for changes. A
-- channel and a context are known by a number. A call holds the lock of the handlers, so calls come
-- one after the other.
pub mod Checker
pub mod Removal
use nextdns.Prelude.{List, Option, [], if◌then◌else◌, none, some, ℕ, ◌++◌, ◌+◌, ◌==◌, ◌∷◌, ◌≡◌}

-- `handlers.c`, nil as `none`, and `cancel`; `live` are the contexts that are not cancelled, and
-- `contexts` counts those that were made.
pub record Handlers : Type 0 where
  pub channels : Option (List ℕ)
  pub cancel : Option ℕ
  pub live : List ℕ
  pub contexts : ℕ

abbrev pub unused : Handlers
unused = record { channels = none; cancel = none; live = []; contexts = 0 }

-- The elements that differ from one, in their order
unfoldable pub without : ℕ → List ℕ → List ℕ
without c [] = []
without c (x ∷ xs) = if x == c then without c xs else x ∷ without c xs

-- A new context takes the place of `cancel`, and a checker starts under it.
abbrev pub start_checker : Handlers → Handlers
start_checker h = record h {
  cancel = some h.contexts;
  live = h.contexts ∷ h.live;
  contexts = h.contexts + 1;
}

abbrev pub subscribe : ℕ → Handlers → Option (List ℕ) → Handlers
subscribe c h none = record (start_checker h) { channels = some (c ∷ []) }
subscribe c h (some cs) = record h { channels = some (cs ++ c ∷ []) }

unfoldable pub notify : ℕ → Handlers → Handlers
notify c h = subscribe c h h.channels

-- `cancel()`, behind the test for nil
abbrev pub cancel_checker : Handlers → Option ℕ → Handlers
cancel_checker h none = h
cancel_checker h (some k) = record h { cancel = none; live = without k h.live }

abbrev pub left_with : Handlers → List ℕ → Handlers
left_with h [] = cancel_checker (record h { channels = some [] }) h.cancel
left_with h (c ∷ cs) = record h { channels = some (c ∷ cs) }

-- `make` panics at the capacity -1.
abbrev pub unsubscribe : ℕ → Handlers → Option (List ℕ) → Option Handlers
unsubscribe c h none = none
unsubscribe c h (some []) = none
unsubscribe c h (some (x ∷ xs)) = some (left_with h (without c (x ∷ xs)))

unfoldable pub stop : ℕ → Handlers → Option Handlers
stop c h = unsubscribe c h h.channels

abbrev pub receivers : Option (List ℕ) → List ℕ
receivers none = []
receivers (some cs) = cs

-- The channels that `broadcast` sends a change to, one after the other
unfoldable pub broadcast : Handlers → List ℕ
broadcast h = receivers h.channels

-- The calls, and what they come to.
pub data Step : Handlers → Handlers → Type 0 where
  notifies : (c : ℕ) (h : Handlers) → Step h (notify c h)
  stops : (c : ℕ) {h h' : Handlers} → stop c h ≡ some h' → Step h h'

pub data Reach (h : Handlers) : Handlers → Type 0 where
  here : Reach h h
  next : {u v : Handlers} → Reach h u → Step u v → Reach h v
