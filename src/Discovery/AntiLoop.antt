-- ===== src/Discovery/AntiLoop.antt =====
-- discovery/semaphore.go and `runSingle` of discovery/dns.go: the guard against DNS loops. A call of
-- `runSingle` is split where it leaves the lock: `Step` interleaves the calls.
pub mod Leak
use nextdns.Prelude.{
  Bool, Bytes, List, [], bytes_eq, false, if◌then◌else◌, suc, ℕ, true, ◌||◌, ◌∷◌, ◌≡◌,
}

-- The keys of `semaphoreMap`, and the calls of `f` in flight.
pub record World : Type 0 where
  pub acquired : List Bytes
  pub running : List Bytes
  pub refused : List Bytes

abbrev pub has_key : List Bytes → Bytes → Bool
has_key [] key = false
has_key (k ∷ ks) key = bytes_eq k key || has_key ks key

-- `Acquire`
abbrev pub acquire_by : Bool → List Bytes → Bytes → Bool × List Bytes
acquire_by true ks key = (false, ks)
acquire_by false ks key = (true, key ∷ ks)

unfoldable pub acquire : List Bytes → Bytes → Bool × List Bytes
acquire ks key = acquire_by (has_key ks key) ks key

-- `Release`
unfoldable pub release : List Bytes → Bytes → List Bytes
release [] key = []
release (k ∷ ks) key = if bytes_eq k key then release ks key else k ∷ release ks key

-- One call leaves the calls of its kind.
abbrev pub leave : List Bytes → Bytes → List Bytes
leave [] key = []
leave (k ∷ ks) key = if bytes_eq k key then ks else k ∷ leave ks key

abbrev pub calls_of : List Bytes → Bytes → ℕ
calls_of [] key = 0
calls_of (k ∷ ks) key = if bytes_eq k key then suc (calls_of ks key) else calls_of ks key

-- A call arrives and runs `f`, or is refused; both release the key when they return.
abbrev pub arrive_by : World → Bytes → Bool × List Bytes → World
arrive_by w key (true, ks) = record w { acquired = ks; running = key ∷ w.running }
arrive_by w key (false, ks) = record w { acquired = ks; refused = key ∷ w.refused }

unfoldable pub arrive : World → Bytes → World
arrive w key = arrive_by w key (acquire w.acquired key)

unfoldable pub return_running : World → Bytes → World
return_running w key = record w { acquired = release w.acquired key; running = leave w.running key }

unfoldable pub return_refused : World → Bytes → World
return_refused w key = record w { acquired = release w.acquired key; refused = leave w.refused key }

pub data Step : World → World → Type 0 where
  arrives : (w : World) (key : Bytes) → Step w (arrive w key)
  returns : (w : World) (key : Bytes) → has_key w.running key ≡ true → Step w (return_running w key)
  gives_up :
      (w : World) (key : Bytes) → has_key w.refused key ≡ true → Step w (return_refused w key)

pub data Reach : World → World → Type 0 where
  here : (w : World) → Reach w w
  more : (u v w : World) → Step u v → Reach v w → Reach u w
