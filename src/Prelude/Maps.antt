-- ===== src/Prelude/Maps.antt =====
-- Go's maps with strings for keys: a list of the keys with their values, in the order of one
-- iteration.
use mathlib.Core.Path.{◌≡◌, ap}
use mathlib.Core.Bool.{Bool, true, false, ◌||◌}
use mathlib.Core.List.{List, [], ◌∷◌, ◌++◌}
use mathlib.Core.Option.{Option, none, some}
use mathlib.Core.Logic.{inl, inr}
use Prim.Native.Nat.{suc, ◌<◌, ◌≤◌}
use native.Mathlib.Omega.{arith}
use nextdns.Prelude.Tests.{Bool-cases, if◌then◌else◌}
use nextdns.Prelude.Lists.{length}
use nextdns.Prelude.Text.{Bytes, bytes_eq, bytes_eq_refl}

module _ {ℓ} {V : Type ℓ} where
  unfoldable pub find : List (Bytes × V) → Bytes → Option V
  find [] key = none
  find ((k, v) ∷ m) key = if bytes_eq k key then some v else find m key

  unfoldable pub put : List (Bytes × V) → Bytes → V → List (Bytes × V)
  put [] key v = (key, v) ∷ []
  put ((k, w) ∷ m) key v = if bytes_eq k key then (k, v) ∷ m else (k, w) ∷ put m key v

  unfoldable pub delete : List (Bytes × V) → Bytes → List (Bytes × V)
  delete [] key = []
  delete ((k, w) ∷ m) key = if bytes_eq k key then delete m key else (k, w) ∷ delete m key

  unfoldable pub has_key : List (Bytes × V) → Bytes → Bool
  has_key [] key = false
  has_key ((k, v) ∷ m) key = bytes_eq k key || has_key m key

  length-delete-le : (m : List (Bytes × V)) (key : Bytes) → length (delete m key) ≤ length m
  unfolding delete
  length-delete-le [] key = omega arith
  length-delete-le ((k, v) ∷ m) key = ground (arith, length-delete-le m key)

  pub length-delete-lt :
      (m : List (Bytes × V)) (key : Bytes) → has_key m key ≡ true → length (delete m key) < length m
  unfolding delete has_key
  length-delete-lt [] key h = ground arith
  length-delete-lt ((k, v) ∷ m) key h =
      ground (arith, length-delete-le m key, length-delete-lt m key)

  pub length-put-le :
      (m : List (Bytes × V)) (key : Bytes) (v : V) → length (put m key v) ≤ suc (length m)
  unfolding put
  length-put-le [] key v = omega arith
  length-put-le ((k, w) ∷ m) key v = ground (arith, length-put-le m key v)

  pub put-has_key :
      (m : List (Bytes × V)) (key a : Bytes) (v : V)
      → has_key m a ≡ true
      → has_key (put m key v) a ≡ true
  unfolding put has_key
  put-has_key [] key a v h = ground (arith, h)
  put-has_key ((k, w) ∷ m) key a v h = ground (arith, put-has_key m key a v)

  -- A key that is not in the first part is met in the second.
  pub find-append :
      (m : List (Bytes × V)) (key : Bytes) (v : V) (rest : List (Bytes × V))
      → has_key m key ≡ false
      → find (m ++ (key, v) ∷ rest) key ≡ some v
  unfolding find has_key
  find-append [] key v rest h = rw (bytes_eq_refl key)
  find-append ((k, w) ∷ m) key v rest h = elim (Bool-cases (bytes_eq k key)) [
    | inl same ↦ absurd (ground (arith, h, same))
    | inr other ↦ rw other (find-append m key v rest (ground (arith, h, other)))
  ]

  pub put-append :
      (m : List (Bytes × V)) (key : Bytes) (v w : V) (rest : List (Bytes × V))
      → has_key m key ≡ false
      → put (m ++ (key, v) ∷ rest) key w ≡ m ++ (key, w) ∷ rest
  unfolding put has_key
  put-append [] key v w rest h = rw (bytes_eq_refl key)
  put-append ((k, x) ∷ m) key v w rest h = elim (Bool-cases (bytes_eq k key)) [
    | inl same ↦ absurd (ground (arith, h, same))
    | inr other ↦
        rw other (ap (λ t. (k, x) ∷ t) (put-append m key v w rest (ground (arith, h, other))))
  ]
