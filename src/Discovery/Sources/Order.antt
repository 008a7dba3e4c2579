-- ===== src/Discovery/Sources/Order.antt =====
-- The order of the sources in discovery/resolver.go.
use mathlib.Core.Path.{ap}
use nextdns.Prelude.{All, Bytes, List, [], ap, refl, ◌++◌, ◌↔◌, ◌∙◌, ◌∷◌, ◌≡◌}
use nextdns.Discovery.Sources.{first_answer, or_else}

-- A lookup with an answer has it from the first source that has one, and all sources are asked in
-- vain where there is none.
pub first_answer_iff :
    (sources : List (Bytes → List Bytes)) (key x : Bytes) (xs : List Bytes)
    → ((first_answer sources key ≡ x ∷ xs) ↔ (
        (before : List (Bytes → List Bytes)) × (s : Bytes → List Bytes) × (after : List
          (Bytes → List Bytes))
        × (sources ≡ before ++ s ∷ after)
        × All (λ f. f key ≡ []) before
        × (s key ≡ x ∷ xs)))
      × ((first_answer sources key ≡ []) ↔ All (λ f. f key ≡ []) sources)
unfolding first_answer
first_answer_iff sources key x xs = (
  (from sources, λ (before, s, after, e, none_yet, hit). rw e (to before s after none_yet hit)),
  (silent sources, vain sources),
)
  where
    Found : List (Bytes → List Bytes) → Type 0
    Found fs =
        (before : List (Bytes → List Bytes)) × (s : Bytes → List Bytes) × (after : List
          (Bytes → List Bytes))
        × (fs ≡ before ++ s ∷ after)
        × All (λ f. f key ≡ []) before
        × (s key ≡ x ∷ xs)

    answers :
        (f : Bytes → List Bytes) (fs : List (Bytes → List Bytes)) (a : List Bytes)
        → f key ≡ a
        → (first_answer fs key ≡ x ∷ xs → Found fs)
        → or_else a (first_answer fs key) ≡ x ∷ xs
        → Found (f ∷ fs)
    answers f fs [] e rest h =
        let (before, s, after, split, none_yet, hit) = rest h in
        (f ∷ before, s, after, ap (◌∷◌ f) split, (e, none_yet), hit)
    answers f fs (y ∷ ys) e rest h = ([], f, fs, refl, tt, e ∙ h)

    from : (fs : List (Bytes → List Bytes)) → first_answer fs key ≡ x ∷ xs → Found fs
    from [] h = cc
    from (f ∷ fs) h = answers f fs (f key) refl (from fs) h

    to :
        (before : List (Bytes → List Bytes)) (s : Bytes → List Bytes)
        (after : List (Bytes → List Bytes))
        → All (λ f. f key ≡ []) before
        → s key ≡ x ∷ xs
        → first_answer (before ++ s ∷ after) key ≡ x ∷ xs
    to [] s after none_yet hit = rw hit
    to (f ∷ before) s after (e, none_yet) hit = rw e (to before s after none_yet hit)

    quiet :
        (f : Bytes → List Bytes) (fs : List (Bytes → List Bytes)) (a : List Bytes)
        → f key ≡ a
        → (first_answer fs key ≡ [] → All (λ f. f key ≡ []) fs)
        → or_else a (first_answer fs key) ≡ []
        → All (λ f. f key ≡ []) (f ∷ fs)
    quiet f fs [] e rest h = (e, rest h)
    quiet f fs (y ∷ ys) e rest h = cc

    silent : (fs : List (Bytes → List Bytes)) → first_answer fs key ≡ [] → All (λ f. f key ≡ []) fs
    silent [] h = tt
    silent (f ∷ fs) h = quiet f fs (f key) refl (silent fs) h

    vain : (fs : List (Bytes → List Bytes)) → All (λ f. f key ≡ []) fs → first_answer fs key ≡ []
    vain [] h = refl
    vain (f ∷ fs) (e, h) = rw e (vain fs h)
