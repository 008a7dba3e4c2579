-- ===== src/Endpoint/Manager/Installation.antt =====
-- What `testLocked` leaves as the active endpoint.
use mathlib.Core.Path.{subst}
use nextdns.Prelude.{
  >>=-eq-some, Bool, List, Option, Option-cases, [], ap, false, get_elem?, if◌then◌else◌, inl, inr,
  length, none, not, refl, some, some_inj, suc, sym, true, zero, ℕ, ◌++◌, ◌>>=◌, ◌∙◌, ◌∷◌, ◌≡◌, ◌⊎◌,
}
use nextdns.Endpoint.{Endpoint}
use nextdns.Endpoint.Manager.{
  Active, Choice, Manager, Scan, Settings, Tested, aborted, activate, after_find, chosen_endpoint,
  conclude, current, exhausted, fall_back, fresh, install, is_change, new_active,
  new_active_endpoint, same_endpoint, selected, shorten,
}

get_elem?-append_length :
    (xs : List Active) (a : Active) → get_elem? (xs ++ a ∷ []) (length xs) ≡ some a
get_elem?-append_length [] a = refl
get_elem?-append_length (x ∷ xs) a = get_elem?-append_length xs a

-- The active object of a manager holds this endpoint.
pub record IsActive (m : Manager) (e : Option Endpoint) : Type 0 where
  pub index : ℕ
  pub object : Active
  pub active : m.active ≡ some index
  pub stored : get_elem? m.heap index ≡ some object
  pub holds : object.endpoint ≡ e

pub activate-IsActive :
    (m : Manager) (heap : List Active) (ae : Choice) (e : Option Endpoint)
    → chosen_endpoint heap ae ≡ some e
    → IsActive (activate m heap ae) e
activate-IsActive m heap (fresh a) e h = record {
  index = length heap;
  object = a;
  active = refl;
  stored = get_elem?-append_length heap a;
  holds = cc;
}
activate-IsActive m heap (current i) e h =
    let (a, p, q) = >>=-eq-some (get_elem? heap i) (λ a. some a.endpoint) h in
    record { index = i; object = a; active = refl; stored = p; holds = cc }

-- The endpoint that a search ends with.
abbrev pub Picks : Settings → Manager → ℕ → Scan → Option Endpoint → Type 0
Picks s m now (selected ae) e = new_active_endpoint s m now e ≡ some ae
Picks s m now aborted e = ⊥
Picks s m now (exhausted first) e = first ≡ e

-- An endpoint is the active one, or one equal to it: either it is put there and reported, or the
-- active one was equal to it and stays.
pub record Installs (t : Tested) (e : Option Endpoint) : Type 0 where
  pub installed : Option Endpoint
  pub picked : (installed ≡ e) ⊎ (same_endpoint installed e ≡ some true)
  pub active :
      ((t.changed ≡ some installed) × IsActive t.manager installed)
      ⊎ ((t.changed ≡ none)
          × ((kept : Option Endpoint) × IsActive t.manager kept
              × (same_endpoint kept installed ≡ some true)))

chosen-picked :
    (s : Settings) (m : Manager) (now : ℕ) (f e : Option Endpoint) (ae : Choice)
    → new_active_endpoint s m now f ≡ some ae
    → chosen_endpoint m.heap ae ≡ some e
    → (e ≡ f) ⊎ (same_endpoint e f ≡ some true)
unfolding new_active_endpoint
chosen-picked s m now f e ae h c = elim (Option-cases m.active) [
  | inl off ↦ inl (whole (fresh (new_active s now f)) (some_inj (rw off at h)) refl)
  | inr (i, on) ↦
      let (a, ea, h1) = >>=-eq-some (get_elem? m.heap i) _ (rw on at h) in
      let (same, es, h2) = >>=-eq-some (same_endpoint a.endpoint f) _ h1 in
      either i a ea same es (some_inj h2)
]
  where
    whole : (x : Choice) → x ≡ ae → chosen_endpoint m.heap x ≡ some f → e ≡ f
    whole x q p = some_inj (sym c ∙ ap (chosen_endpoint m.heap) (sym q) ∙ p)

    either :
        (i : ℕ) (a : Active)
        → get_elem? m.heap i ≡ some a
        → (same : Bool) → same_endpoint a.endpoint f ≡ some same
        → (if same then current i else fresh (new_active s now f)) ≡ ae
        → (e ≡ f) ⊎ (same_endpoint e f ≡ some true)
    either i a ea false es q = inl (whole (fresh (new_active s now f)) q refl)
    either i a ea true es q =
        let p : chosen_endpoint m.heap (current i) ≡ some a.endpoint =
          ap (λ o. o >>= λ (x : Active). some x.endpoint) ea in
        let held : a.endpoint ≡ e = some_inj (sym p ∙ ap (chosen_endpoint m.heap) q ∙ c) in
        inr (ap (λ x. same_endpoint x f) (sym held) ∙ es)

install-active :
    (m : Manager) (heap : List Active) (ae : Choice) (t : Tested)
    → install m heap ae ≡ some t
    → (e : Option Endpoint) × (chosen_endpoint heap ae ≡ some e)
      × (((t.changed ≡ some e) × IsActive t.manager e)
          ⊎ ((t.changed ≡ none)
              × ((kept : Option Endpoint) × IsActive t.manager kept
                  × (same_endpoint kept e ≡ some true))))
unfolding install is_change
install-active m heap ae t h =
    let (e, p, q) = >>=-eq-some (chosen_endpoint heap ae) _ h in
    let (b, u, v) = >>=-eq-some (is_change m.active heap e) _ q in
    (e, p, subst (Left e) (some_inj v) (either e p b u))
  where
    Left : Option Endpoint → Tested → Type 0
    Left e x =
        ((x.changed ≡ some e) × IsActive x.manager e)
        ⊎ ((x.changed ≡ none)
            × ((kept : Option Endpoint) × IsActive x.manager kept
                × (same_endpoint kept e ≡ some true)))

    negated : (b : Bool) → not b ≡ false → b ≡ true
    negated true h = refl
    negated false h = cc

    either :
        (e : Option Endpoint)
        → chosen_endpoint heap ae ≡ some e
        → (b : Bool) → is_change m.active heap e ≡ some b
        → Left e (
            if b
            then record { manager = activate m heap ae; failed = false; changed = some e }
            else record { manager = record m { heap = heap }; failed = false; changed = none })
    either e p true u = inl (refl, activate-IsActive m heap ae e p)
    either e p false u = elim (Option-cases m.active) [
      | inl off ↦ absurd (cc (rw off at u))
      | inr (i, on) ↦
          let (a, ea, u1) = >>=-eq-some (get_elem? heap i) _ (rw on at u) in
          let (same, es, u2) = >>=-eq-some (same_endpoint a.endpoint e) _ u1 in
          inr (
            refl,
            (
              a.endpoint,
              record { index = i; object = a; active = on; stored = ea; holds = refl },
              es ∙ ap some (negated same (some_inj u2)),
            ),
          )
    ]

shorten-chosen :
    (heap : List Active) (i : ℕ)
    → chosen_endpoint (shorten heap i) (current i) ≡ chosen_endpoint heap (current i)
shorten-chosen [] i = refl
shorten-chosen (a ∷ heap) zero = refl
shorten-chosen (a ∷ heap) (suc i) = shorten-chosen heap i

fall_back-chosen :
    (m : Manager) (ae : Choice)
    → chosen_endpoint (fall_back m ae).0 (fall_back m ae).1 ≡ chosen_endpoint m.heap ae
fall_back-chosen m (current i) = shorten-chosen m.heap i
fall_back-chosen m (fresh a) = refl

-- What a search ends with is installed.
pub conclude-Installs :
    (s : Settings) (m : Manager) (now : ℕ) (r : Scan) (t : Tested) (f : Option Endpoint)
    → (conclude s m now r >>= after_find m) ≡ some t
    → Picks s m now r f
    → Installs t f
conclude-Installs s m now (selected ae) t f h p =
    let (e, c, left) = install-active m m.heap ae t h in
    record { installed = e; picked = chosen-picked s m now f e ae p c; active = left }
conclude-Installs s m now aborted t f h p = absurd p
conclude-Installs s m now (exhausted first) t f h p =
    let (found, x, q) = >>=-eq-some (conclude s m now (exhausted first)) (after_find m) h in
    let (ae, u, v) = >>=-eq-some (new_active_endpoint s m now first) _ x in
    let (e, c, left) =
      install-active m (fall_back m ae).0 (fall_back m ae).1 t
        (subst (λ y. after_find m y ≡ some t) (sym (some_inj v)) q) in
    record {
      installed = e;
      picked =
          chosen-picked s m now f e ae (ap (new_active_endpoint s m now) (sym p) ∙ u)
            (sym (fall_back-chosen m ae) ∙ c);
      active = left;
    }
