-- ===== src/Discovery/Mdns/Eviction.antt =====
-- The room that `read` of discovery/mdns.go makes for the names.
use nextdns.Prelude.{
  All, Bool-cases, Bytes, List, [], arith, bytes_eq, bytes_eq_iff, bytes_eq_refl, delete, has_key,
  inl, inr, length, length-delete-lt, length-put-le, ltb, lt→ltb, put, refl, some, suc, true, ℕ,
  ◌<◌, ◌∙◌, ◌∷◌, ◌≡◌, ◌≢◌, ◌≤◌, ◌⊎◌,
}
use nextdns.Discovery.Names.Keys.{abs_ne}
use nextdns.Discovery.Names.{abs_domain_name, append_uniq, is_valid_name, lower_ascii_bytes}
use nextdns.Discovery.Mdns.{
  Entries, Entry, Mdns, Times, add_entry, entry_of, evict, key_of, learn, learn_one, max_entries,
  oldest, remove_named, remove_oldest_entry,
}

-- The keys of the names are not empty, and their times are not after `t`.
abbrev pub IsDated : ℕ → Entries → Type 0
IsDated t m = All (λ (k, e). (k ≢ []) × (e.last_update ≤ t)) m

IsDated-delete : (t : ℕ) (m : Entries) (key : Bytes) → IsDated t m → IsDated t (delete m key)
unfolding delete
IsDated-delete t [] key h = tt
IsDated-delete t ((k, e) ∷ m) key h = elim (Bool-cases (bytes_eq k key)) [
  | inl same ↦ rw same (IsDated-delete t m key h.1)
  | inr other ↦ rw other (h.0, IsDated-delete t m key h.1)
]

IsDated-put :
    (t t' : ℕ) (m : Entries) (key : Bytes) (e : Entry)
    → t ≤ t'
    → key ≢ []
    → e.last_update ≤ t'
    → IsDated t m
    → IsDated t' (put m key e)
unfolding put
IsDated-put t t' [] key e le ne fresh h = ((ne, fresh), tt)
IsDated-put t t' ((k, w) ∷ m) key e le ne fresh h = elim (Bool-cases (bytes_eq k key)) [
  | inl same ↦ rw same ((h.0.0, fresh), later m h.1)
  | inr other ↦ rw other ((h.0.0, omega arith), IsDated-put t t' m key e le ne fresh h.1)
]
  where
    later : (m : Entries) → IsDated t m → IsDated t' m
    later [] h = tt
    later ((k, w) ∷ m) h = ((h.0.0, omega (arith, h.0.1)), later m h.1)

-- The search returns what it starts with, or a key of the map.
oldest_cases :
    (m : Entries) (name : Bytes) (time : ℕ)
    → (oldest m name time ≡ name) ⊎ (has_key m (oldest m name time) ≡ true)
unfolding oldest has_key
oldest_cases [] name time = inl refl
oldest_cases ((k, e) ∷ m) name time = elim (Bool-cases (ltb e.last_update time)) [
  | inl older ↦ rw older (elim (oldest_cases m k e.last_update) [
    | inl same ↦ inr (rw (same, bytes_eq_refl k))
    | inr found ↦ inr (ground (arith, found))
  ])
  | inr newer ↦ rw newer (elim (oldest_cases m name time) [
    | inl same ↦ inl same
    | inr found ↦ inr (ground (arith, found))
  ])
]

-- A first entry that is older than the clock is enough for a key to be found.
oldest-has_key :
    (k : Bytes) (e : Entry) (m : Entries) (now : ℕ)
    → e.last_update < now
    → has_key ((k, e) ∷ m) (oldest ((k, e) ∷ m) [] now) ≡ true
unfolding oldest has_key
oldest-has_key k e m now lt = elim (oldest_cases m k e.last_update) [
  | inl same ↦ rw (lt→ltb e.last_update now lt, same, bytes_eq_refl k)
  | inr found ↦ rw (lt→ltb e.last_update now lt) (ground (arith, found))
]

has_key-ne-nil : (t : ℕ) (m : Entries) (key : Bytes) → IsDated t m → has_key m key ≡ true → key ≢ []
unfolding has_key
has_key-ne-nil t [] key d h = ground (arith, h)
has_key-ne-nil t ((k, e) ∷ m) key d h = elim (Bool-cases (bytes_eq k key)) [
  | inl same ↦ λ nil. d.0.0 ((bytes_eq_iff k key).0 same ∙ nil)
  | inr other ↦ has_key-ne-nil t m key d.1 (ground (arith, h, other))
]

remove_named-names :
    (r : Mdns) (name : Bytes) → name ≢ [] → (remove_named r name).names ≡ delete r.names name
remove_named-names r [] ne = absurd (ne refl)
remove_named-names r (c ∷ name) ne = refl

-- A map of names with the bound, and with keys and times as above.
pub record IsRoomy (t : ℕ) (r : Mdns) : Type 0 where
  pub bounded : length r.names ≤ max_entries
  pub dated : IsDated t r.names

evict_roomy :
    (fuel : ℕ) (rounds : ℕ → ℕ) (k : ℕ) (r : Mdns)
    → length r.names ≤ max_entries
    → evict (suc fuel) rounds k r ≡ some r
unfolding evict
evict_roomy fuel rounds k r h = ground arith

evict_round :
    (fuel : ℕ) (rounds : ℕ → ℕ) (r : Mdns)
    → ltb max_entries (length r.names) ≡ true
    → evict (suc (suc fuel)) rounds 0 r
      ≡ evict (suc fuel) rounds 1 (remove_named r (oldest r.names [] (rounds 0)))
unfolding evict remove_oldest_entry
evict_round fuel rounds r full = rw full

-- One name too many is one round of the loop, if the search finds it.
evict_full :
    (t fuel : ℕ) (rounds : ℕ → ℕ) (r : Mdns)
    → length r.names ≤ suc max_entries
    → IsDated t r.names
    → has_key r.names (oldest r.names [] (rounds 0)) ≡ true
    → (r' : Mdns) × (evict (suc (suc fuel)) rounds 0 r ≡ some r') × IsRoomy t r'
evict_full t fuel rounds r le d found = elim (Bool-cases (ltb max_entries (length r.names))) [
  | inr fits ↦
      let small : length r.names ≤ max_entries = ground (arith, fits) in
      (r, evict_roomy (suc fuel) rounds 0 r small, record { bounded = small; dated = d })
  | inl full ↦
      let name = oldest r.names [] (rounds 0) in
      let ne = has_key-ne-nil t r.names name d found in
      let e = remove_named-names r name ne in
      let shorter = length-delete-lt r.names name found in
      let small : length (remove_named r name).names ≤ max_entries =
        rw e (omega (arith, shorter, le)) in
      (
        remove_named r name,
        evict_round fuel rounds r full ∙ evict_roomy fuel rounds 1 (remove_named r name) small,
        record { bounded = small; dated = rw e (IsDated-delete t r.names name d) },
      )
]

-- What a name that is stored comes to: the keys and times stay in order, and a full map has an
-- entry that is older than the clock.
store_name :
    (t fuel : ℕ) (r : Mdns) (rounds : ℕ → ℕ) (addrs : Entries) (key : Bytes) (e : Entry)
    → IsRoomy t r
    → key ≢ []
    → t ≤ e.last_update
    → t < rounds 0
    → (r' : Mdns) × (evict
          (suc (suc fuel))
          rounds
          0
          (record { addrs = addrs; names = put r.names key e })
        ≡ some r')
      × IsRoomy e.last_update r'
unfolding put
store_name t fuel r rounds addrs key e room ne le lt = from r.names room.bounded room.dated
  where
    from :
        (m : Entries)
        → length m ≤ max_entries
        → IsDated t m
        → (r' : Mdns) × (evict
              (suc (suc fuel))
              rounds
              0
              (record { addrs = addrs; names = put m key e })
            ≡ some r')
          × IsRoomy e.last_update r'
    from [] small d = (
      record { addrs = addrs; names = (key, e) ∷ [] },
      evict_roomy (suc fuel) rounds 0 _ (omega arith),
      record { bounded = omega arith; dated = ((ne, omega arith), tt) },
    )
    from ((k, w) ∷ m) small d = elim (Bool-cases (bytes_eq k key)) [
      | inl same ↦
          let dated = IsDated-put t e.last_update ((k, w) ∷ m) key e le ne (omega arith) d in
          (
            record { addrs = addrs; names = put ((k, w) ∷ m) key e },
            evict_roomy (suc fuel) rounds 0 _ (rw same small),
            record { bounded = rw same small; dated = dated },
          )
      | inr other ↦
          evict_full e.last_update fuel rounds
            (record { addrs = addrs; names = put ((k, w) ∷ m) key e })
            (omega (arith, length-put-le ((k, w) ∷ m) key e, small))
            (IsDated-put t e.last_update ((k, w) ∷ m) key e le ne (omega arith) d)
            (rw other (oldest-has_key k w (put m key e) (rounds 0) (omega (arith, d.0.1, lt))))
    ]

-- The clock moves on: it is not back when a name is stored, and later once there is no room.
abbrev pub Ticks : ℕ → List (Times × Bytes × Bytes) → Type 0
Ticks t [] = Unit
Ticks t ((u, addr, name) ∷ items) = (t ≤ u.name_time) × (t < u.rounds 0) × Ticks u.name_time items

IsRoomy-later : (t t' : ℕ) (r : Mdns) → t ≤ t' → IsRoomy t r → IsRoomy t' r
IsRoomy-later t t' r le room = record { bounded = room.bounded; dated = later r.names room.dated }
  where
    later : (m : Entries) → IsDated t m → IsDated t' m
    later [] h = tt
    later ((k, w) ∷ m) h = ((h.0.0, omega (arith, h.0.1)), later m h.1)

learn_one-IsRoomy :
    (t fuel : ℕ) (r : Mdns) (u : Times) (addr name : Bytes)
    → IsRoomy t r
    → t ≤ u.name_time
    → t < u.rounds 0
    → (r' : Mdns) × (learn_one (suc (suc fuel)) r u addr name ≡ some r') × IsRoomy u.name_time r'
unfolding learn_one add_entry
learn_one-IsRoomy t fuel r u addr name room le lt = elim (Bool-cases (is_valid_name name)) [
  | inr invalid ↦ (r, rw invalid, IsRoomy-later t u.name_time r le room)
  | inl valid ↦ rw valid (
      store_name t fuel r u.rounds (add_entry u.addr_time r.addrs addr (abs_domain_name name))
        (key_of name)
        (record {
          last_update = u.name_time;
          values = append_uniq (entry_of r.names (key_of name)).values (addr ∷ []);
        })
        room (abs_ne (lower_ascii_bytes (abs_domain_name name))) le lt)
]

-- Where the clock moves on, the entries of a message are all stored: two rounds of the loop that
-- makes room are enough for each, and afterwards there are at most `mdnsMaxEntries` names.
pub learn_bounded :
    (items : List (Times × Bytes × Bytes)) (t fuel : ℕ) (r : Mdns)
    → IsRoomy t r
    → Ticks t items
    → (r' : Mdns) × (learn (suc (suc fuel)) r items ≡ some r') × (length r'.names ≤ max_entries)
unfolding learn
learn_bounded [] t fuel r room ticks = (r, refl, room.bounded)
learn_bounded ((u, addr, name) ∷ items) t fuel r room ticks =
    let (r1, e, room1) = learn_one-IsRoomy t fuel r u addr name room ticks.0 ticks.1 in
    rw e (learn_bounded items u.name_time fuel r1 room1 ticks.2)
