-- ===== src/Discovery/Mdns/Leak.antt =====
-- What `removeOldestEntry` of discovery/mdns.go leaves behind: it looks for the addresses of a name
-- in the map that is keyed by addresses, where no name is a key.
use nextdns.Prelude.{
  >>=-eq-some, All, Bool, Bool-cases, Bytes, List, [], ap, arith, bytes_eq, bytes_eq_iff, delete,
  false, find, has_key, inl, inr, length, ltb, none, put, put-has_key, refl, some, some_inj, suc,
  sym, true, zero, ℕ, ◌==◌, ◌∙◌, ◌∷◌, ◌≡◌, ◌⊎◌,
}
use nextdns.Discovery.Names.{abs_domain_name, is_valid_name, lower_ascii_bytes}
use mathlib.Core.Path.{subst}
use nextdns.Discovery.Mdns.{
  Entries, Entry, Mdns, Times, add_entry, evict, key_of, learn, learn_one, max_entries, oldest,
  remove_all, remove_named, remove_oldest_entry,
}

-- The text ends with a dot.
unfoldable pub is_dotted : Bytes → Bool
is_dotted [] = false
is_dotted (c ∷ []) = c == 46
is_dotted (c ∷ d ∷ s) = is_dotted (d ∷ s)

abs_domain_name-is_dotted : (s : Bytes) → is_dotted (abs_domain_name s) ≡ true
unfolding abs_domain_name is_dotted
abs_domain_name-is_dotted [] = refl
abs_domain_name-is_dotted (b ∷ []) = ground arith
abs_domain_name-is_dotted (b ∷ c ∷ []) = ground arith
abs_domain_name-is_dotted (b ∷ c ∷ d ∷ s) = abs_domain_name-is_dotted (c ∷ d ∷ s)

abbrev pub KeysAre : Bool → Entries → Type 0
KeysAre b m = All (λ (k, e). is_dotted k ≡ b) m

-- Names end with a dot, and addresses do not.
pub record IsApart (r : Mdns) : Type 0 where
  pub addresses : KeysAre false r.addrs
  pub hosts : KeysAre true r.names

put-KeysAre :
    (b : Bool) (m : Entries) (key : Bytes) (e : Entry)
    → is_dotted key ≡ b
    → KeysAre b m
    → KeysAre b (put m key e)
unfolding put
put-KeysAre b [] key e d h = (d, tt)
put-KeysAre b ((k, w) ∷ m) key e d h = elim (Bool-cases (bytes_eq k key)) [
  | inl same ↦ rw same (h.0, h.1)
  | inr other ↦ rw other (h.0, put-KeysAre b m key e d h.1)
]

delete-KeysAre : (b : Bool) (m : Entries) (key : Bytes) → KeysAre b m → KeysAre b (delete m key)
unfolding delete
delete-KeysAre b [] key h = tt
delete-KeysAre b ((k, w) ∷ m) key h = elim (Bool-cases (bytes_eq k key)) [
  | inl same ↦ rw same (delete-KeysAre b m key h.1)
  | inr other ↦ rw other (h.0, delete-KeysAre b m key h.1)
]

oldest-is_dotted :
    (m : Entries) (name : Bytes) (time : ℕ)
    → KeysAre true m
    → (name ≡ []) ⊎ (is_dotted name ≡ true)
    → (oldest m name time ≡ []) ⊎ (is_dotted (oldest m name time) ≡ true)
unfolding oldest
oldest-is_dotted [] name time h n = n
oldest-is_dotted ((k, e) ∷ m) name time h n = elim (Bool-cases (ltb e.last_update time)) [
  | inl older ↦ rw older (oldest-is_dotted m k e.last_update h.1 (inr h.0))
  | inr newer ↦ rw newer (oldest-is_dotted m name time h.1 n)
]

find-dotted :
    (m : Entries) (key : Bytes) → KeysAre false m → is_dotted key ≡ true → find m key ≡ none
unfolding find
find-dotted [] key h d = refl
find-dotted ((k, e) ∷ m) key h d = elim (Bool-cases (bytes_eq k key)) [
  | inl same ↦ absurd (cc (ap is_dotted ((bytes_eq_iff k key).0 same), h.0, d))
  | inr other ↦ rw other (find-dotted m key h.1 d)
]

-- To remove a name alters the names only.
remove_named-addrs :
    (r : Mdns) (name : Bytes)
    → KeysAre false r.addrs
    → (name ≡ []) ⊎ (is_dotted name ≡ true)
    → (remove_named r name).addrs ≡ r.addrs
unfolding remove_all
remove_named-addrs r [] h n = refl
remove_named-addrs r (c ∷ name) h (inl nil) = cc
remove_named-addrs r (c ∷ name) h (inr d) = rw (find-dotted r.addrs (c ∷ name) h d)

remove_named-hosts :
    (r : Mdns) (name : Bytes) → KeysAre true r.names → KeysAre true (remove_named r name).names
remove_named-hosts r [] h = h
remove_named-hosts r (c ∷ name) h = delete-KeysAre true r.names (c ∷ name) h

-- Among the entries that are kept apart, the loop that makes room removes no address.
evict-addrs :
    (fuel : ℕ) (rounds : ℕ → ℕ) (k : ℕ) (r : Mdns) {r' : Mdns}
    → IsApart r
    → evict fuel rounds k r ≡ some r'
    → (r'.addrs ≡ r.addrs) × IsApart r'
unfolding evict remove_oldest_entry
evict-addrs zero rounds k r apart h = cc
evict-addrs (suc fuel) rounds k r apart h = elim (Bool-cases (ltb max_entries (length r.names))) [
  | inr fits ↦ let e = some_inj (rw fits at h) in (ap (λ m. m.addrs) (sym e), subst IsApart e apart)
  | inl full ↦
      let name = oldest r.names [] (rounds k) in
      let d = oldest-is_dotted r.names [] (rounds k) apart.hosts (inl refl) in
      let same = remove_named-addrs r name apart.addresses d in
      let apart' : IsApart (remove_named r name) = record {
        addresses = rw same apart.addresses;
        hosts = remove_named-hosts r name apart.hosts;
      } in
      let (e, kept) = evict-addrs fuel rounds (suc k) (remove_named r name) apart' (rw full at h) in
      (e ∙ same, kept)
]

learn_one-addrs :
    (fuel : ℕ) (r : Mdns) (t : Times) (addr name : Bytes) {r' : Mdns}
    → IsApart r
    → is_dotted addr ≡ false
    → learn_one fuel r t addr name ≡ some r'
    → IsApart r' × ((a : Bytes) → has_key r.addrs a ≡ true → has_key r'.addrs a ≡ true)
unfolding learn_one add_entry
learn_one-addrs fuel r t addr name apart undotted h = elim (Bool-cases (is_valid_name name)) [
  | inr invalid ↦
      let e = some_inj (rw invalid at h) in
      (subst IsApart e apart, λ a k. subst (λ m. has_key m.addrs a ≡ true) e k)
  | inl valid ↦
      let apart1 : IsApart (record {
        addrs = add_entry t.addr_time r.addrs addr (abs_domain_name name);
        names = add_entry t.name_time r.names (key_of name) addr;
      }) =
        record {
          addresses = put-KeysAre false r.addrs addr _ undotted apart.addresses;
          hosts =
              put-KeysAre true r.names (key_of name) _
                (abs_domain_name-is_dotted (lower_ascii_bytes (abs_domain_name name))) apart.hosts;
        } in
      let (e, kept) = evict-addrs fuel t.rounds 0 _ apart1 (rw valid at h) in
      (kept, λ a k. rw e (put-has_key r.addrs addr a _ k))
]

-- However many messages are learned, an address that was learned once stays a key of the map of
-- addresses: only names are removed to make room. The addresses of the messages are those that do
-- not end with a dot.
pub learn_leaks :
    (items : List (Times × Bytes × Bytes)) (fuel : ℕ) (r : Mdns) {r' : Mdns}
    → IsApart r
    → All (λ (t, addr, name). is_dotted addr ≡ false) items
    → learn fuel r items ≡ some r'
    → IsApart r' × ((a : Bytes) → has_key r.addrs a ≡ true → has_key r'.addrs a ≡ true)
unfolding learn
learn_leaks [] fuel r apart undotted h =
    let e = some_inj h in (subst IsApart e apart, λ a k. subst (λ m. has_key m.addrs a ≡ true) e k)
learn_leaks ((t, addr, name) ∷ items) fuel r apart undotted h =
    let (r1, e, h1) = >>=-eq-some (learn_one fuel r t addr name) (λ r1. learn fuel r1 items) h in
    let (apart1, kept1) = learn_one-addrs fuel r t addr name apart undotted.0 e in
    let (apart2, kept2) = learn_leaks items fuel r1 apart1 undotted.1 h1 in
    (apart2, λ a k. kept2 a (kept1 a k))
