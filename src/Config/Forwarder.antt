-- ===== src/Config/Forwarder.antt =====
-- config/forwarder.go: servers for the names of a domain. The server behind an address is made by
-- resolver.New, which is a function here; a server is any value.
pub mod Order
pub mod Reload
use nextdns.Prelude.{
  Bool, Bytes, List, Option, [], bytes_eq, drop, has_suffix, if◌then◌else◌, index_byte, length,
  none, some, suc, take, trim_space, ℕ, ◌++◌, ◌==◌, ◌>>=◌, ◌||◌, ◌∷◌,
}

module _ {ℓ} (A : Type ℓ) where
  pub record Resolver : Type ℓ where
    pub server : A
    pub addr : Bytes
    pub domain : Bytes

-- `fqdn`
unfoldable pub fqdn : Bytes → Bytes
fqdn s = if has_suffix s (46 ∷ []) then s else s ++ 46 ∷ []

-- `isSubDomain`
abbrev pub is_sub_domain : Bytes → Bytes → Bool
is_sub_domain sub domain = has_suffix sub (46 ∷ domain)

-- `newResolver` cuts a value: the condition before the first `=`, and the addresses behind it.
abbrev pub split_at : Bytes → Option ℕ → Bytes × Bytes
split_at v none = (v, [])
split_at v (some i) = (trim_space (drop (suc i) v), fqdn (trim_space (take i v)))

module _ {ℓ} {A : Type ℓ} where
  -- `Resolver.Match`
  unfoldable pub matches : Resolver A → Bytes → Bool
  matches r name = length r.domain == 0 || (bytes_eq name r.domain || is_sub_domain name r.domain)

  -- `newResolver`
  unfoldable pub new_resolver : (Bytes → Option A) → Bytes → Option (Resolver A)
  new_resolver new v = do
    s ← new (split_at v (index_byte v 61)).0
    some (record {
      server = s;
      addr = (split_at v (index_byte v 61)).0;
      domain = (split_at v (index_byte v 61)).1;
    })

  -- `Forwarders.Get`
  unfoldable pub get : List (Resolver A) → Bytes → Option A
  get [] name = none
  get (r ∷ rs) name = if matches r name then some r.server else get rs name

  -- `Forwarders.Set`, behind the parser.
  unfoldable pub insert : List (Resolver A) → Resolver A → List (Resolver A)
  insert [] r = r ∷ []
  insert (x ∷ rs) r = if bytes_eq r.domain x.domain then r ∷ rs else x ∷ insert rs r

  unfoldable pub set_value :
      (Bytes → Option A) → List (Resolver A) → Bytes → Option (List (Resolver A))
  set_value new rs v = do r ← new_resolver new v; some (insert rs r)

-- `Resolver.String` and `Forwarders.Strings`
abbrev pub print_domain : Bytes → Bytes → Bytes
print_domain [] addr = addr
print_domain (c ∷ domain) addr = c ∷ domain ++ 61 ∷ addr

unfoldable pub print_resolver {ℓ} : {A : Type ℓ} → Resolver A → Bytes
print_resolver r = print_domain r.domain r.addr

unfoldable pub strings_of {ℓ} : {A : Type ℓ} → List (Resolver A) → List Bytes
strings_of [] = []
strings_of (r ∷ rs) = print_resolver r ∷ strings_of rs

-- `Forwarders.Resolve`: an error where no server is for the name.
unfoldable pub resolve {ℓ κ} :
    {Q : Type ℓ} {R : Type κ} → List (Resolver (Q → R)) → (Bytes → R) → Bytes → Q → R
resolve rs no_forwarder name q = elim (get rs name) [
  | none ↦ no_forwarder name
  | some server ↦ server q
]
