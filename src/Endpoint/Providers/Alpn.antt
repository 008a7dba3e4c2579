-- ===== src/Endpoint/Providers/Alpn.antt =====
-- `parseAlpn` of resolver/endpoint/endpoint.go.
use nextdns.Prelude.{
  Bytes, List, [], ap, append-nil, append_assoc, arith, drop, drop_front, false, length,
  length-append, length-drop, ltb, none, some, suc, take, take_front, zero, ℕ, ◌++◌, ◌<◌, ◌∙◌, ◌∷◌,
  ◌≡◌, ◌≢◌,
}
use nextdns.Endpoint.Providers.{alpn_from, parse_alpn}

-- The value that lists the ids: before each its length.
pub encode_alpn : List Bytes → Bytes
encode_alpn [] = []
encode_alpn (id ∷ ids) = length id ∷ (id ++ encode_alpn ids)

alpn_from-encode :
    (fuel : ℕ) (ids alpn : List Bytes)
    → length (encode_alpn ids) < fuel
    → alpn_from fuel (encode_alpn ids) alpn ≡ some (some (alpn ++ ids))
unfolding alpn_from encode_alpn
alpn_from-encode zero ids alpn h = absurd (omega arith)
alpn_from-encode (suc fuel) [] alpn h = rw append-nil
alpn_from-encode (suc fuel) (id ∷ ids) alpn h =
    let len = length-append id (encode_alpn ids) in
    let fits : ltb (length (id ++ encode_alpn ids)) (length id) ≡ false = ground (arith, len) in
    rw (fits, take_front id (encode_alpn ids), drop_front id (encode_alpn ids))
      (alpn_from-encode fuel ids (alpn ++ id ∷ []) (omega (arith, len, h))
        ∙ ap (λ l. some (some l)) (append_assoc alpn (id ∷ []) ids))

-- A value never runs the loop out of rounds.
alpn_from_total :
    (fuel : ℕ) (b : Bytes) (alpn : List Bytes) → length b < fuel → alpn_from fuel b alpn ≢ none
unfolding alpn_from
alpn_from_total zero b alpn h = absurd (omega arith)
alpn_from_total (suc fuel) [] alpn h = λ e. cc
alpn_from_total (suc fuel) (l ∷ b) alpn h =
    λ e. ground (arith, e, alpn_from_total fuel (drop l b) (alpn ++ take l b ∷ []), length-drop l b)

-- The list of ids is read back from the value that lists them, and every other value has a result.
pub parse_alpn-encode :
    (ids : List Bytes) (b : Bytes)
    → (parse_alpn (encode_alpn ids) ≡ some (some ids)) × (parse_alpn b ≢ none)
unfolding parse_alpn
parse_alpn-encode ids b = (
  alpn_from-encode (suc (length (encode_alpn ids))) ids [] (omega arith),
  alpn_from_total (suc (length b)) b [] (omega arith),
)
