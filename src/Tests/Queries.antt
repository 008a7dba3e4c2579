-- ===== src/Tests/Queries.antt =====
-- resolver/query/query.go with a parser that is at an additional record of type A.
use nextdns.Prelude.{
  Bytes, [], arith, codes, drop, none, refl, some, take, true, ℕ, ◌<◌, ◌↔◌, ◌∷◌, ◌≡◌, ◌≤◌,
}
use nextdns.Query.{EdnsOption, Parser, ResourceHeader, found, nutter_ecs_option, parse}
use nextdns.Query.Parse.{IsErased, Stuck, nutter_ecs_option-IsErased, parse_diverges_iff}
use nextdns.Tests.Messages.{a_query}

abbrev record_a : ResourceHeader
record_a = record { rtype = 1; rclass = 1 }

found_inj : {s s' : ℕ} {r h : ResourceHeader} → found r s ≡ found h s' → found r s' ≡ found h s'
found_inj e = cc

abbrev parser : Parser
parser = record {
  State = ℕ;
  start = λ payload. some (record { id = 7; recursion_desired = true }, 12);
  question = λ s. some (record { name = codes "a."; qtype = 1; qclass = 1 }, 20);
  skip_to_additionals = λ s. s;
  additional_header = λ s. found record_a s;
  opt_resource = λ s. none;
  additional_header-again = λ s s' h e. found_inj e;
}

parse_diverges_iff_example : (parse parser 9 a_query ≡ none) ↔ Stuck parser a_query.payload
parse_diverges_iff_example = parse_diverges_iff parser 8 a_query

-- An ECS option of 7 bytes for 192.0.2.0/24, behind two other bytes.
abbrev payload : Bytes
payload = 1 ∷ 2 ∷ 0 ∷ 8 ∷ 0 ∷ 7 ∷ 0 ∷ 1 ∷ 24 ∷ 0 ∷ 192 ∷ 0 ∷ 2 ∷ 3 ∷ []

abbrev ecs : EdnsOption
ecs = record { code = 8; content = take 7 (drop 6 payload); data_offset = 6 }

nutter_ecs_option-IsErased_example :
    (13 ≤ 14 → IsErased payload (nutter_ecs_option payload ecs) 2 13)
    × (14 < 13 → nutter_ecs_option payload ecs ≡ payload)
nutter_ecs_option-IsErased_example =
    nutter_ecs_option-IsErased payload ecs 2 7 refl refl refl (omega arith)

erases :
    nutter_ecs_option payload ecs ≡ 1 ∷ 2 ∷ 255 ∷ 255 ∷ 0 ∷ 7 ∷ 0 ∷ 0 ∷ 0 ∷ 0 ∷ 0 ∷ 0 ∷ 0 ∷ 3 ∷ []
unfolding nutter_ecs_option
erases = refl
