-- ===== src/Query.antt =====
-- resolver/query/query.go: a query as the proxy receives it, parsed as far as the proxy needs it.
-- The message parser (internal/dnsmessage) and the ARP and NDP tables are interfaces.
pub mod Parse
use nextdns.Prelude.{
  Bool, Bytes, List, Option, [], drop, false, get_or, if◌then◌else◌, leb, length, ltb, none, set,
  some, suc, take, zero, ℕ, ◌&&◌, ◌+◌, ◌-◌, ◌==◌, ◌>>=◌, ◌||◌, ◌∷◌, ◌≡◌,
}
use nextdns.Net.{Ip, is_loopback, to4}

pub record Query : Type 0 where
  pub id : ℕ
  pub qclass : ℕ
  pub qtype : ℕ
  pub recursion_desired : Bool
  pub msg_size : ℕ
  pub name : Bytes
  pub local_ip : Ip
  pub peer_ip : Ip
  pub mac : Option Bytes
  pub payload : Bytes

-- `dnsmessage.Header`, `Question`, `ResourceHeader` and `Option`, as far as they are read.
pub record Header : Type 0 where
  pub id : ℕ
  pub recursion_desired : Bool

pub record Question : Type 0 where
  pub name : Bytes
  pub qtype : ℕ
  pub qclass : ℕ

pub record ResourceHeader : Type 0 where
  pub rtype : ℕ
  pub rclass : ℕ

pub record EdnsOption : Type 0 where
  pub code : ℕ
  pub content : Bytes
  pub data_offset : ℕ

-- What `AdditionalHeader` brings.
pub data Additional (S : Type 0) : Type 0 where
  section_done malformed : Additional S
  found : ResourceHeader → S → Additional S

-- `dnsmessage.Parser`. A header that was read and whose resource was neither read nor skipped is
-- read again by the next call.
pub record Parser : Type 1 where
  pub State : Type 0
  pub start : Bytes → Option (Header × State)
  pub question : State → Option (Question × State)
  pub skip_to_additionals : State → State
  pub additional_header : State → Additional State
  pub opt_resource : State → Option (List EdnsOption)
  pub additional_header-again :
      (s s' : State) (h : ResourceHeader)
      → additional_header s ≡ found h s'
      → additional_header s' ≡ found h s'

-- The answers of the ARP and NDP tables.
pub record Tables : Type 0 where
  pub arp_mac : Ip → Option Bytes
  pub ndp_mac : Ip → Option Bytes
  pub arp_ip : Bytes → Option Ip
  pub ndp_ip : Bytes → Option Ip

abbrev pub type_opt : ℕ
type_opt = 41

abbrev pub edns0_subnet : ℕ
edns0_subnet = 8

abbrev pub edns0_mac : ℕ
edns0_mac = 65001

abbrev pub max_dns_size : ℕ
max_dns_size = 512

-- `nutterECSOption`
abbrev pub zero_range : ℕ → ℕ → Bytes → Bytes
zero_range zero i payload = payload
zero_range (suc n) i payload = zero_range n (suc i) (set payload i 0)

abbrev pub erase : Bytes → ℕ → ℕ → Bytes
erase payload off end =
    set (set (zero_range (end - (off + 4)) (off + 4) payload) off 255) (off + 1) 255

unfoldable pub nutter_ecs_option : Bytes → EdnsOption → Bytes
nutter_ecs_option payload o =
    if ltb o.data_offset 4 || leb (length payload) o.data_offset
    then payload
    else (if ltb (length payload) (o.data_offset + get_or payload (o.data_offset - 1) 0)
        then payload
        else erase payload (o.data_offset - 4)
            (o.data_offset + get_or payload (o.data_offset - 1) 0))

-- An ECS option of each family: a full address is the peer's, and the option is erased.
abbrev pub read_ecs : Query → EdnsOption → Query
read_ecs q o =
    if get_or o.content 1 0 == 1
    then record q {
      peer_ip = if get_or o.content 2 0 == 32 then take 4 (drop 4 o.content) else q.peer_ip;
      payload = nutter_ecs_option q.payload o;
    }
    else (if get_or o.content 1 0 == 2
        then record q {
          peer_ip =
              if get_or o.content 2 0 == 128 && leb 20 (length o.content)
              then take 16 (drop 4 o.content)
              else q.peer_ip;
          payload = nutter_ecs_option q.payload o;
        }
        else q)

unfoldable pub read_option : Query → EdnsOption → Query
read_option q o =
    if o.code == edns0_mac
    then record q { mac = some o.content }
    else (if o.code == edns0_subnet
        then (if ltb (length o.content) 8 then q else read_ecs q o)
        else q)

abbrev pub read_options : Query → List EdnsOption → Query
read_options q [] = q
read_options q (o ∷ os) = read_options (read_option q o) os

-- The query that was filled so far, and whether an error is returned beside it.
pub data Parsed : Type 0 where
  parsed unparsed : Query → Parsed

abbrev pub read_opt : Query → ResourceHeader → Option (List EdnsOption) → Parsed
read_opt q h none = unparsed q
read_opt q h (some os) = parsed (read_options (record q { msg_size = h.rclass }) os)

module _ (p : Parser) where
  open p use {State, start, question, skip_to_additionals, additional_header, opt_resource}

  -- One round of the loop; the last argument is what follows behind a record of another type.
  abbrev pub read_additional : Query → Additional State → (State → Option Parsed) → Option Parsed
  read_additional q section_done rest = some (parsed q)
  read_additional q malformed rest = some (unparsed q)
  read_additional q (found h s) rest =
      if h.rtype == type_opt then some (read_opt q h (opt_resource s)) else rest s

  -- The loop over the additional section, on fuel: `none` is a loop that has not ended.
  unfoldable pub parse_additionals : ℕ → State → Query → Option Parsed
  parse_additionals zero s q = none
  parse_additionals (suc fuel) s q =
      read_additional q (additional_header s) (λ s'. parse_additionals fuel s' q)

  -- What is known of a message behind its question.
  abbrev pub with_question : Query → Header → Question → Query
  with_question q h x = record q {
    id = h.id;
    recursion_desired = h.recursion_desired;
    qclass = x.qclass;
    qtype = x.qtype;
    name = x.name;
  }

  abbrev pub parse_question : ℕ → Query → Header → Option (Question × State) → Option Parsed
  parse_question fuel q h none = some (unparsed q)
  parse_question fuel q h (some (x, s)) =
      parse_additionals fuel (skip_to_additionals s) (with_question q h x)

  abbrev pub parse_message : ℕ → Query → Option (Header × State) → Option Parsed
  parse_message fuel q none = some (unparsed q)
  parse_message fuel q (some (h, s)) = parse_question fuel q h (question s)

  unfoldable pub parse : ℕ → Query → Option Parsed
  parse fuel q = parse_message fuel q (start q.payload)

  -- The MAC of a peer that is not this host.
  abbrev pub peer_mac : Tables → Ip → Option Bytes
  peer_mac t ip =
      if is_loopback ip then none else (if length (to4 ip) == 0 then t.ndp_mac ip else t.arp_mac ip)

  -- A MAC of a client behind a proxy on this host leads to the client's address.
  abbrev pub first_ip : Option Ip → Option Ip → Ip → Ip
  first_ip (some ip) ndp peer = ip
  first_ip none (some ip) peer = ip
  first_ip none none peer = peer

  abbrev pub peer_of_mac : Tables → Query → Option Bytes → Query
  peer_of_mac t q none = q
  peer_of_mac t q (some mac) =
      if is_loopback q.peer_ip
      then record q { peer_ip = first_ip (t.arp_ip mac) (t.ndp_ip mac) q.peer_ip }
      else q

  abbrev pub find_peer : Tables → Parsed → Parsed
  find_peer t (unparsed q) = unparsed q
  find_peer t (parsed q) = parsed (peer_of_mac t q q.mac)

  -- `New`
  abbrev pub initial : Tables → Bytes → Ip → Ip → Query
  initial t payload peer_ip local_ip = record {
    id = 0;
    qclass = 0;
    qtype = 0;
    recursion_desired = false;
    msg_size = max_dns_size;
    name = [];
    local_ip = local_ip;
    peer_ip = peer_ip;
    mac = peer_mac t peer_ip;
    payload = payload;
  }

  unfoldable pub new : ℕ → Tables → Bytes → Ip → Ip → Option Parsed
  new fuel t payload peer_ip local_ip = do
    r ← parse fuel (initial t payload peer_ip local_ip)
    some (find_peer t r)
