-- ===== src/Proxy/Hosts.antt =====
-- `hostsResolve` and `replyRCode` of proxy/util.go: answers that the proxy makes itself. The message
-- builder and parser (internal/dnsmessage) are an interface, the host tables are functions.
use nextdns.Prelude.{
  Bool, Bytes, List, Option, [], false, has_suffix, if◌then◌else◌, last_index_byte, length, none,
  not, some, true, ℕ, ◌==◌, ◌>>=◌, ◌∷◌,
}
use nextdns.Query.{Query}
use nextdns.Proxy.Reverse.{ptr_ip}
use nextdns.Net.{Ip, to4}

-- `HostResolver`
pub record HostResolver : Type 0 where
  pub lookup_addr : Bytes → List Bytes
  pub lookup_host : Bytes → List Bytes

abbrev pub type_a : ℕ
type_a = 1

abbrev pub type_ptr : ℕ
type_ptr = 12

abbrev pub type_aaaa : ℕ
type_aaaa = 28

-- The packages below the proxy: `net`'s printing and parsing of addresses, and the messages. A
-- builder writes into the buffer that it was made on; `buffer` is what that buffer holds.
pub record Messages : Type 1 where
  pub Parser : Type 0
  pub Header : Type 0
  pub Question : Type 0
  pub Name : Type 0
  pub Builder : Type 0
  pub print_ip : Option Ip → Bytes
  pub parse_ip : Bytes → Ip
  pub start : Bytes → Option (Header × Parser)
  pub question : Parser → Option Question
  pub new_builder : Bytes → Header → Builder
  pub as_answer : Header → Header
  pub start_answers : Builder → Question → Builder
  pub new_name : Bytes → Option Name
  pub a_resource : Builder → Question → Bytes → Builder × Bool
  pub aaaa_resource : Builder → Question → Bytes → Builder × Bool
  pub ptr_resource : Builder → Question → Name → Builder × Bool
  pub finish : Builder → Option ℕ × Bytes
  pub buffer : Builder → Bytes
  pub reply_header : ℕ → ℕ → Header
  pub add_question : Builder → ℕ → ℕ → Option Name → Builder

-- `strings.IndexByte(ip, '.') != -1`
abbrev pub has_dot : Bytes → Bool
has_dot ip = elim (last_index_byte ip 46) [ some i ↦ true | none ↦ false ]

abbrev pub filter {ℓ} : {A : Type ℓ} → (A → Bool) → List A → List A
filter p [] = []
filter p (x ∷ xs) = if p x then x ∷ filter p xs else filter p xs

abbrev pub is_nil : List Bytes → Bool
is_nil [] = true
is_nil (x ∷ xs) = false

module _ (m : Messages) where
  open m use {
    Header, Question, Parser, Builder, print_ip, parse_ip, start, question, new_builder, as_answer,
    start_answers, new_name, a_resource, aaaa_resource, ptr_resource, finish, buffer, reply_header,
    add_question,
  }

  -- `replyRCode`: the size of the message, and the buffer that holds it.
  abbrev pub size_or_zero : Option ℕ × Bytes → ℕ × Bytes
  size_or_zero (none, buf) = (0, buf)
  size_or_zero (some n, buf) = (n, buf)

  unfoldable pub reply_rcode : ℕ → Query → Bytes → ℕ × Bytes
  reply_rcode rcode q buf = size_or_zero (
      finish (
        add_question (new_builder buf (reply_header q.id rcode)) q.qclass q.qtype
          (new_name q.name)))

  -- The hosts' records for the query: whether something was found, and the records of its type.
  unfoldable pub lookup : HostResolver → Query → Bool × List Bytes
  lookup r q =
      if q.qtype == type_a
      then (not (is_nil (r.lookup_host q.name)), filter has_dot (r.lookup_host q.name))
      else (if q.qtype == type_aaaa
          then (
            not (is_nil (r.lookup_host q.name)),
            filter (λ ip. not (has_dot ip)) (r.lookup_host q.name),
          )
          else (if q.qtype == type_ptr
              then (
                not (is_nil (r.lookup_addr (print_ip (ptr_ip q.name)))),
                filter (λ h. has_suffix h (46 ∷ [])) (r.lookup_addr (print_ip (ptr_ip q.name))),
              )
              else (not (is_nil (r.lookup_host q.name)), [])))

  -- One record: the builder, whether the last call bad, or `none` for an early return.
  unfoldable pub add_record : Query → Question → Builder → Bool → Bytes → Option (Builder × Bool)
  add_record q x b bad rr =
      if q.qtype == type_a
      then (if length (to4 (parse_ip rr)) == 4
          then some (a_resource b x (to4 (parse_ip rr)))
          else some (b, bad))
      else (if q.qtype == type_aaaa
          then (if length (parse_ip rr) == 16
              then some (aaaa_resource b x (parse_ip rr))
              else some (b, bad))
          else (if q.qtype == type_ptr
              then (do name ← new_name rr; some (ptr_resource b x name))
              else some (b, bad)))

  -- The loop over the records: the builder, and whether an error is returned.
  abbrev pub after_record :
      Builder → Option (Builder × Bool) → (Builder → Bool → Builder × Bool) → Builder × Bool
  after_record b none rest = (b, true)
  after_record b (some (b', bad)) rest = rest b' bad

  unfoldable pub add_records : Query → Question → Builder → Bool → List Bytes → Builder × Bool
  add_records q x b bad [] = (b, bad)
  add_records q x b bad (rr ∷ rrs) =
      after_record b (add_record q x b bad rr) (λ b' bad'. add_records q x b' bad' rrs)

  -- The size of the answer, or an error; and the buffer.
  abbrev pub finish_answer : Builder × Bool → Option ℕ × Bytes
  finish_answer (b, true) = (none, buffer b)
  finish_answer (b, false) = finish b

  abbrev pub answer_question :
      Query → Bytes → List Bytes → Header → Option Question → Option ℕ × Bytes
  answer_question q buf rrs h none = (none, buf)
  answer_question q buf rrs h (some x) =
      finish_answer (add_records q x (start_answers (new_builder buf (as_answer h)) x) false rrs)

  abbrev pub answer_message :
      Query → Bytes → List Bytes → Option (Header × Parser) → Option ℕ × Bytes
  answer_message q buf rrs none = (none, buf)
  answer_message q buf rrs (some (h, p)) = answer_question q buf rrs h (question p)

  abbrev pub answer_found : Query → Bytes → Bool × List Bytes → Option ℕ × Bytes
  answer_found q buf (false, rrs) = (none, buf)
  answer_found q buf (true, rrs) = answer_message q buf rrs (start q.payload)

  -- `hostsResolve`
  unfoldable pub hosts_resolve : HostResolver → Query → Bytes → Option ℕ × Bytes
  hosts_resolve r q buf = answer_found q buf (lookup r q)
