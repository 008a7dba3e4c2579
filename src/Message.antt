-- ===== src/Message.antt =====
-- internal/dnsmessage, as the readers of answers use it: the parser of messages is a copy of a
-- library, and an interface here.
use nextdns.Prelude.{Bytes, List, Option, some, ℕ, ◌<◌, ◌≡◌}
use nextdns.Net.{Ip}

-- `ResourceHeader`, as far as it is read.
pub record RecordHeader : Type 0 where
  pub name : Bytes
  pub rtype : ℕ

-- What `AnswerHeader` and `AdditionalHeader` bring.
pub data Next (S : Type 0) : Type 0 where
  section_done malformed : Next S
  record_at : RecordHeader → S → Next S

-- What `SkipAnswer` and `SkipAdditional` bring. `nothing_left` is `ErrSectionDone`.
pub data Skip (S : Type 0) : Type 0 where
  skipped : S → Skip S
  nothing_left : S → Skip S
  skip_failed : Skip S

-- `HTTPSResource`: the priority, and the parameters with their keys.
pub record Https : Type 0 where
  pub priority : ℕ
  pub params : List (ℕ × Bytes)

abbrev pub type_a : ℕ
type_a = 1

abbrev pub type_ptr : ℕ
type_ptr = 12

abbrev pub type_aaaa : ℕ
type_aaaa = 28

abbrev pub type_https : ℕ
type_https = 65

-- `Parser`. A record whose header was read and which is neither read nor skipped is met again. What
-- is left of a message never grows, and falls where a record is read or skipped.
pub record Reader : Type 1 where
  pub State : Type 0
  pub start : Bytes → Option (ℕ × State)
  pub skip_all_questions : State → Option State
  pub skip_all_authorities : State → Option State
  pub answer_header : State → Next State
  pub additional_header : State → Next State
  pub skip_answer : State → Skip State
  pub skip_additional : State → Skip State
  pub a_resource : State → Option (Ip × State)
  pub aaaa_resource : State → Option (Ip × State)
  pub ptr_resource : State → Option (Bytes × State)
  pub https_resource : State → Option (Https × State)
  pub left : State → ℕ
  pub answer_header-again :
      (s s' : State) (h : RecordHeader)
      → answer_header s ≡ record_at h s'
      → answer_header s' ≡ record_at h s'
  pub answer_header-left :
      (s s' : State) (h : RecordHeader) → answer_header s ≡ record_at h s' → left s' ≡ left s
  pub skip_answer-left : (s s' : State) → skip_answer s ≡ skipped s' → left s' < left s
  pub https_resource-left :
      (s s' : State) (r : Https) → https_resource s ≡ some (r, s') → left s' < left s
