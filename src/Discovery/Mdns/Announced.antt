-- ===== src/Discovery/Mdns/Announced.antt =====
-- `parseEntries` of discovery/mdns.go: the addresses that a message gives to names.
use nextdns.Prelude.{
  Bytes, List, Option, [], if◌then◌else◌, length, ltb, none, put, some, suc, zero, ℕ, ◌==◌,
}
use nextdns.Net.{Ip}
use nextdns.Message.{
  Next, Reader, RecordHeader, Skip, malformed, nothing_left, record_at, section_done, skip_failed,
  skipped, type_a, type_aaaa,
}

pub data Section : Type 0 where
  section_answer section_additional : Section

-- The map of the entries, or an error.
pub data Parsed : Type 0 where
  parse_error : Parsed
  parsed : List (Bytes × Bytes) → Parsed

module _ (p : Reader) (print_ip : Ip → Bytes) where
  open p use {
    State, start, skip_all_questions, skip_all_authorities, answer_header, additional_header,
    skip_answer, skip_additional, a_resource, aaaa_resource,
  }

  -- `getHeader` and `skipRecord`
  abbrev pub get_header : Section → State → Next State
  get_header section_answer s = answer_header s
  get_header section_additional s = additional_header s

  abbrev pub skip_record : Section → State → Skip State
  skip_record section_answer s = skip_answer s
  skip_record section_additional s = skip_additional s

  -- A record with an address, or one that is skipped; `rest` goes on with the next.
  abbrev pub read_address :
      Option (Ip × State)
      → Bytes
      → List (Bytes × Bytes)
      → (State → List (Bytes × Bytes) → Option Parsed)
      → Option Parsed
  read_address none name entries rest = some parse_error
  read_address (some (ip, s)) name entries rest = rest s (put entries (print_ip ip) name)

  abbrev pub read_skipped :
      Skip State
      → List (Bytes × Bytes)
      → (State → List (Bytes × Bytes) → Option Parsed)
      → Option Parsed
  read_skipped (skipped s) entries rest = rest s entries
  read_skipped (nothing_left s) entries rest = rest s entries
  read_skipped skip_failed entries rest = some parse_error

  abbrev pub read_record :
      Section
      → RecordHeader
      → State
      → List (Bytes × Bytes)
      → (State → List (Bytes × Bytes) → Option Parsed)
      → Option Parsed
  read_record sec h s entries rest =
      if h.rtype == type_a
      then read_address (a_resource s) h.name entries rest
      else if h.rtype == type_aaaa
      then read_address (aaaa_resource s) h.name entries rest
      else read_skipped (skip_record sec s) entries rest

  -- The end of a section: behind the answers come the additional records.
  abbrev pub end_section :
      Section → State → List (Bytes × Bytes) → (State → Option Parsed) → Option Parsed
  end_section section_additional s entries rest = some (parsed entries)
  end_section section_answer s entries rest = elim (skip_all_authorities s) [
    | none ↦ some parse_error
    | some s' ↦ rest s'
  ]

  -- The loop over the records. The fuel bounds its rounds; none is left over for a message with
  -- more records.
  unfoldable pub read_records : ℕ → Section → State → List (Bytes × Bytes) → Option Parsed
  read_records zero sec s entries = none
  read_records (suc fuel) sec s entries = elim (get_header sec s) [
    | malformed ↦ some parse_error
    | section_done ↦
        end_section sec s entries (λ s'. read_records fuel section_additional s' entries)
    | record_at h s' ↦ read_record sec h s' entries (read_records fuel sec)
  ]

  unfoldable pub parse_entries : ℕ → Bytes → Option Parsed
  parse_entries fuel buf = elim (start buf) [
    | none ↦ some parse_error
    | some (rcode, s) ↦ elim (skip_all_questions s) [
      | none ↦ some parse_error
      | some s' ↦ read_records fuel section_answer s' []
    ]
  ]

  -- A message as `read` takes it: short ones and malformed ones are ignored.
  unfoldable pub announced : ℕ → Bytes → Option (List (Bytes × Bytes))
  announced fuel msg = if ltb (length msg) 12 then some [] else elim (parse_entries fuel msg) [
    | none ↦ none
    | some parse_error ↦ some []
    | some (parsed entries) ↦ some entries
  ]
