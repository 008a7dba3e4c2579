-- ===== src/Tests/Readers.antt =====
-- Two parsers of messages for the tests: what is left of a message is a number of records, and one
-- parser skips a record while the other fails to.
use nextdns.Prelude.{
  Option, [], ap, arith, length, none, some, suc, sym, zero, ℕ, ◌-◌, ◌<◌, ◌∙◌, ◌∷◌, ◌≡◌,
}
use nextdns.Message.{
  Https, Next, Reader, RecordHeader, Skip, nothing_left, record_at, section_done, skip_failed,
  skipped, type_a,
}

abbrev pub an_address : RecordHeader
an_address = record { name = []; rtype = type_a }

abbrev pub next_record : ℕ → Next ℕ
next_record zero = section_done
next_record (suc n) = record_at an_address (suc n)

pub next_record_again :
    (s s' : ℕ) (h : RecordHeader)
    → next_record s ≡ record_at h s'
    → (next_record s' ≡ record_at h s') × (s' ≡ s)
next_record_again zero s' h e = absurd cc
next_record_again (suc n) s' h e =
    let same : suc n ≡ s' = cc in (ap next_record (sym same) ∙ e, sym same)

abbrev pub skip_one : ℕ → Skip ℕ
skip_one zero = nothing_left zero
skip_one (suc n) = skipped n

abbrev pub skip_none : ℕ → Skip ℕ
skip_none n = skip_failed

pub skip_one_left : (s s' : ℕ) → skip_one s ≡ skipped s' → s' < s
skip_one_left zero s' e = absurd cc
skip_one_left (suc n) s' e = let same : n ≡ s' = cc in omega (arith, same)

pub skip_none_left : (s s' : ℕ) → skip_none s ≡ skipped s' → s' < s
skip_none_left s s' e = absurd cc

pub no_https : (s s' : ℕ) (r : Https) → ◌≡◌ {A = Option (Https × ℕ)} none (some (r, s')) → s' < s
no_https s s' r e = absurd cc

abbrev pub reader_of : (skip : ℕ → Skip ℕ) → ((s s' : ℕ) → skip s ≡ skipped s' → s' < s) → Reader
reader_of skip skip_left = record {
  State = ℕ;
  start = λ b. some (0, length b);
  skip_all_questions = λ n. some n;
  skip_all_authorities = λ n. some n;
  answer_header = next_record;
  additional_header = next_record;
  skip_answer = skip;
  skip_additional = skip;
  a_resource = λ n. some (10 ∷ 0 ∷ 0 ∷ 9 ∷ [], n - 1);
  aaaa_resource = λ n. none;
  ptr_resource = λ n. none;
  https_resource = λ n. none;
  left = λ n. n;
  answer_header-again = λ s s' h e. (next_record_again s s' h e).0;
  answer_header-left = λ s s' h e. (next_record_again s s' h e).1;
  skip_answer-left = skip_left;
  https_resource-left = no_https;
}

abbrev pub reader : Reader
reader = reader_of skip_one skip_one_left

abbrev pub stuck_reader : Reader
stuck_reader = reader_of skip_none skip_none_left
