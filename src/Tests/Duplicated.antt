-- ===== src/Tests/Duplicated.antt =====
-- A form filled in from a job's policies, at concrete inputs.
use ora.Base.{ℕ, ◌+◌, ◌-◌, ◌≡◌, refl, Bool, false, Option, none, some, [], ◌∷◌, ◌==◌, arith, ap}
use ora.Base.Int.{pos}
use ora.Convert.Messages.{ProtoTimeoutPolicy, ProtoRetryPolicy}
use ora.Form.Text.{Text, is_nil}
use ora.Form.State.{job}
use ora.Form.Payload.{trim}
use ora.Form.Options.{new_form}
use ora.Form.Policies.{Texts, fine, fill_policies, policies}
use ora.Form.Duplicated.{kept_timeout, kept_retry, policies-fill_policies}
use ora.Tests.Convert.{plain}
use ora.Tests.Form.{title_field}

-- A number as one character, none of which is a space.
abbrev written : ℕ → Text
written n = (n + 100) ∷ []

abbrev read_back : Text → Option ℕ
read_back [] = none
read_back (c ∷ t) = some (c - 100)

abbrev is_space : ℕ → Bool
is_space c = c == 32

trim-written : (n : ℕ) → trim is_space (written n) ≡ written n
unfolding trim
trim-written n = ground arith

read_back-written : (n : ℕ) → read_back (trim is_space (written n)) ≡ some n
read_back-written n = rw (trim-written n) (ap some (omega arith))

written-full : (n : ℕ) → is_nil (trim is_space (written n)) ≡ false
written-full n = rw (trim-written n) refl

abbrev one_char : Texts
one_char = record {
  is_whitespace = is_space;
  format_duration = written;
  parse_duration = read_back;
  parse-format = read_back-written;
  format-full = written-full;
  write_number = written;
  parse_u64 = read_back;
  parse-write = read_back-written;
  write-full = written-full;
}

abbrev a_timeout : ProtoTimeoutPolicy plain
a_timeout = record { timeout = some 7; base_time = pos 1 }

abbrev a_retry : ProtoRetryPolicy plain
a_retry = record {
  retries = 3;
  backoff_duration = some 5;
  max_backoff_duration = none;
  backoff_strategy = pos 2;
}

policies-fill_policies_example :
    policies plain one_char (
      fill_policies plain one_char
        (some a_timeout)
        (some a_retry)
        (new_form job (title_field ∷ [])))
    ≡ fine (kept_timeout plain one_char a_timeout, kept_retry plain one_char a_retry)
policies-fill_policies_example =
    policies-fill_policies plain one_char job (title_field ∷ []) (refl, tt) a_timeout a_retry
