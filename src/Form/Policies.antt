-- ===== src/Form/Policies.antt =====
-- The policies and the priority that a form is filled with and read for, crates/ora-cli/src/tui.rs. The
-- texts of durations are another crate's, `Humantime`; those of numbers the standard library's.
use ora.Base.{ℕ, zero, suc, ◌≡◌, Bool, true, false, Option, none, some, String, if◌then◌else◌}
use ora.Convert.Messages.{
  Protobuf, ProtoTimeoutPolicy, ProtoRetryPolicy, ProtoTimeoutBaseTime, base_target_execution_time,
  base_start_time, ProtoBackoffStrategy, strategy_fixed, strategy_exponential,
}
use ora.Convert.Policies.{base_time, backoff_strategy, base_time_number, backoff_strategy_number}
use ora.Form.Text.{Text, text_eq, is_nil}
use ora.Form.State.{Form}
use ora.Form.Payload.{trim}
use ora.Form.Options.{codes, set_option, set_option_choice, option}

-- Durations and numbers as texts: a text that was written is read as it was, also if it is trimmed,
-- and it is not blank.
pub record Texts : Type 0 where
  pub is_whitespace : ℕ → Bool
  pub format_duration : ℕ → Text
  pub parse_duration : Text → Option ℕ
  pub parse-format : (d : ℕ) → parse_duration (trim is_whitespace (format_duration d)) ≡ some d
  pub format-full : (d : ℕ) → is_nil (trim is_whitespace (format_duration d)) ≡ false
  pub write_number : ℕ → Text
  pub parse_u64 : Text → Option ℕ
  pub parse-write : (n : ℕ) → parse_u64 (trim is_whitespace (write_number n)) ≡ some n
  pub write-full : (n : ℕ) → is_nil (trim is_whitespace (write_number n)) ≡ false

-- Why a form's options are refused.
pub data InvalidOption : Type 0 where
  invalid_timeout invalid_retries invalid_backoff invalid_max_backoff : InvalidOption

pub data Answer {ℓ} (A : Type ℓ) : Type ℓ where
  fine : A → Answer A
  invalid : InvalidOption → Answer A

infixl 5 ◌>>=◌
abbrev pub ◌>>=◌ {ℓ κ} : {A : Type ℓ} {B : Type κ} → Answer A → (A → Answer B) → Answer B
fine a >>= f = f a
invalid e >>= f = invalid e

-- `filter(|duration| !duration.is_zero())`.
abbrev pub positive : Option ℕ → Option ℕ
positive none = none
positive (some zero) = none
positive (some (suc d)) = some (suc d)

abbrev pub is_target : ProtoTimeoutBaseTime → Bool
is_target base_target_execution_time = true
is_target other = false

abbrev pub is_exponential : ProtoBackoffStrategy → Bool
is_exponential strategy_exponential = true
is_exponential other = false

-- `if let Some(value) = value { form.set_option(key, …) }`.
unfoldable pub fill : String → Option Text → Form → Form
unfolding set_option
fill key none f = f
fill key (some value) f = set_option key value f

unfoldable pub fill_choice : String → String → Bool → Form → Form
unfolding set_option_choice
fill_choice key value true f = set_option_choice key value f
fill_choice key value false f = f

unfoldable pub base_time_option : Form → ProtoTimeoutBaseTime
unfolding option
base_time_option f =
    if text_eq (option "timeout_base" f) (codes "target")
    then base_target_execution_time
    else base_start_time

unfoldable pub backoff_strategy_option : Form → ProtoBackoffStrategy
unfolding option
backoff_strategy_option f =
    if text_eq (option "backoff_strategy" f) (codes "exponential")
    then strategy_exponential
    else strategy_fixed

module _ (P : Protobuf) (t : Texts) where
  abbrev pub to_std : Option P.Duration → Option ℕ
  to_std none = none
  to_std (some d) = positive (P.from_duration d)

  -- `and_then(|d| d.try_into().ok())`.
  abbrev pub to_proto : Option ℕ → Option P.Duration
  to_proto none = none
  to_proto (some d) = P.to_duration d

  unfoldable pub duration_text : Option P.Duration → Option Text
  duration_text d = elim (to_std d) [ none ↦ none | some n ↦ some (t.format_duration n) ]

  unfoldable pub retries_text : ℕ → Option Text
  retries_text zero = none
  retries_text (suc n) = some (t.write_number (suc n))

  unfoldable pub fill_timeout : Option (ProtoTimeoutPolicy P) → Form → Form
  unfolding fill fill_choice duration_text
  fill_timeout none f = f
  fill_timeout (some policy) f =
      fill_choice "timeout_base" "target" (is_target (base_time policy.base_time))
        (fill "timeout" (duration_text policy.timeout) f)

  unfoldable pub fill_retry : Option (ProtoRetryPolicy P) → Form → Form
  unfolding fill fill_choice duration_text retries_text
  fill_retry none f = f
  fill_retry (some policy) f =
      fill_choice "backoff_strategy" "exponential"
        (is_exponential (backoff_strategy policy.backoff_strategy))
        (fill "max_backoff" (duration_text policy.max_backoff_duration) (
          fill "backoff" (duration_text policy.backoff_duration)
            (fill "retries" (retries_text policy.retries) f)))

  unfoldable pub fill_policies :
      Option (ProtoTimeoutPolicy P) → Option (ProtoRetryPolicy P) → Form → Form
  unfolding fill_timeout fill_retry
  fill_policies timeout retry f = fill_retry retry (fill_timeout timeout f)

  -- `trim()`.
  abbrev pub trimmed : String → Form → Text
  trimmed key f = trim t.is_whitespace (option key f)

  abbrev pub read {ℓ} : {A : Type ℓ} → InvalidOption → Option A → Answer (Option A)
  read e none = invalid e
  read e (some a) = fine (some a)

  unfoldable pub duration_option : String → InvalidOption → Form → Answer (Option ℕ)
  unfolding option
  duration_option key e f =
      if is_nil (trimmed key f) then fine none else read e (t.parse_duration (trimmed key f))

  abbrev pub read_retries : Option ℕ → Answer ℕ
  read_retries none = invalid invalid_retries
  read_retries (some n) = fine n

  unfoldable pub retries_option : Form → Answer ℕ
  unfolding option
  retries_option f =
      if is_nil (trimmed "retries" f)
      then fine 0
      else read_retries (t.parse_u64 (trimmed "retries" f))

  unfoldable pub policies : Form → Answer (ProtoTimeoutPolicy P × ProtoRetryPolicy P)
  unfolding duration_option retries_option base_time_option backoff_strategy_option
  policies f = do
    timeout ← duration_option "timeout" invalid_timeout f
    retries ← retries_option f
    backoff ← duration_option "backoff" invalid_backoff f
    max_backoff ← duration_option "max_backoff" invalid_max_backoff f
    fine (
      record { timeout = to_proto timeout; base_time = base_time_number (base_time_option f) },
      record {
        retries = retries;
        backoff_duration = to_proto backoff;
        max_backoff_duration = to_proto max_backoff;
        backoff_strategy = backoff_strategy_number (backoff_strategy_option f);
      },
    )
