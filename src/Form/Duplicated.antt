-- ===== src/Form/Duplicated.antt =====
-- A form that is filled in from a job or a schedule, and what it is then read for,
-- crates/ora-cli/src/tui.rs.
use ora.Base.{
  position, ℕ, zero, suc, ◌≡◌, refl, ◌∙◌, ap, Bool, true, false, Option, none, some, String, List,
  if◌then◌else◌, All,
}
use ora.Convert.Messages.{
  Protobuf, ProtoTimeoutPolicy, ProtoRetryPolicy, ProtoTimeoutBaseTime, ProtoBackoffStrategy,
  base_unspecified, strategy_unspecified, base_target_execution_time, base_start_time,
  strategy_fixed, strategy_exponential,
}
use ora.Convert.Policies.{base_time, backoff_strategy, base_time_number, backoff_strategy_number}
use ora.Form.Text.{text_eq, is_nil}
use ora.Form.State.{FormKind, job, schedule, text, integer, Field, Form}
use ora.Form.Payload.{is_input, trim}
use ora.Form.Options.{
  codes, option_of, choices, option_fields, new_form, find_option, displayed, display, option,
  select_choice,
}
use ora.Form.Policies.{
  positive, Texts, InvalidOption, fine, is_target, is_exponential, fill, fill_choice, to_std,
  to_proto, duration_text, retries_text, fill_timeout, fill_retry, fill_policies, duration_option,
  retries_option, base_time_option, backoff_strategy_option, policies, read, read_retries,
  invalid_timeout, invalid_backoff, invalid_max_backoff,
}
use ora.Form.Filled.{
  find-fill_other, find-fill_choice_other, option-fill, text_or_none, find-fill_choice_self,
  find_option-new_form,
}

-- A base time or a strategy as a form keeps it: one that is not given is the start or a fixed one.
abbrev pub kept_base_time : ProtoTimeoutBaseTime → ProtoTimeoutBaseTime
kept_base_time base_target_execution_time = base_target_execution_time
kept_base_time base_start_time = base_start_time
kept_base_time base_unspecified = base_start_time

abbrev pub kept_strategy : ProtoBackoffStrategy → ProtoBackoffStrategy
kept_strategy strategy_exponential = strategy_exponential
kept_strategy strategy_fixed = strategy_fixed
kept_strategy strategy_unspecified = strategy_fixed

base_time_kept :
    (b : ProtoTimeoutBaseTime)
    → (if is_target b then base_target_execution_time else base_start_time) ≡ kept_base_time b
base_time_kept base_target_execution_time = refl
base_time_kept base_start_time = refl
base_time_kept base_unspecified = refl

strategy_kept :
    (b : ProtoBackoffStrategy)
    → (if is_exponential b then strategy_exponential else strategy_fixed) ≡ kept_strategy b
strategy_kept strategy_exponential = refl
strategy_kept strategy_fixed = refl
strategy_kept strategy_unspecified = refl

-- The policies as a form keeps them: a duration that is not positive is left out.
module _ (P : Protobuf) (t : Texts) where
  abbrev kept_nanos : Option ℕ → Option P.Duration
  kept_nanos none = none
  kept_nanos (some zero) = none
  kept_nanos (some (suc n)) = P.to_duration (suc n)

  abbrev pub kept_duration : Option P.Duration → Option P.Duration
  kept_duration none = none
  kept_duration (some d) = kept_nanos (P.from_duration d)

  duration_kept : (d : Option P.Duration) → to_proto P t (to_std P t d) ≡ kept_duration d
  duration_kept none = refl
  duration_kept (some d) = by_value (P.from_duration d)
    where
      by_value : (o : Option ℕ) → to_proto P t (positive o) ≡ kept_nanos o
      by_value none = refl
      by_value (some zero) = refl
      by_value (some (suc n)) = refl

  abbrev pub kept_timeout : ProtoTimeoutPolicy P → ProtoTimeoutPolicy P
  kept_timeout p = record {
    timeout = kept_duration p.timeout;
    base_time = base_time_number (kept_base_time (base_time p.base_time));
  }

  abbrev pub kept_retry : ProtoRetryPolicy P → ProtoRetryPolicy P
  kept_retry p = record {
    retries = p.retries;
    backoff_duration = kept_duration p.backoff_duration;
    max_backoff_duration = kept_duration p.max_backoff_duration;
    backoff_strategy =
        backoff_strategy_number (kept_strategy (backoff_strategy p.backoff_strategy));
  }

  -- Reading a duration or a number where one was filled in.
  duration_option-filled :
      (key : String) (e : InvalidOption) (d : Option P.Duration) (f : Form)
      → option key f ≡ text_or_none (duration_text P t d)
      → duration_option P t key e f ≡ fine (to_std P t d)
  unfolding duration_option duration_text
  duration_option-filled key e d f h = rw (h, duration_option) (by_value (to_std P t d))
    where
      by_value :
          (o : Option ℕ)
          → (let s =
                trim t.is_whitespace
                  (text_or_none (elim o [ none ↦ none | some n ↦ some (t.format_duration n) ])) in
              if is_nil s then fine none else read P t e (t.parse_duration s))
            ≡ fine o
      by_value none = unfold trim in refl
      by_value (some n) = rw (t.format-full n) (rw (t.parse-format n) refl)

  retries_option-filled :
      (n : ℕ) (f : Form)
      → option "retries" f ≡ text_or_none (retries_text P t n)
      → retries_option P t f ≡ fine n
  unfolding retries_option
  retries_option-filled n f h = rw (h, retries_option) (by_value n)
    where
      by_value :
          (n : ℕ)
          → (let s = trim t.is_whitespace (text_or_none (retries_text P t n)) in
              if is_nil s then fine 0 else read_retries P t (t.parse_u64 s))
            ≡ fine n
      by_value zero = unfold trim retries_text in refl
      by_value (suc n) =
          unfold retries_text in rw (t.write-full (suc n)) (rw (t.parse-write (suc n)) refl)

  module _ (kind : FormKind) (schema_fields : List Field)
      (inputs : All (λ field. is_input field ≡ true) schema_fields) (tp : ProtoTimeoutPolicy P)
      (rp : ProtoRetryPolicy P) where
    abbrev blank : Form
    blank = new_form kind schema_fields

    abbrev timed : Form
    timed = fill "timeout" (duration_text P t tp.timeout) blank

    abbrev based : Form
    based = fill_choice "timeout_base" "target" (is_target (base_time tp.base_time)) timed

    abbrev counted : Form
    counted = fill "retries" (retries_text P t rp.retries) based

    abbrev backed_off : Form
    backed_off = fill "backoff" (duration_text P t rp.backoff_duration) counted

    abbrev capped_off : Form
    capped_off = fill "max_backoff" (duration_text P t rp.max_backoff_duration) backed_off

    abbrev filled : Form
    filled =
        fill_choice "backoff_strategy" "exponential"
          (is_exponential (backoff_strategy rp.backoff_strategy)) capped_off

    new_option :
        (k : String) (field : Field)
        → find_option (codes k) (option_fields job) ≡ some field
        → find_option (codes k) (option_fields schedule) ≡ some field
        → find_option (codes k) blank.fields ≡ some field
    new_option k field j s = find_option-new_form (codes k) kind schema_fields inputs ∙ by_kind kind
      where
        by_kind : (kind : FormKind) → find_option (codes k) (option_fields kind) ≡ some field
        by_kind job = j
        by_kind schedule = s

    timeout_filled : option "timeout" filled ≡ text_or_none (duration_text P t tp.timeout)
    unfolding option find_option text_eq
    timeout_filled =
        ap displayed (
          find-fill_choice_other "timeout" "backoff_strategy" "exponential" _ capped_off refl
          ∙ (find-fill_other "timeout" "max_backoff" _ backed_off refl
              ∙ (find-fill_other "timeout" "backoff" _ counted refl
                  ∙ (find-fill_other "timeout" "retries" _ based refl
                      ∙ find-fill_choice_other "timeout" "timeout_base" "target" _ timed refl))))
        ∙ option-fill "timeout" (duration_text P t tp.timeout) blank
            (option_of "timeout" "timeout" text) (new_option "timeout" _ refl refl) tt refl

    retries_filled : option "retries" filled ≡ text_or_none (retries_text P t rp.retries)
    unfolding option find_option text_eq
    retries_filled =
        ap displayed (
          find-fill_choice_other "retries" "backoff_strategy" "exponential" _ capped_off refl
          ∙ (find-fill_other "retries" "max_backoff" _ backed_off refl
              ∙ find-fill_other "retries" "backoff" _ counted refl))
        ∙ option-fill "retries" (retries_text P t rp.retries) based
            (option_of "retries" "retries" integer)
            (find-fill_choice_other "retries" "timeout_base" "target" _ timed refl
              ∙ (find-fill_other "retries" "timeout" _ blank refl
                  ∙ new_option "retries" _ refl refl))
            tt refl

    -- What stands in the form before the retries, for an option that is set after them.
    before_retries :
        (k : String) (field : Field)
        → find_option (codes k) (option_fields job) ≡ some field
        → find_option (codes k) (option_fields schedule) ≡ some field
        → text_eq (codes "retries") (codes k) ≡ false
        → text_eq (codes "timeout_base") (codes k) ≡ false
        → text_eq (codes "timeout") (codes k) ≡ false
        → find_option (codes k) counted.fields ≡ some field
    before_retries k field j s a b c =
        find-fill_other k "retries" _ based a
        ∙ (find-fill_choice_other k "timeout_base" "target" _ timed b
            ∙ (find-fill_other k "timeout" _ blank c ∙ new_option k field j s))

    backoff_filled : option "backoff" filled ≡ text_or_none (duration_text P t rp.backoff_duration)
    unfolding option find_option text_eq
    backoff_filled =
        ap displayed (
          find-fill_choice_other "backoff" "backoff_strategy" "exponential" _ capped_off refl
          ∙ find-fill_other "backoff" "max_backoff" _ backed_off refl)
        ∙ option-fill "backoff" (duration_text P t rp.backoff_duration) counted
            (option_of "backoff" "retry backoff" text)
            (before_retries "backoff" _ refl refl refl refl refl) tt refl

    max_backoff_filled :
        option "max_backoff" filled ≡ text_or_none (duration_text P t rp.max_backoff_duration)
    unfolding option find_option text_eq
    max_backoff_filled =
        ap displayed
          (find-fill_choice_other "max_backoff" "backoff_strategy" "exponential" _ capped_off refl)
        ∙ option-fill "max_backoff" (duration_text P t rp.max_backoff_duration) backed_off
            (option_of "max_backoff" "max backoff" text)
            (find-fill_other "max_backoff" "backoff" _ counted refl
              ∙ before_retries "max_backoff" _ refl refl refl refl refl)
            tt refl

    base_time_filled : base_time_option filled ≡ (
        if is_target (base_time tp.base_time) then base_target_execution_time else base_start_time)
    unfolding base_time_option option find_option text_eq
    base_time_filled =
        ap
          (λ o.
            if text_eq (displayed o) (codes "target")
            then base_target_execution_time
            else base_start_time)
          (find-fill_choice_other "timeout_base" "backoff_strategy" "exponential" _ capped_off refl
            ∙ (find-fill_other "timeout_base" "max_backoff" _ backed_off refl
                ∙ (find-fill_other "timeout_base" "backoff" _ counted refl
                    ∙ (find-fill_other "timeout_base" "retries" _ based refl
                        ∙ find-fill_choice_self "timeout_base" "target"
                            (is_target (base_time tp.base_time)) timed
                            (option_of "timeout_base" "timeout from" (choices "start" "target"))
                            (find-fill_other "timeout_base" "timeout" _ blank refl
                              ∙ new_option "timeout_base" _ refl refl)))))
        ∙ chosen (is_target (base_time tp.base_time))
      where
        chosen :
            (on : Bool)
            → (if text_eq
                  (displayed (
                    some (
                      if on
                      then select_choice
                          (codes "target")
                          (choices "start" "target")
                          (option_of "timeout_base" "timeout from" (choices "start" "target"))
                      else option_of "timeout_base" "timeout from" (choices "start" "target"))))
                  (codes "target")
                then base_target_execution_time
                else base_start_time)
              ≡ (if on then base_target_execution_time else base_start_time)
        chosen true = unfold select_choice display position in refl
        chosen false = unfold display in refl

    strategy_filled : backoff_strategy_option filled ≡ (
        if is_exponential (backoff_strategy rp.backoff_strategy)
        then strategy_exponential
        else strategy_fixed)
    unfolding backoff_strategy_option option find_option text_eq
    strategy_filled =
        ap
          (λ o.
            if text_eq (displayed o) (codes "exponential")
            then strategy_exponential
            else strategy_fixed)
          (find-fill_choice_self "backoff_strategy" "exponential"
            (is_exponential (backoff_strategy rp.backoff_strategy)) capped_off
            (option_of "backoff_strategy" "backoff strategy" (choices "fixed" "exponential"))
            (find-fill_other "backoff_strategy" "max_backoff" _ backed_off refl
              ∙ (find-fill_other "backoff_strategy" "backoff" _ counted refl
                  ∙ before_retries "backoff_strategy" _ refl refl refl refl refl)))
        ∙ chosen (is_exponential (backoff_strategy rp.backoff_strategy))
      where
        chosen :
            (on : Bool)
            → (if text_eq
                  (displayed (
                    some (
                      if on
                      then select_choice (codes "exponential") (choices "fixed" "exponential") (
                          option_of "backoff_strategy" "backoff strategy"
                            (choices "fixed" "exponential"))
                      else option_of "backoff_strategy" "backoff strategy"
                          (choices "fixed" "exponential"))))
                  (codes "exponential")
                then strategy_exponential
                else strategy_fixed)
              ≡ (if on then strategy_exponential else strategy_fixed)
        chosen true = unfold select_choice display position in refl
        chosen false = unfold display in refl

    -- A new form that is filled with policies and then read gives them back: the retries as they
    -- were, each duration if it is positive and no duration otherwise, the base time and the strategy
    -- with those that are not given as the start and a fixed one. The fields from the schema come
    -- before the options, whatever their names.
    pub policies-fill_policies :
        policies P t (fill_policies P t (some tp) (some rp) blank)
        ≡ fine (kept_timeout tp, kept_retry rp)
    unfolding policies fill_policies fill_timeout fill_retry
    policies-fill_policies =
        rw (duration_option-filled "timeout" invalid_timeout tp.timeout filled timeout_filled) (
          rw (retries_option-filled rp.retries filled retries_filled) (
            rw
              (duration_option-filled "backoff" invalid_backoff rp.backoff_duration filled
                backoff_filled)
              (rw
                (duration_option-filled "max_backoff" invalid_max_backoff rp.max_backoff_duration
                  filled max_backoff_filled)
                (rw base_time_filled (
                  rw strategy_filled (
                    rw
                      (
                        base_time_kept (base_time tp.base_time),
                        strategy_kept (backoff_strategy rp.backoff_strategy),
                        duration_kept tp.timeout,
                        duration_kept rp.backoff_duration,
                        duration_kept rp.max_backoff_duration,
                      )
                      refl))))))
