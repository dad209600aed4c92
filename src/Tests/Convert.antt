-- ===== src/Tests/Convert.antt =====
-- The theorems about messages and job type IDs at concrete inputs.
use ora.Base.{ℕ, ◌≡◌, ◌↔◌, refl, sym, true, some, none, [], ◌∷◌}
use ora.Base.Int.{pos}
use ora.Backend.{
  from_start_time, exponential, create, JobDefinition, fixed_interval, ScheduleDefinition,
}
use ora.JobTypes.Ids.{codes, validate, all_segments, is_segment, is_letter, all_word, is_word}
use ora.JobTypes.Grammar.{IsJobTypeId, validate_iff}
use ora.JobTypes.Scan.{client_validate, client_validate-validate}
use ora.Convert.Status.{fine}
use ora.Convert.Messages.{Protobuf}
use ora.Convert.Jobs.{schedule_from, schedule_to}
use ora.Convert.RoundTrip.{IsSendable, schedule_from-schedule_to}

-- A protocol that carries nanoseconds as they are.
abbrev pub plain : Protobuf
plain = record {
  Duration = ℕ;
  Timestamp = ℕ;
  default_duration = 0;
  to_duration = some;
  from_duration = some;
  to_timestamp = λ t. t;
  from_timestamp = some;
  duration_returns = λ d p e. sym e;
  timestamp_returns = λ t. refl;
}

abbrev pub template : JobDefinition
template = record {
  job_type_id = "mail.send";
  target_execution_time = 1000;
  input_payload_json = "{}";
  labels = record { key = "team"; value = "ops" } ∷ [];
  timeout_policy = record { timeout = 60; base_time = from_start_time };
  retry_policy = record {
    retries = 3;
    backoff_duration = 5;
    max_backoff_duration = some 40;
    backoff_strategy = exponential;
  };
  priority = pos 1;
}

abbrev pub hourly : ScheduleDefinition
hourly = record {
  scheduling = fixed_interval 3600 true create;
  job_template = template;
  labels = [];
  time_range = record { start = some 100; end = none };
}

template-IsSendable : IsSendable plain template
unfolding validate all_segments is_segment is_letter all_word is_word
template-IsSendable = record {
  valid_id = refl;
  timeout_carried = (60, refl);
  backoff_carried = (5, refl);
  max_backoff_carried = (40, refl);
}

schedule_from-schedule_to_example : schedule_from plain (schedule_to plain hourly) ≡ fine hourly
schedule_from-schedule_to_example =
    schedule_from-schedule_to plain hourly template-IsSendable (3600, refl)

validate_iff_example : (validate (codes "mail.send_2") ≡ true) ↔ IsJobTypeId (codes "mail.send_2")
validate_iff_example = validate_iff (codes "mail.send_2")

client_validate-validate_example :
    client_validate (codes "mail..send") ≡ validate (codes "mail..send")
client_validate-validate_example = client_validate-validate (codes "mail..send")
