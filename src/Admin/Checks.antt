-- ===== src/Admin/Checks.antt =====
-- The checks of jobs that come in: `validate_labels` of crates/ora-server/src/util.rs, and the loop
-- of `add_jobs` of crates/ora-server/src/grpc/admin.rs.
use ora.Base.{ℕ, String, Bool, true, false, not, ◌||◌, List, [], ◌∷◌, any, ◌==◌, min, if◌then◌else◌}
use ora.Backend.{Label, JobDefinition}
use ora.Util.{validate_time}
use ora.JobTypes.Ids.{codes}
use ora.Labels.Defs.{deduplicate_labels}
use ora.Convert.Status.{Answer, fine, refused, invalid_argument, labels, time, payload, internal}

unfoldable pub has_nul : String → Bool
has_nul s = any (λ c. c == 0) (codes s)

unfoldable pub validate_labels : List Label → Bool
unfolding has_nul
validate_labels [] = true
validate_labels (l ∷ ls) =
    let rest = validate_labels ls in if has_nul l.key || has_nul l.value then false else rest

-- `err_status`: whatever went wrong, the status is that of an internal error.
unfoldable pub err_status : {A : Type 0} → Answer A → Answer A
err_status (fine a) = fine a
err_status (refused s) = refused internal

-- A page has 50 entries if no size is given, and 1000 at most.
unfoldable pub page_size : ℕ → ℕ
page_size requested = if requested == 0 then 50 else min requested 1000

module _ (epoch : ℕ) (is_json : String → Bool) where
  -- One round of the loop; its labels are deduplicated first.
  unfoldable pub check_job : JobDefinition → Answer JobDefinition
  unfolding deduplicate_labels validate_labels validate_time
  check_job job =
      let deduplicated = deduplicate_labels job.labels in
      if not (validate_labels deduplicated)
      then refused (invalid_argument labels)
      else if not (validate_time epoch job.target_execution_time)
      then refused (invalid_argument time)
      else if not (is_json job.input_payload_json)
      then refused (invalid_argument payload)
      else fine (record job { labels = deduplicated })
