-- ===== src/Admin/Admitted.antt =====
-- What reaches the backend through `add_jobs`.
use ora.Base.{
  ℕ, String, Bool, true, false, ◌≡◌, ◌≤◌, suc, refl, ap, ◌∙◌, ◌⊎◌, inl, inr, Option, List, [], ◌∷◌,
  map, All, length, arith,
}
use ora.Backend.{Label, JobDefinition}
use ora.Util.{validate_time}
use ora.JobTypes.Ids.{codes, validate, new_job_type_id}
use ora.Labels.Defs.{deduplicate_labels}
use ora.Labels.Inheritance.{key_count, deduplicate_labels-value_of}
use ora.Convert.Status.{Answer, fine, refused, ◌>>=◌, collect, Status, unavailable}
use ora.Convert.Messages.{Protobuf, ProtoJob}
use ora.Convert.Jobs.{job_from}
use ora.Convert.Filters.{Uuids, JobFilters}
use ora.Admin.Checks.{has_nul, validate_labels, check_job}
use ora.Admin.Jobs.{
  JobBackend, AddJobsRequest, AddJobsResponse, without_schedule, read_jobs, add_read, add_jobs,
  if_not_exists_from,
}

collected_cons :
    {B : Type 0} (a : Answer B) (rest : Answer (List B)) (ys : List B)
    → (do y ← a; zs ← rest; fine (y ∷ zs)) ≡ fine ys
    → (y : B) × (zs : List B) × (a ≡ fine y) × (rest ≡ fine zs) × (ys ≡ y ∷ zs)
collected_cons (fine y) (fine zs) ys e = (y, zs, refl, refl, cc)
collected_cons (fine y) (refused s) ys e = cc
collected_cons (refused s) rest ys e = cc

-- The elements of a collected list are results, in number as many.
pub collect-All :
    {A B : Type 0} (Q : A → Type 0) (R : B → Type 0) (f : A → Answer B)
    → ((a : A) (b : B) → Q a → f a ≡ fine b → R b)
    → (xs : List A) (ys : List B) → All Q xs
    → collect f xs ≡ fine ys
    → All R ys × (length ys ≡ length xs)
unfolding collect
collect-All Q R f h [] ys q e = let none_left : ys ≡ [] = cc in rw none_left (tt, refl)
collect-All Q R f h (x ∷ xs) ys q e =
    let (y, zs, first, later, all) = collected_cons (f x) (collect f xs) ys e in
    let (rest, same) = collect-All Q R f h xs zs q.1 later in
    rw all ((h x y q.0 first, rest), ap suc same)

-- No NUL character stands in a label.
abbrev pub IsPlain : Label → Type 0
IsPlain l = (has_nul l.key ≡ false) × (has_nul l.value ≡ false)

pub validate_labels-IsPlain : (ls : List Label) → validate_labels ls ≡ true → All IsPlain ls
unfolding validate_labels
validate_labels-IsPlain [] h = tt
validate_labels-IsPlain (l ∷ ls) h =
    ((ground (arith, h), ground (arith, h)), validate_labels-IsPlain ls (ground (arith, h)))

-- A job that is fit for the backend: its type has a valid ID, its time is one of the years 1 to
-- 9999, its payload is JSON, its labels have no NUL, and no two of them have the same key.
pub record IsFit (epoch : ℕ) (is_json : String → Bool) (job : JobDefinition) : Type 0 where
  pub valid_id : validate (codes job.job_type_id) ≡ true
  pub valid_time : validate_time epoch job.target_execution_time ≡ true
  pub valid_payload : is_json job.input_payload_json ≡ true
  pub plain_labels : All IsPlain job.labels
  pub distinct_keys : (key : String) → key_count key job.labels ≤ 1

module _ (epoch : ℕ) (is_json : String → Bool) where
  check_job-IsFit :
      (given job : JobDefinition)
      → validate (codes given.job_type_id) ≡ true
      → check_job epoch is_json given ≡ fine job
      → IsFit epoch is_json job
  unfolding check_job
  check_job-IsFit given job v e =
      let deduplicated = deduplicate_labels given.labels in
      let plain : validate_labels deduplicated ≡ true = ground (arith, e) in
      let timely : validate_time epoch given.target_execution_time ≡ true = ground (arith, e) in
      let json : is_json given.input_payload_json ≡ true = ground (arith, e) in
      let same : job ≡ record given { labels = deduplicated } = ground (arith, e) in
      rw same (record {
        valid_id = v;
        valid_time = timely;
        valid_payload = json;
        plain_labels = validate_labels-IsPlain deduplicated plain;
        distinct_keys = λ key. (deduplicate_labels-value_of key given.labels).1;
      })

both_fine :
    {B C : Type 0} (b : Answer B) (c : Answer C) (r : B × C)
    → (do y ← b; z ← c; fine (y, z)) ≡ fine r
    → b ≡ fine r.0
both_fine {B = B} {C = C} (fine y) (fine z) r e =
    let same : (y, z) ≡ r = cc in ap (λ (p : B × C). fine p.0) same
both_fine (fine y) (refused s) r e = cc
both_fine (refused s) c r e = cc

all_fine :
    {A B C : Type 0} (a : Answer A) (f : A → Answer B) (c : Answer C) (r : B × C)
    → (do x ← a; y ← f x; z ← c; fine (y, z)) ≡ fine r
    → (x : A) × (a ≡ fine x) × (f x ≡ fine r.0)
all_fine (fine x) f c r e = (x, refl, both_fine (f x) c r e)
all_fine (refused s) f c r e = cc

pub All-Unit : {A : Type 0} (xs : List A) → All (λ x. Unit {0}) xs
All-Unit [] = tt
All-Unit (x ∷ xs) = (tt, All-Unit xs)

module _ (P : Protobuf) where
  job_from-valid_id :
      (j : ProtoJob P) (job : JobDefinition)
      → job_from P j ≡ fine job
      → validate (codes job.job_type_id) ≡ true
  unfolding job_from new_job_type_id
  job_from-valid_id j job e = grind arith

  module _ (U : Uuids) (B : JobBackend) (epoch : ℕ) (is_json : String → Bool) where
    read_jobs-IsFit :
        (request : AddJobsRequest P U B epoch is_json) (r : List JobDefinition × Option JobFilters)
        → read_jobs P U B epoch is_json request ≡ fine r
        → All (IsFit epoch is_json) r.0 × (length r.0 ≡ length request.jobs)
    unfolding read_jobs
    read_jobs-IsFit request r e =
        let (converted, converts, checks) =
          all_fine (collect (job_from P) request.jobs) (collect (check_job epoch is_json))
            (if_not_exists_from P U B epoch is_json request.if_not_exists) r e in
        let (valid, as_many) =
          collect-All (λ j. Unit {0}) (λ job. validate (codes job.job_type_id) ≡ true) (job_from P)
            (λ j job q h. job_from-valid_id j job h) request.jobs converted (All-Unit request.jobs)
            converts in
        let (fit, as_many_checked) =
          collect-All (λ job. validate (codes job.job_type_id) ≡ true) (IsFit epoch is_json)
            (check_job epoch is_json) (λ j job q h. check_job-IsFit epoch is_json j job q h)
            converted r.0 valid checks in
        (fit, as_many_checked ∙ as_many)

    Outcome :
        AddJobsRequest P U B epoch is_json → B.Store → Answer AddJobsResponse × B.Store → Type 0
    Outcome request store (answer, after) =
        ((why : Status) × (answer ≡ refused why) × (after ≡ store))
        ⊎ ((jobs : List JobDefinition) × (filters : Option JobFilters) × All (IsFit epoch is_json)
              jobs
            × (length jobs ≡ length request.jobs)
            × (after ≡ (B.add_jobs (map without_schedule jobs) filters store).1))

    add_read-Outcome :
        (request : AddJobsRequest P U B epoch is_json) (store : B.Store)
        (read : Answer (List JobDefinition × Option JobFilters))
        → read_jobs P U B epoch is_json request ≡ read
        → Outcome request store (add_read P U B epoch is_json read store)
    unfolding Outcome
    add_read-Outcome request store (refused why) e = inl (why, refl, refl)
    add_read-Outcome request store (fine (jobs, filters)) e =
        let (fit, as_many) = read_jobs-IsFit request (jobs, filters) e in
        inr (jobs, filters, fit, as_many, refl)

    -- Either a request to add jobs is refused and the backend's store is as before, or the backend
    -- was called once, with one job for each of the request, and all of these are fit for it.
    pub add_jobs-IsFit :
        (is_waiting : Bool) (request : AddJobsRequest P U B epoch is_json) (store : B.Store)
        → let (answer, after) = add_jobs P U B epoch is_json is_waiting request store in
          ((why : Status) × (answer ≡ refused why) × (after ≡ store))
          ⊎ ((jobs : List JobDefinition) × (filters : Option JobFilters) × All
                (IsFit epoch is_json)
                jobs
              × (length jobs ≡ length request.jobs)
              × (after ≡ (B.add_jobs (map without_schedule jobs) filters store).1))
    unfolding add_jobs Outcome
    add_jobs-IsFit true request store = inl (unavailable, refl, refl)
    add_jobs-IsFit false request store =
        add_read-Outcome request store (read_jobs P U B epoch is_json request) refl
