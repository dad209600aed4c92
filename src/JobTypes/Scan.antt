-- ===== src/JobTypes/Scan.antt =====
-- `JobTypeId::validate` of crates/ora/src/job_type.rs, which scans the bytes with a flag, and that
-- it accepts what the server's check accepts.
use ora.Base.{
  String, Option, some, none, ℕ, Bool, true, false, not, ◌&&◌, ◌≡◌, refl, ap, ◌∙◌, inl, inr,
  Bool-cases, arith, List, [], ◌∷◌, ◌==◌, if◌then◌else◌,
}
use ora.JobTypes.Ids.{
  codes, is_letter, is_word, push_front, split_dots, all_word, is_segment, all_segments, validate,
}

-- The loop, with its flag; at the end the flag must be off.
unfoldable pub scan : Bool → List ℕ → Bool
unfolding is_letter is_word
scan segment_start [] = not segment_start
scan segment_start (c ∷ cs) =
    let dotted = scan true cs in
    let inside = scan false cs in
    if c == b'.'
    then (if segment_start then false else dotted)
    else if segment_start
    then (if is_letter c then inside else false)
    else if is_word c
    then inside
    else false

unfoldable pub client_validate : List ℕ → Bool
unfolding scan
client_validate [] = false
client_validate (c ∷ cs) = scan true (c ∷ cs)

-- The client's `JobTypeId::new`; `none` is `InvalidJobTypeId`.
unfoldable pub client_job_type_id : String → Option String
unfolding client_validate
client_job_type_id s = if client_validate (codes s) then some s else none

-- The first part of a split, whose first byte was read or not, and the others.
rest_valid : Bool → List (List ℕ) → Bool
rest_valid segment_start [] = false
rest_valid true (part ∷ parts) = is_segment part && all_segments parts
rest_valid false (part ∷ parts) = all_word part && all_segments parts

split_dots-parts :
    (cs : List ℕ) → (part : List ℕ) × (parts : List (List ℕ)) × (split_dots cs ≡ part ∷ parts)
unfolding split_dots
split_dots-parts [] = ([], [], refl)
split_dots-parts (c ∷ cs) =
    let (part, parts, e) = split_dots-parts cs in
    elim (Bool-cases (c == b'.')) [
      | inl h ↦ ([], split_dots cs, rw h refl)
      | inr h ↦ (c ∷ part, parts, rw (h, e) refl)
    ]

-- One more byte before a split.
scan_step :
    (flag : Bool) (c : ℕ) (part : List ℕ) (parts : List (List ℕ)) (dotted inside : Bool)
    → dotted ≡ rest_valid true (part ∷ parts)
    → inside ≡ rest_valid false (part ∷ parts)
    → (if c == b'.'
        then (if flag then false else dotted)
        else if flag
        then (if is_letter c then inside else false)
        else if is_word c
        then inside
        else false)
      ≡ rest_valid flag (if c == b'.' then [] ∷ part ∷ parts else push_front c (part ∷ parts))
unfolding rest_valid is_segment all_segments all_word
scan_step true c part parts dotted inside d i = ground (arith, d, i)
scan_step false c part parts dotted inside d i = ground (arith, d, i)

scan-split_dots :
    (segment_start : Bool) (cs : List ℕ)
    → scan segment_start cs ≡ rest_valid segment_start (split_dots cs)
unfolding scan split_dots all_word is_segment all_segments rest_valid
scan-split_dots true [] = refl
scan-split_dots false [] = refl
scan-split_dots flag (c ∷ cs) =
    let (part, parts, e) = split_dots-parts cs in
    let d = scan-split_dots true cs ∙ ap (rest_valid true) e in
    let i = scan-split_dots false cs ∙ ap (rest_valid false) e in
    rw e (scan_step flag c part parts (scan true cs) (scan false cs) d i)

-- The client's scan of a job type ID accepts exactly the texts that the server's check of its
-- dotted parts accepts.
pub client_validate-validate : (s : List ℕ) → client_validate s ≡ validate s
unfolding client_validate validate rest_valid all_segments
client_validate-validate [] = refl
client_validate-validate (c ∷ cs) =
    let (part, parts, e) = split_dots-parts (c ∷ cs) in scan-split_dots true (c ∷ cs) ∙ rw e refl
