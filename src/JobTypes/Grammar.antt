-- ===== src/JobTypes/Grammar.antt =====
-- `JobTypeId::validate` accepts the texts that its documentation describes.
use ora.Base.{
  ℕ, ◌≤◌, ◌≡◌, ◌↔◌, ◌⊎◌, inl, inr, refl, ap, ◌∙◌, true, false, List, [], ◌∷◌, ◌++◌, All, arith,
  ◌==◌, Bool-cases,
}
use ora.JobTypes.Ids.{is_letter, is_word, split_dots, all_word, is_segment, all_segments, validate}

abbrev pub IsLetter : ℕ → Type 0
IsLetter c = ((b'A' ≤ c) × (c ≤ b'Z')) ⊎ ((b'a' ≤ c) × (c ≤ b'z'))

abbrev pub IsWord : ℕ → Type 0
IsWord c = IsLetter c ⊎ (((b'0' ≤ c) × (c ≤ b'9')) ⊎ (c ≡ b'_'))

-- A segment starts with a letter, and goes on with letters, digits and underscores.
pub data IsSegment : List ℕ → Type 0 where
  segment : {c : ℕ} {cs : List ℕ} → IsLetter c → All IsWord cs → IsSegment (c ∷ cs)

-- Segments separated by dots.
pub data IsJobTypeId : List ℕ → Type 0 where
  single : {s : List ℕ} → IsSegment s → IsJobTypeId s
  dotted : {s rest : List ℕ} → IsSegment s → IsJobTypeId rest → IsJobTypeId (s ++ (b'.' ∷ rest))

is_letter_iff : (c : ℕ) → (is_letter c ≡ true) ↔ IsLetter c
unfolding is_letter
is_letter_iff c = ground arith

is_word_iff : (c : ℕ) → (is_word c ≡ true) ↔ IsWord c
unfolding is_word is_letter
is_word_iff c = ground arith

all_word_iff : (cs : List ℕ) → (all_word cs ≡ true) ↔ All IsWord cs
unfolding all_word
all_word_iff [] = (λ h. tt, λ h. refl)
all_word_iff (c ∷ cs) =
    let head = is_word_iff c in
    let tail = all_word_iff cs in
    (
      λ h. (head.0 (ground (arith, h)), tail.0 (ground (arith, h))),
      λ h. ground (arith, head.1 h.0, tail.1 h.1),
    )

is_segment_sound : (s : List ℕ) → is_segment s ≡ true → IsSegment s
unfolding is_segment
is_segment_sound [] h = cc
is_segment_sound (c ∷ cs) h =
    segment ((is_letter_iff c).0 (ground arith)) ((all_word_iff cs).0 (ground arith))

is_segment_complete : (s : List ℕ) → IsSegment s → is_segment s ≡ true
unfolding is_segment
is_segment_complete [] h = elim h [ ]
is_segment_complete (c ∷ cs) (segment l w) =
    ground (arith, (is_letter_iff c).1 l, (all_word_iff cs).1 w)

-- The parts put together again.
abbrev join_dots : List (List ℕ) → List ℕ
join_dots [] = []
join_dots (p ∷ []) = p
join_dots (p ∷ q ∷ ps) = p ++ (b'.' ∷ join_dots (q ∷ ps))

join_dots-push_front :
    (c : ℕ) (p : List ℕ) (ps : List (List ℕ)) → join_dots ((c ∷ p) ∷ ps) ≡ c ∷ join_dots (p ∷ ps)
join_dots-push_front c p [] = refl
join_dots-push_front c p (q ∷ ps) = refl

-- There is at least one part.
split_dots-parts : (cs : List ℕ) → (p : List ℕ) × (ps : List (List ℕ)) × (split_dots cs ≡ p ∷ ps)
unfolding split_dots
split_dots-parts [] = ([], [], refl)
split_dots-parts (c ∷ cs) =
    let (p, ps, e) = split_dots-parts cs in
    elim (Bool-cases (c == b'.')) [
      | inl dot ↦ ([], split_dots cs, rw dot refl)
      | inr other ↦ (c ∷ p, ps, rw (other, e) refl)
    ]

join_dots-split_dots : (cs : List ℕ) → join_dots (split_dots cs) ≡ cs
unfolding split_dots
join_dots-split_dots [] = refl
join_dots-split_dots (c ∷ cs) =
    let (p, ps, e) = split_dots-parts cs in
    let rest : join_dots (p ∷ ps) ≡ cs = rw (← e) (join_dots-split_dots cs) in
    elim (Bool-cases (c == b'.')) [
      | inl dot ↦ let same : c ≡ b'.' = ground arith in rw (dot, e, same) (ap (◌∷◌ b'.') rest)
      | inr other ↦ rw (other, e) (join_dots-push_front c p ps ∙ ap (◌∷◌ c) rest)
    ]

join_dots-IsJobTypeId :
    (p : List ℕ) (ps : List (List ℕ))
    → all_segments (p ∷ ps) ≡ true
    → IsJobTypeId (join_dots (p ∷ ps))
unfolding all_segments
join_dots-IsJobTypeId p [] h = single (is_segment_sound p (ground arith))
join_dots-IsJobTypeId p (q ∷ ps) h =
    dotted (is_segment_sound p (ground arith)) (join_dots-IsJobTypeId q ps (ground arith))

-- No character of a segment is a dot.
split_dots-word :
    (s rest : List ℕ)
    → All IsWord s
    → (split_dots s ≡ s ∷ []) × (split_dots (s ++ (b'.' ∷ rest)) ≡ s ∷ split_dots rest)
unfolding split_dots
split_dots-word [] rest w = (refl, refl)
split_dots-word (c ∷ s) rest (h, w) =
    let (alone, before) = split_dots-word s rest w in
    let other : (c == b'.') ≡ false = ground arith in
    (rw (other, alone) refl, rw (other, before) refl)

segment-words : (s : List ℕ) → IsSegment s → All IsWord s
segment-words [] h = elim h [ ]
segment-words (c ∷ cs) (segment l w) = (inl l, w)

validate_complete : (s : List ℕ) → IsJobTypeId s → all_segments (split_dots s) ≡ true
unfolding all_segments
validate_complete s (single {s = t} h) =
    rw (split_dots-word t [] (segment-words t h)).0 (ground (arith, is_segment_complete t h))
validate_complete s (dotted {s = t} {rest} h k) =
    rw (split_dots-word t rest (segment-words t h)).1
      (ground (arith, is_segment_complete t h, validate_complete rest k))

not_empty : (s : List ℕ) → IsJobTypeId s → (c : ℕ) × (cs : List ℕ) × (s ≡ c ∷ cs)
not_empty s (single (segment {c} {cs} l w)) = (c, cs, refl)
not_empty s (dotted (segment {c} {cs} l w) k) = (c, _, refl)

-- A text is accepted as a job type ID exactly when it is made of segments separated by dots, each a
-- letter followed by letters, digits and underscores.
pub validate_iff : (s : List ℕ) → (validate s ≡ true) ↔ IsJobTypeId s
unfolding validate
validate_iff [] = (λ h. cc, λ h. let (c, cs, e) = not_empty [] h in cc)
validate_iff (c ∷ cs) = (
  λ h.
      let (p, ps, e) = split_dots-parts (c ∷ cs) in
      rw (← join_dots-split_dots (c ∷ cs), e) (join_dots-IsJobTypeId p ps (rw (← e) h)),
  λ h. validate_complete (c ∷ cs) h,
)
