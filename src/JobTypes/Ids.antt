-- ===== src/JobTypes/Ids.antt =====
-- `JobTypeId::validate` of crates/ora-backend/src/jobs.rs, on the bytes of the text.
use Prim.Native.Char.{code}
use Prim.Native.String.{String}
use ora.Base.{
  ℕ, Bool, true, false, ◌&&◌, ◌||◌, Option, none, some, List, [], ◌∷◌, leb, ◌==◌, if◌then◌else◌,
}

-- The code points of a text. The checks tell a byte above 127 from no other, and such bytes stand
-- for characters above 127 only, so they come to the same on code points.
abbrev pub codes : String → List ℕ
codes String.[] = []
codes (String.◌∷◌ c s) = code c ∷ codes s

abbrev pub is_between : ℕ → ℕ → ℕ → Bool
is_between lo hi c = leb lo c && leb c hi

-- `is_ascii_alphabetic`, and `is_ascii_alphanumeric() || c == b'_'`.
unfoldable pub is_letter : ℕ → Bool
is_letter c = is_between b'A' b'Z' c || is_between b'a' b'z' c

unfoldable pub is_word : ℕ → Bool
unfolding is_letter
is_word c = (is_letter c || is_between b'0' b'9' c) || c == b'_'

abbrev pub push_front : ℕ → List (List ℕ) → List (List ℕ)
push_front c [] = (c ∷ []) ∷ []
push_front c (part ∷ parts) = (c ∷ part) ∷ parts

-- `split('.')`: at least one part.
unfoldable pub split_dots : List ℕ → List (List ℕ)
split_dots [] = [] ∷ []
split_dots (c ∷ cs) = let rest = split_dots cs in if c == b'.' then [] ∷ rest else push_front c rest

unfoldable pub all_word : List ℕ → Bool
all_word [] = true
all_word (c ∷ cs) = is_word c && all_word cs

unfoldable pub is_segment : List ℕ → Bool
is_segment [] = false
is_segment (c ∷ cs) = is_letter c && all_word cs

unfoldable pub all_segments : List (List ℕ) → Bool
all_segments [] = true
all_segments (s ∷ ss) = is_segment s && all_segments ss

unfoldable pub validate : List ℕ → Bool
unfolding split_dots
validate [] = false
validate (c ∷ cs) = all_segments (split_dots (c ∷ cs))

-- `JobTypeId::new`; `none` is `InvalidJobTypeId`.
unfoldable pub new_job_type_id : String → Option String
new_job_type_id s = if validate (codes s) then some s else none
