-- ===== src/Form/Options.antt =====
-- The options of a form, crates/ora-cli/src/tui/ui/form.rs: the fields of a new form, and how an option
-- is set and read by its key. Descriptions are left out.
use Prim.Native.Char.{code}
use ora.Base.{
  Bool, false, Option, none, some, String, List, [], ◌∷◌, ◌++◌, map, get_elem?, position,
  if◌then◌else◌,
}
use ora.Form.Text.{Text, text_eq}
use ora.Form.State.{
  FormKind, job, schedule, input, options, FieldKind, text, integer, time, cron, bool, choice, list,
  pairs, Field, Form,
}

abbrev pub codes : String → Text
codes String.[] = []
codes (String.◌∷◌ c s) = code c ∷ codes s

-- `Field::option`.
abbrev pub option_of : String → String → FieldKind → Field
option_of key label kind = record {
  path = codes key ∷ [];
  label = codes label;
  required = false;
  section = options;
  kind = kind;
  text = [];
  items = [];
  pairs = [];
  toggled = false;
  choice = 0;
}

abbrev pub choices : String → String → FieldKind
choices first second = choice (codes first ∷ codes second ∷ [])

abbrev pub kind_options : FormKind → List Field
kind_options job = option_of "target" "target time" time ∷ []
kind_options schedule =
    option_of "cron" "cron" cron
    ∷ option_of "interval" "interval" text
    ∷ option_of "immediate" "run immediately" bool
    ∷ option_of "missed" "missed times" (choices "skip" "create")
    ∷ option_of "start" "active from" time
    ∷ option_of "end" "active until" time
    ∷ []

abbrev pub common_options : List Field
common_options =
    option_of "labels" "labels" pairs
    ∷ option_of "timeout" "timeout" text
    ∷ option_of "timeout_base" "timeout from" (choices "start" "target")
    ∷ option_of "retries" "retries" integer
    ∷ option_of "backoff" "retry backoff" text
    ∷ option_of "backoff_strategy" "backoff strategy" (choices "fixed" "exponential")
    ∷ option_of "max_backoff" "max backoff" text
    ∷ option_of "priority" "priority" integer
    ∷ []

abbrev pub option_fields : FormKind → List Field
option_fields kind = kind_options kind ++ common_options

-- The fields of the schema come first.
unfoldable pub new_form : FormKind → List Field → Form
new_form kind schema_fields = record {
  fields = schema_fields ++ option_fields kind;
  selected = 0;
  caret = record { item = 0; cursor = 0; cell = 0 };
}

abbrev pub starts_with : Text → List Text → Bool
starts_with key [] = false
starts_with key (p ∷ path) = text_eq p key

unfoldable pub is_option : Text → Field → Bool
is_option key field = elim field.section [ input ↦ false | options ↦ starts_with key field.path ]

-- `option_field`.
unfoldable pub find_option : Text → List Field → Option Field
unfolding is_option
find_option key [] = none
find_option key (field ∷ fields) =
    let rest = find_option key fields in if is_option key field then some field else rest

-- `option_field_mut`, and a change of the field.
unfoldable pub change_option : Text → (Field → Field) → List Field → List Field
unfolding is_option
change_option key change [] = []
change_option key change (field ∷ fields) =
    let rest = change_option key change fields in
    if is_option key field then change field ∷ fields else field ∷ rest

unfoldable pub set_option : String → Text → Form → Form
unfolding change_option
set_option key value f = record f {
  fields = change_option (codes key) (λ field. record field { text = value }) f.fields;
}

unfoldable pub set_option_bool : String → Bool → Form → Form
unfolding change_option
set_option_bool key value f = record f {
  fields = change_option (codes key) (λ field. record field { toggled = value }) f.fields;
}

-- The field with a choice selected by its name, if it has it.
unfoldable pub select_choice : Text → FieldKind → Field → Field
unfolding position
select_choice value (choice cs) field = elim (position (λ c. text_eq c value) cs) [
  | none ↦ field
  | some i ↦ record field { choice = i }
]
select_choice value kind field = field

unfoldable pub set_option_choice : String → String → Form → Form
unfolding change_option select_choice
set_option_choice key value f = record f {
  fields =
      change_option (codes key) (λ field. select_choice (codes value) field.kind field) f.fields;
}

unfoldable pub set_pairs_option : String → List (Text × Text) → Form → Form
unfolding change_option
set_pairs_option key rows f = record f {
  fields = change_option (codes key) (λ field. record field { pairs = rows }) f.fields;
}

-- `join_texts(", ")`.
abbrev pub join_texts : List Text → Text
join_texts [] = []
join_texts (t ∷ []) = t
join_texts (t ∷ ts) = t ++ codes ", " ++ join_texts ts

unfoldable pub display : FieldKind → Field → Text
display bool field = if field.toggled then codes "yes" else codes "no"
display (choice cs) field = elim (get_elem? cs field.choice) [ none ↦ codes "-" | some c ↦ c ]
display (list k) field = join_texts field.items
display pairs field = join_texts (map (λ p. p.0 ++ codes "=" ++ p.1) field.pairs)
display other field = field.text

abbrev pub displayed : Option Field → Text
displayed none = []
displayed (some field) = display field.kind field

unfoldable pub option : String → Form → Text
unfolding find_option display
option key f = displayed (find_option (codes key) f.fields)

abbrev pub rows_of : Option Field → List (Text × Text)
rows_of none = []
rows_of (some field) = field.pairs

unfoldable pub pairs_option : String → Form → List (Text × Text)
unfolding find_option
pairs_option key f = rows_of (find_option (codes key) f.fields)

abbrev pub is_toggled : Option Field → Bool
is_toggled none = false
is_toggled (some field) = field.toggled

unfoldable pub option_bool : String → Form → Bool
unfolding find_option
option_bool key f = is_toggled (find_option (codes key) f.fields)
