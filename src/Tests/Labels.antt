-- ===== src/Tests/Labels.antt =====
-- The theorems about labels at concrete inputs.
use ora.Base.{◌≤◌, ◌≡◌, List, [], ◌∷◌}
use ora.Backend.{Label}
use ora.Labels.Defs.{inherit_labels}
use ora.Labels.Inheritance.{value_of, key_count, or_value, inherit_labels-value_of}

abbrev schedule_labels : List Label
schedule_labels =
    record { key = "team"; value = "mail" } ∷ record { key = "region"; value = "eu" } ∷ []

abbrev job_labels : List Label
job_labels = record { key = "team"; value = "web" } ∷ record { key = "team"; value = "mail" } ∷ []

inherit_labels-value_of_example :
    (value_of "region" (inherit_labels schedule_labels job_labels)
      ≡ or_value (value_of "region" job_labels) (value_of "region" schedule_labels))
    × (key_count "region" job_labels ≤ 1
        → key_count "region" (inherit_labels schedule_labels job_labels) ≤ 1)
inherit_labels-value_of_example = inherit_labels-value_of "region" schedule_labels job_labels
