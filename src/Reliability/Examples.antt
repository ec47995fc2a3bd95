-- ===== src/Reliability/Examples.antt =====
-- Runs of reliability/retention.py.
use sentinel_aegis_forge.Common.{
  ℕ, String, ◌≡◌, refl, true, [], ◌∷◌, nat_eq, string_eq, pair_eq, list_eq, All, Dict, keys, ok,
  err,
}
use sentinel_aegis_forge.Common.Json.{num, text, Object}
use sentinel_aegis_forge.Reliability.Retention.{
  PartRange, kafka_range, retention_gap, Held, same_field, identity_fields, kafka_range-Held,
}

abbrev required : Object
required =
    ("topic", text "transactions")
    ∷ ("topic_id", text "i")
    ∷ ("cluster_id", text "c")
    ∷ ("partition_count", num 3)
    ∷ ("end_0", num 4)
    ∷ ("end_1", num 0)
    ∷ ("end_2", num 9)
    ∷ []

abbrev probe : ℕ → Object
probe beginning =
    ("topic", text "transactions")
    ∷ ("topic_id", text "i")
    ∷ ("cluster_id", text "c")
    ∷ ("partition_count", num 3)
    ∷ ("beginning_0", num 4)
    ∷ ("beginning_1", num 0)
    ∷ ("beginning_2", num beginning)
    ∷ ("end_0", num 6)
    ∷ ("end_1", num 0)
    ∷ ("end_2", num 9)
    ∷ []

unfoldable held : (d : Dict String PartRange) × (kafka_range required (probe 2) ≡ ok d)
unfolding kafka_range
held = (_, refl)

kafka_range-Held_example :
    (keys held.0 ≡ "0" ∷ "1" ∷ "2" ∷ [])
    × All (Held required (probe 2)) held.0
    × All (λ field. same_field required (probe 2) field ≡ true) identity_fields
kafka_range-Held_example = kafka_range-Held required (probe 2) held.0 held.1

lost : kafka_range required (probe 10) ≡ err (retention_gap "2")
unfolding kafka_range
lost = refl
