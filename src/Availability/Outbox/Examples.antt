-- ===== src/Availability/Outbox/Examples.antt =====
-- A run of availability/outbox.py, with a digest that shows the event of a ready identity.
use sentinel_aegis_forge.Common.{pos}
use sentinel_aegis_forge.Availability.KafkaExport.{
  PublishBatch, topic_name, expected, IsExport, expected-IsExport,
}
use sentinel_aegis_forge.Common.{
  ℕ, String, ◌≡◌, refl, none, some, List, [], ◌∷◌, nat_eq, string_eq, pair_eq, list_eq, length, ok,
  text_leb, sort,
}
use sentinel_aegis_forge.Common.Json.{Json, arr, text, item}
use sentinel_aegis_forge.Availability.Discovery.{FeatureSnapshot, VersionDifference}
use sentinel_aegis_forge.Availability.Outbox.{Outbox, ReadyEvent, ready_event, segment, outbox}
use sentinel_aegis_forge.Availability.Outbox.Announced.{segments_of, IsOutboxOf, outbox-IsOutboxOf}

abbrev digest : Json → String
digest (arr (item _ (item _ (item (text event_id) _)))) = event_id
digest _ = "d"

abbrev snapshot : ℕ → List (String × String) → FeatureSnapshot
snapshot version rows = record {
  delta_path = "p";
  delta_version = version;
  delta_table_id = "t";
  source_schema_fingerprint = "f";
  protocol = "1";
  row_count = length rows;
  table = rows;
}

-- Version 3 is the first of the range; version 4 brings another event.
abbrev differences : List VersionDifference
differences =
    record {
      version = 3;
      previous = none;
      current = snapshot 3 (("b", "x") ∷ ("a", "y") ∷ []);
      previous_rows = [];
      current_rows = ("b", "x") ∷ ("a", "y") ∷ [];
      new_rows = ("b", "x") ∷ ("a", "y") ∷ [];
    }
    ∷ record {
      version = 4;
      previous = some (snapshot 3 (("b", "x") ∷ ("a", "y") ∷ []));
      current = snapshot 4 (("b", "x") ∷ ("a", "y") ∷ ("c", "z") ∷ []);
      previous_rows = ("b", "x") ∷ ("a", "y") ∷ [];
      current_rows = ("b", "x") ∷ ("a", "y") ∷ ("c", "z") ∷ [];
      new_rows = ("c", "z") ∷ [];
    }
    ∷ []

unfoldable built :
    (p : Outbox × List ReadyEvent) × (outbox digest (segments_of digest differences) ≡ ok p)
unfolding outbox segment ready_event sort text_leb
built = (_, refl)

outbox-IsOutboxOf_example : IsOutboxOf digest differences built.0.0 built.0.1
outbox-IsOutboxOf_example = outbox-IsOutboxOf digest differences built.0.0 built.0.1 built.1

three_events : built.0.0.ready_event_count ≡ 3
unfolding built
three_events = refl

-- Its publication batch, with envelopes of a hundred bytes.
unfoldable exported :
    (b : PublishBatch) × (expected digest
        (λ _. 100)
        (λ _. "l")
        "p"
        topic_name
        (pos 10)
        "m"
        built.0.0
        built.0.1
      ≡ ok b)
unfolding expected built
exported = (_, refl)

expected-IsExport_example :
    IsExport digest (λ _. 100) (λ _. "l") "p" "m" (pos 10) built.0.0 built.0.1 exported.0
expected-IsExport_example =
    expected-IsExport digest (λ _. 100) (λ _. "l") "p" topic_name (pos 10) "m" built.0.0 built.0.1
      exported.0 exported.1
