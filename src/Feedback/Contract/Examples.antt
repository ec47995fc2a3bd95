-- ===== src/Feedback/Contract/Examples.antt =====
-- Runs of feedback/contract.py.
use sentinel_aegis_forge.Common.{
  arith, is_trimmed, is_canonical_uuid, String, ◌≡◌, refl, [], ◌∷◌, nat_eq, string_eq, pair_eq,
  list_eq, Dict, ok, err, pos,
}
use sentinel_aegis_forge.Datasets.Time.{require_utc}
use sentinel_aegis_forge.Datasets.Timestamp.{parse_utc_timestamp}
use sentinel_aegis_forge.Feedback.Contract.{
  confirmed_fraud, FeedbackRecord, parse_record, make_record, status_of, Value, string, integer,
  other, object, Line, unique_fields, not_trimmed, duplicate_field, update_follows_receipt,
}
use sentinel_aegis_forge.Datasets.Timestamp.RoundTrip.{parse-utc_text}
use sentinel_aegis_forge.Datasets.Timestamp.Text.{utc_text, digit_char, find_year, find_month}
use sentinel_aegis_forge.Feedback.Contract.Printed.{as_dict, IsMade, parse_record-as_dict}
use sentinel_aegis_forge.Feedback.Contract.Envelope.{IsValid, Says, parse_record-Says}

abbrev envelope : String → String → String → Dict String Value
envelope provider updated received =
    ("provider_id", string provider)
    ∷ ("provider_record_id", string "delivery-1")
    ∷ ("provider_case_id", string "case-9")
    ∷ ("source_revision", integer (pos 2))
    ∷ ("event_id", string "6f1c1a52-6a3e-4d0f-9a51-0f1be2a7c001")
    ∷ ("status", string "CONFIRMED_FRAUD")
    ∷ ("source_updated_at", string updated)
    ∷ ("received_at", string received)
    ∷ []

abbrev line : Line
line = object (envelope "bank-a" "2026-03-01T10:00:00Z" "2026-03-01T10:05:00.250Z")

unfoldable parsed : (r : FeedbackRecord) × (parse_record line ≡ ok r)
unfolding parse_record is_canonical_uuid status_of parse_utc_timestamp make_record is_trimmed
    require_utc
parsed = (_, refl)

parse_record-Says_example :
    (fields : Dict String Value) × (line ≡ object fields) × IsValid parsed.0 × Says fields parsed.0
parse_record-Says_example = parse_record-Says line parsed.0 parsed.1

blank_provider :
    parse_record (object (envelope " bank" "2026-03-01T10:00:00Z" "2026-03-01T10:05:00Z"))
    ≡ err (not_trimmed "provider_id")
unfolding parse_record is_canonical_uuid status_of parse_utc_timestamp make_record is_trimmed
    require_utc
blank_provider = refl

received_before_update :
    parse_record (object (envelope "bank-a" "2026-03-01T10:00:00Z" "2026-03-01T09:59:59.999999Z"))
    ≡ err update_follows_receipt
unfolding parse_record is_canonical_uuid status_of parse_utc_timestamp make_record is_trimmed
    require_utc
received_before_update = refl

repeated_field :
    unique_fields (("status", other) ∷ ("event_id", other) ∷ ("status", other) ∷ [])
    ≡ err (duplicate_field "status")
unfolding unique_fields
repeated_field = refl

printed : utc_text parsed.0.received_at ≡ "2026-03-01T10:05:00.250000Z"
unfolding utc_text digit_char find_year find_month parsed parse_utc_timestamp
printed = refl

abbrev record_of_line : FeedbackRecord
record_of_line = record {
  provider_id = "bank-a";
  provider_record_id = "delivery-1";
  provider_case_id = "case-9";
  source_revision = 2;
  event_id = "6f1c1a52-6a3e-4d0f-9a51-0f1be2a7c001";
  status = confirmed_fraud;
  source_updated_at = 63_907_956_000_000_000;
  received_at = 63_907_956_300_250_000;
}

record_of_line-IsMade : IsMade record_of_line
unfolding make_record is_trimmed is_canonical_uuid require_utc
record_of_line-IsMade = record {
  made = refl;
  canonical = refl;
  updated_fits = omega arith;
  received_fits = omega arith;
}

parse-utc_text_example :
    parse_utc_timestamp (utc_text 63_907_956_300_250_000) ≡ ok 63_907_956_300_250_000
parse-utc_text_example = parse-utc_text 63_907_956_300_250_000 (omega arith)

parse_record-as_dict_example : parse_record (object (as_dict record_of_line)) ≡ ok record_of_line
parse_record-as_dict_example = parse_record-as_dict record_of_line record_of_line-IsMade
