-- ===== src/Feedback/Contract.antt =====
-- feedback/contract.py: the normalized envelope. `UUID` is its canonical text; a JSON value is
-- what `json.loads` returns, a parameter of the reading of a line.
pub mod Envelope
pub mod Printed
mod Examples
use sentinel_aegis_forge.Common.{
  ℕ, String, not, Option, some, List, [], ◌∷◌, ◌++◌, arith, ltb, if◌then◌else◌, ◌==◌, nat_eq,
  string_eq, pair_eq, list_eq, contains, same_set, Dict, lookup, keys, Result, ok, err, ◌>>=◌, ◌>>◌,
  raise_if, map_error, ℤ, in_range, to_nat, is_canonical_uuid, is_trimmed,
}
use sentinel_aegis_forge.Datasets.Time.{Instant, Datetime, utc, require_utc, TimeError}
use sentinel_aegis_forge.Datasets.Timestamp.{parse_utc_timestamp}

pub data FeedbackStatus : Type 0 where
  pending confirmed_fraud confirmed_legit retracted : FeedbackStatus

pub record FeedbackRecord : Type 0 where
  pub provider_id : String
  pub provider_record_id : String
  pub provider_case_id : String
  pub source_revision : ℕ
  pub event_id : String
  pub status : FeedbackStatus
  pub source_updated_at : Instant
  pub received_at : Instant

pub data FeedbackError : Type 0 where
  duplicate_field not_trimmed not_a_string : String → FeedbackError
  bad_revision bad_uuid bad_status not_eight_fields not_an_integer update_follows_receipt :
      FeedbackError
  bad_time : TimeError → FeedbackError

abbrev pub max_int64 : ℕ
max_int64 = 9_223_372_036_854_775_807

-- `FeedbackRecord(...)`, with `__post_init__`
unfoldable pub make_record :
    String
    → String
    → String
    → ℤ
    → String
    → FeedbackStatus
    → Datetime
    → Datetime
    → Result FeedbackError FeedbackRecord
make_record provider_id provider_record_id provider_case_id source_revision event_id status
      source_updated_at received_at =
    do
      raise_if (not (is_trimmed provider_id)) (not_trimmed "provider_id")
      raise_if (not (is_trimmed provider_record_id)) (not_trimmed "provider_record_id")
      raise_if (not (is_trimmed provider_case_id)) (not_trimmed "provider_case_id")
      raise_if (not (in_range 1 max_int64 source_revision)) bad_revision
      updated ← map_error bad_time (require_utc source_updated_at)
      received ← map_error bad_time (require_utc received_at)
      raise_if (ltb received updated) update_follows_receipt
      ok (record {
        provider_id = provider_id;
        provider_record_id = provider_record_id;
        provider_case_id = provider_case_id;
        source_revision = to_nat source_revision;
        event_id = event_id;
        status = status;
        source_updated_at = updated;
        received_at = received;
      })

-- The values of a line's fields, as far as the envelope tells them apart: a string, an integer,
-- or anything else (`null`, a boolean, a float, a list, an object).
pub data Value : Type 0 where
  string : String → Value
  integer : ℤ → Value
  other : Value

-- A line is an object or anything else.
pub data Line : Type 0 where
  object : Dict String Value → Line
  not_an_object : Line

-- `_unique_fields`, the loop
unique_from : Dict String Value → List (String × Value) → Result FeedbackError (Dict String Value)
unique_from result [] = ok result
unique_from result ((key, value) ∷ pairs) = do
  raise_if (contains key (keys result)) (duplicate_field key)
  unique_from (result ++ (key, value) ∷ []) pairs

unfoldable pub unique_fields : List (String × Value) → Result FeedbackError (Dict String Value)
unfolding unique_from
unique_fields = unique_from []

abbrev pub string_fields : List String
string_fields =
    "provider_id" ∷ "provider_record_id" ∷ "provider_case_id" ∷ "event_id" ∷ "status"
    ∷ "source_updated_at" ∷ "received_at" ∷ []

-- `FIELDS`
abbrev pub field_names : List String
field_names = "source_revision" ∷ string_fields

-- `value[name]`, where the type checks want a string
as_string : String → Option Value → Result FeedbackError String
as_string name (some (string s)) = ok s
as_string name _ = err (not_a_string name)

pub string_at : String → Dict String Value → Result FeedbackError String
unfolding as_string
string_at name fields = as_string name (lookup name fields)

-- `value["source_revision"]`, where they want an integer that is not a boolean
as_integer : Option Value → Result FeedbackError ℤ
as_integer (some (integer n)) = ok n
as_integer _ = err not_an_integer

pub integer_at : String → Dict String Value → Result FeedbackError ℤ
unfolding as_integer
integer_at name fields = as_integer (lookup name fields)

-- `FeedbackStatus(text)`
unfoldable pub status_of : String → Result FeedbackError FeedbackStatus
status_of text =
    if text == "PENDING"
    then ok pending
    else if text == "CONFIRMED_FRAUD"
    then ok confirmed_fraud
    else if text == "CONFIRMED_LEGIT"
    then ok confirmed_legit
    else if text == "RETRACTED"
    then ok retracted
    else err bad_status

-- `parse_record` on an object: all type checks come before the conversions
unfoldable pub parse_fields : Dict String Value → Result FeedbackError FeedbackRecord
unfolding string_at integer_at
parse_fields fields = do
  raise_if (not (same_set (keys fields) field_names)) not_eight_fields
  provider_id ← string_at "provider_id" fields
  provider_record_id ← string_at "provider_record_id" fields
  provider_case_id ← string_at "provider_case_id" fields
  event_id ← string_at "event_id" fields
  status ← string_at "status" fields
  source_updated_at ← string_at "source_updated_at" fields
  received_at ← string_at "received_at" fields
  source_revision ← integer_at "source_revision" fields
  raise_if (not (is_canonical_uuid event_id)) bad_uuid
  status ← status_of status
  updated ← map_error bad_time (parse_utc_timestamp source_updated_at)
  received ← map_error bad_time (parse_utc_timestamp received_at)
  make_record provider_id provider_record_id provider_case_id source_revision event_id status
      (utc updated) (utc received)

unfoldable pub parse_record : Line → Result FeedbackError FeedbackRecord
unfolding parse_fields
parse_record line = elim line [
  | object fields ↦ parse_fields fields
  | not_an_object ↦ err not_eight_fields
]
