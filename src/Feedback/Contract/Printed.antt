-- ===== src/Feedback/Contract/Printed.antt =====
-- `FeedbackRecord.as_dict`, and that `parse_record` reads it back.
use sentinel_aegis_forge.Common.{
  ◌<◌, String, ◌≡◌, refl, true, [], ◌∷◌, nat_eq, string_eq, pair_eq, list_eq, Dict, ok, pos,
  is_canonical_uuid,
}
use sentinel_aegis_forge.Datasets.Time.{utc}
use sentinel_aegis_forge.Datasets.Timestamp.Text.{utc_text}
use sentinel_aegis_forge.Datasets.Timestamp.RoundTrip.{end_of_time, parse-utc_text}
use sentinel_aegis_forge.Feedback.Contract.{
  FeedbackStatus, pending, confirmed_fraud, confirmed_legit, retracted, FeedbackRecord, make_record,
  Value, string, integer, object, status_of, parse_record,
}

-- `self.status.value`
unfoldable pub status_text : FeedbackStatus → String
status_text pending = "PENDING"
status_text confirmed_fraud = "CONFIRMED_FRAUD"
status_text confirmed_legit = "CONFIRMED_LEGIT"
status_text retracted = "RETRACTED"

-- `FeedbackRecord.as_dict`
unfoldable pub as_dict : FeedbackRecord → Dict String Value
unfolding status_text utc_text
as_dict r =
    ("provider_id", string r.provider_id)
    ∷ ("provider_record_id", string r.provider_record_id)
    ∷ ("provider_case_id", string r.provider_case_id)
    ∷ ("source_revision", integer (pos r.source_revision))
    ∷ ("event_id", string r.event_id)
    ∷ ("status", string (status_text r.status))
    ∷ ("source_updated_at", string (utc_text r.source_updated_at))
    ∷ ("received_at", string (utc_text r.received_at))
    ∷ []

status_of-status_text : (s : FeedbackStatus) → status_of (status_text s) ≡ ok s
unfolding status_of status_text
status_of-status_text pending = refl
status_of-status_text confirmed_fraud = refl
status_of-status_text confirmed_legit = refl
status_of-status_text retracted = refl

-- What a record is that its constructor made from a canonical UUID and the times of datetimes.
pub record IsMade (r : FeedbackRecord) : Type 0 where
  pub made :
      make_record r.provider_id r.provider_record_id r.provider_case_id
        (pos r.source_revision)
        r.event_id
        r.status
        (utc r.source_updated_at)
        (utc r.received_at)
      ≡ ok r
  pub canonical : is_canonical_uuid r.event_id ≡ true
  pub updated_fits : r.source_updated_at < end_of_time
  pub received_fits : r.received_at < end_of_time

-- A record that the constructor accepts as it is, with a canonical UUID and times up to the end of
-- the year 9999, is read back by `parse_record` from its `as_dict`, without loss.
pub parse_record-as_dict :
    (r : FeedbackRecord) → IsMade r → parse_record (object (as_dict r)) ≡ ok r
unfolding parse_record as_dict
parse_record-as_dict r h =
    rw
      (
        h.canonical,
        status_of-status_text r.status,
        parse-utc_text r.source_updated_at h.updated_fits,
        parse-utc_text r.received_at h.received_fits,
      )
      h.made
