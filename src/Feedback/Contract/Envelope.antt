-- ===== src/Feedback/Contract/Envelope.antt =====
-- A parsed envelope is valid, and says what the fields of its line say.
use sentinel_aegis_forge.Common.{
  raise_if-not-eq-ok, ◌≤◌, String, ◌≡◌, refl, sym, ap, ◌∙◌, subst, true, not, Option, none, some,
  arith, ltb, ltb→le, nat_eq, string_eq, pair_eq, list_eq, same_set, Dict, lookup, keys, ok,
  raise_if, map_error, map_error-eq-ok, raise_if-eq-ok, >>=-eq-ok, ok-eq, ℤ, pos, negsuc, in_range,
  to_nat, is_canonical_uuid, is_trimmed,
}
use sentinel_aegis_forge.Datasets.Time.{Instant, utc, require_utc}
use sentinel_aegis_forge.Datasets.Timestamp.{parse_utc_timestamp}
use sentinel_aegis_forge.Feedback.Contract.{
  as_integer, as_string, FeedbackRecord, FeedbackStatus, make_record, parse_fields, parse_record,
  Value, string, integer, other, object, Line, string_at, integer_at, status_of, field_names,
  max_int64, not_trimmed, bad_revision, bad_time, update_follows_receipt, not_eight_fields,
  bad_uuid, not_an_object,
}

-- What the constructor promises.
pub record IsValid (r : FeedbackRecord) : Type 0 where
  pub provider : is_trimmed r.provider_id ≡ true
  pub delivery : is_trimmed r.provider_record_id ≡ true
  pub case : is_trimmed r.provider_case_id ≡ true
  pub positive : 1 ≤ r.source_revision
  pub int64 : r.source_revision ≤ max_int64
  pub causal : r.source_updated_at ≤ r.received_at

-- Where each part of a record comes from.
pub record Says (fields : Dict String Value) (r : FeedbackRecord) : Type 0 where
  pub names : same_set (keys fields) field_names ≡ true
  pub provider : lookup "provider_id" fields ≡ some (string r.provider_id)
  pub delivery : lookup "provider_record_id" fields ≡ some (string r.provider_record_id)
  pub case : lookup "provider_case_id" fields ≡ some (string r.provider_case_id)
  pub revision : lookup "source_revision" fields ≡ some (integer (pos r.source_revision))
  pub event : lookup "event_id" fields ≡ some (string r.event_id)
  pub canonical : is_canonical_uuid r.event_id ≡ true
  pub status :
      (text : String) × (lookup "status" fields ≡ some (string text))
      × (status_of text ≡ ok r.status)
  pub updated :
      (text : String) × (lookup "source_updated_at" fields ≡ some (string text))
      × (parse_utc_timestamp text ≡ ok r.source_updated_at)
  pub received :
      (text : String) × (lookup "received_at" fields ≡ some (string text))
      × (parse_utc_timestamp text ≡ ok r.received_at)

as_string-eq-ok :
    (name : String) (found : Option Value) (s : String)
    → as_string name found ≡ ok s
    → found ≡ some (string s)
unfolding as_string
as_string-eq-ok name none s h = cc
as_string-eq-ok name (some (string t)) s h = cc
as_string-eq-ok name (some (integer n)) s h = cc
as_string-eq-ok name (some other) s h = cc

string_at-eq-ok :
    (name : String) (fields : Dict String Value) (s : String)
    → string_at name fields ≡ ok s
    → lookup name fields ≡ some (string s)
unfolding string_at
string_at-eq-ok name fields s h = as_string-eq-ok name (lookup name fields) s h

as_integer-eq-ok :
    (found : Option Value) (n : ℤ) → as_integer found ≡ ok n → found ≡ some (integer n)
unfolding as_integer
as_integer-eq-ok none n h = cc
as_integer-eq-ok (some (string t)) n h = cc
as_integer-eq-ok (some (integer m)) n h = cc
as_integer-eq-ok (some other) n h = cc

integer_at-eq-ok :
    (name : String) (fields : Dict String Value) (n : ℤ)
    → integer_at name fields ≡ ok n
    → lookup name fields ≡ some (integer n)
unfolding integer_at
integer_at-eq-ok name fields n h = as_integer-eq-ok (lookup name fields) n h

pos-to_nat : (n : ℤ) → in_range 1 max_int64 n ≡ true → pos (to_nat n) ≡ n
pos-to_nat (pos n) h = refl
pos-to_nat (negsuc n) h = cc

in_range-bounds : (n : ℤ) → in_range 1 max_int64 n ≡ true → (1 ≤ to_nat n) × (to_nat n ≤ max_int64)
in_range-bounds (pos n) h = (ground arith, ground arith)
in_range-bounds (negsuc n) h = cc

-- A record that the constructor returns holds its arguments, and is valid.
record Made (provider delivery case : String) (revision : ℤ) (event : String)
    (status : FeedbackStatus) (updated received : Instant) (r : FeedbackRecord) : Type 0 where
  valid : IsValid r
  same_provider : provider ≡ r.provider_id
  same_delivery : delivery ≡ r.provider_record_id
  same_case : case ≡ r.provider_case_id
  same_revision : revision ≡ pos r.source_revision
  same_event : event ≡ r.event_id
  same_status : status ≡ r.status
  same_updated : updated ≡ r.source_updated_at
  same_received : received ≡ r.received_at

make_record-Made :
    (provider delivery case : String) (revision : ℤ) (event : String) (status : FeedbackStatus)
    (updated received : Instant) (r : FeedbackRecord)
    → make_record provider delivery case revision event status (utc updated) (utc received) ≡ ok r
    → Made provider delivery case revision event status updated received r
unfolding make_record require_utc
make_record-Made provider delivery case revision event status updated received r h =
    let (_, c1, h1) =
      >>=-eq-ok (raise_if (not (is_trimmed provider)) (not_trimmed "provider_id")) _ h in
    let (_, c2, h2) =
      >>=-eq-ok (raise_if (not (is_trimmed delivery)) (not_trimmed "provider_record_id")) _ h1 in
    let (_, c3, h3) =
      >>=-eq-ok (raise_if (not (is_trimmed case)) (not_trimmed "provider_case_id")) _ h2 in
    let (_, c4, h4) =
      >>=-eq-ok (raise_if (not (in_range 1 max_int64 revision)) bad_revision) _ h3 in
    let (_, c5, h5) = >>=-eq-ok (raise_if (ltb received updated) update_follows_receipt) _ h4 in
    let inside = raise_if-not-eq-ok bad_revision (in_range 1 max_int64 revision) c4 in
    let (low, high) = in_range-bounds revision inside in
    subst (Made provider delivery case revision event status updated received) (ok-eq h5) (record {
      valid = record {
        provider = raise_if-not-eq-ok (not_trimmed "provider_id") (is_trimmed provider) c1;
        delivery = raise_if-not-eq-ok (not_trimmed "provider_record_id") (is_trimmed delivery) c2;
        case = raise_if-not-eq-ok (not_trimmed "provider_case_id") (is_trimmed case) c3;
        positive = low;
        int64 = high;
        causal =
            ltb→le received updated
              (raise_if-eq-ok update_follows_receipt (ltb received updated) c5);
      };
      same_provider = refl;
      same_delivery = refl;
      same_case = refl;
      same_revision = sym (pos-to_nat revision inside);
      same_event = refl;
      same_status = refl;
      same_updated = refl;
      same_received = refl;
    })

parse_fields-Says :
    (fields : Dict String Value) (r : FeedbackRecord)
    → parse_fields fields ≡ ok r
    → IsValid r × Says fields r
unfolding parse_fields
parse_fields-Says fields r h =
    let (_, c1, h) =
      >>=-eq-ok (raise_if (not (same_set (keys fields) field_names)) not_eight_fields) _ h in
    let (provider, f1, h) = >>=-eq-ok (string_at "provider_id" fields) _ h in
    let (delivery, f2, h) = >>=-eq-ok (string_at "provider_record_id" fields) _ h in
    let (case, f3, h) = >>=-eq-ok (string_at "provider_case_id" fields) _ h in
    let (event, f4, h) = >>=-eq-ok (string_at "event_id" fields) _ h in
    let (status_text, f5, h) = >>=-eq-ok (string_at "status" fields) _ h in
    let (updated_text, f6, h) = >>=-eq-ok (string_at "source_updated_at" fields) _ h in
    let (received_text, f7, h) = >>=-eq-ok (string_at "received_at" fields) _ h in
    let (revision, f8, h) = >>=-eq-ok (integer_at "source_revision" fields) _ h in
    let (_, c2, h) = >>=-eq-ok (raise_if (not (is_canonical_uuid event)) bad_uuid) _ h in
    let (status, c3, h) = >>=-eq-ok (status_of status_text) _ h in
    let (updated, c4, h) = >>=-eq-ok (map_error bad_time (parse_utc_timestamp updated_text)) _ h in
    let (received, c5, h) =
      >>=-eq-ok (map_error bad_time (parse_utc_timestamp received_text)) _ h in
    let made = make_record-Made provider delivery case revision event status updated received r h in
    (
      made.valid,
      record {
        names = raise_if-not-eq-ok not_eight_fields (same_set (keys fields) field_names) c1;
        provider =
            string_at-eq-ok "provider_id" fields provider f1
            ∙ ap (λ t. some (string t)) made.same_provider;
        delivery =
            string_at-eq-ok "provider_record_id" fields delivery f2
            ∙ ap (λ t. some (string t)) made.same_delivery;
        case =
            string_at-eq-ok "provider_case_id" fields case f3
            ∙ ap (λ t. some (string t)) made.same_case;
        revision =
            integer_at-eq-ok "source_revision" fields revision f8
            ∙ ap (λ n. some (integer n)) made.same_revision;
        event =
            string_at-eq-ok "event_id" fields event f4 ∙ ap (λ t. some (string t)) made.same_event;
        canonical =
            subst (λ t. is_canonical_uuid t ≡ true) made.same_event
              (raise_if-not-eq-ok bad_uuid (is_canonical_uuid event) c2);
        status = (
          status_text,
          string_at-eq-ok "status" fields status_text f5,
          c3 ∙ ap ok made.same_status,
        );
        updated = (
          updated_text,
          string_at-eq-ok "source_updated_at" fields updated_text f6,
          map_error-eq-ok bad_time (parse_utc_timestamp updated_text) c4 ∙ ap ok made.same_updated,
        );
        received = (
          received_text,
          string_at-eq-ok "received_at" fields received_text f7,
          map_error-eq-ok bad_time (parse_utc_timestamp received_text) c5
              ∙ ap ok made.same_received,
        );
      },
    )

-- A record that `parse_record` returns comes from an object with exactly the eight fields, and
-- its parts are what the fields say: the strings and the integer as they are, the status and the
-- times decoded. Its identities are trimmed and not blank, its revision is a positive int64, its
-- event is a canonical UUID, and it was not updated after it was received.
pub parse_record-Says :
    (line : Line) (r : FeedbackRecord)
    → parse_record line ≡ ok r
    → (fields : Dict String Value) × (line ≡ object fields) × IsValid r × Says fields r
unfolding parse_record
parse_record-Says (object fields) r h =
    let (valid, says) = parse_fields-Says fields r h in (fields, refl, valid, says)
parse_record-Says not_an_object r h = cc
