-- ===== src/Candidates/Contract/Scorable.antt =====
-- Rows that a dataset accepts are accepted when they are scored.
pub mod Fields
use sentinel_aegis_forge.Common.{
  ℕ, String, ◌≡◌, refl, sym, ap, ◌∙◌, subst, true, false, not, List, [], ◌∷◌, nat_eq, string_eq,
  pair_eq, list_eq, some-eq, All, contains, ok, raise_if, >>=-eq-ok, ok-eq, pos,
}
use sentinel_aegis_forge.Datasets.Rows.{
  check_times, check_money, check_counts, statistics_of, Decimal, str, int, money, Row, Scores, at,
  natural, Statistics, validate_statistics, check_row, rows_from, feature_rows, canonical_id,
  check_values, missing_column, duplicate_event,
}
use sentinel_aegis_forge.Candidates.Contract.{
  is_nonblank, check_strings, project, check_statistics, validate_input,
}
use sentinel_aegis_forge.Candidates.Contract.Accepts.{check_statistics-validate_statistics}
use sentinel_aegis_forge.Training.Temporal.{candidate_feature_columns}
use sentinel_aegis_forge.Candidates.Contract.Scorable.Fields.{
  check_decimal-ok, check_values-nonblank, IsScorable, Sums, check_money-Sums, Counted,
  check_counts-Counted, Columns, statistics_of-Columns,
}

module _ {F : Type 0} (scores : Scores F) where
  -- The values that the check of a row has seen.
  record Seen (row : Row F) : Type 0 where
    pub values : check_values row ≡ ok tt
    pub sums : Sums row
    pub counted : Counted row
    pub statistics : Statistics F
    pub same_amount : statistics.amount ≡ sums.amount
    pub same_count : statistics.observations ≡ counted.observations
    pub columns : Columns row statistics
    pub consistent : validate_statistics scores statistics ≡ ok tt

  check_row-Seen :
      (row : Row F) (seen : List String) {next : List String}
      → check_row scores row seen ≡ ok next
      → Seen row
  unfolding check_row
  check_row-Seen row seen h =
      let (event, _, h) = >>=-eq-ok (at missing_column "event_id" row) _ h in
      let (event_id, _, h) = >>=-eq-ok (canonical_id event) _ h in
      let (_, _, h) = >>=-eq-ok (raise_if (contains event_id seen) duplicate_event) _ h in
      let (_, values, h) = >>=-eq-ok (check_values row) _ h in
      let (_, _, h) = >>=-eq-ok (check_times row) _ h in
      let (amount, hm, h) = >>=-eq-ok (check_money row) _ h in
      let (n, hc, h) = >>=-eq-ok (check_counts row) _ h in
      let (s, hs, h) = >>=-eq-ok (statistics_of amount n row) _ h in
      let (_, consistent, h) = >>=-eq-ok (validate_statistics scores s) _ h in
      let (sums, same) = check_money-Sums row hm in
      let (counted, again) = check_counts-Counted row hc in
      let (columns, a, k) = statistics_of-Columns amount n row hs in
      record {
        values = values;
        sums = sums;
        counted = counted;
        statistics = s;
        same_amount = a ∙ sym same;
        same_count = k ∙ sym again;
        columns = columns;
        consistent = consistent;
      }

  -- the projection of a row, by its values
  abbrev projection : (row : Row F) → IsScorable row → Seen row → Row F
  projection row k s =
      ("amount", money s.sums.amount)
      ∷ ("currency", str k.currency)
      ∷ ("country", str k.country)
      ∷ ("transaction_type", str k.transaction_type)
      ∷ ("prior_transaction_count_5m", int (pos s.counted.transactions))
      ∷ ("prior_amount_sum_10m", money s.sums.total)
      ∷ ("prior_amount_observation_count", int (pos s.counted.observations))
      ∷ ("prior_amount_mean", s.statistics.mean)
      ∷ ("prior_amount_stddev", s.statistics.stddev)
      ∷ ("amount_zscore", s.statistics.zscore)
      ∷ ("statistical_feature_status", s.statistics.status)
      ∷ []

  project-projection :
      (row : Row F) (k : IsScorable row) (s : Seen row)
      → project row candidate_feature_columns ≡ ok (projection row k s)
  unfolding project
  project-projection row k s =
      rw
        (
          s.sums.amount_column, k.currency_column, k.country_column, k.transaction_type_column,
          s.counted.transactions_column, s.sums.total_column, s.counted.observations_column,
          s.columns.mean_column, s.columns.stddev_column, s.columns.zscore_column,
          s.columns.status_column,
        )
        refl

  -- the statistics as the projection spells them
  statistics_hold :
      (row : Row F) (s : Seen row)
      → check_statistics scores (record {
        amount = s.sums.amount;
        observations = s.counted.observations;
        mean = s.statistics.mean;
        stddev = s.statistics.stddev;
        zscore = s.statistics.zscore;
        status = s.statistics.status;
      })
        ≡ ok tt
  statistics_hold row s =
      let v : Statistics F = s.statistics in
      subst
        (λ (a : Decimal).
          check_statistics scores (record {
            amount = a;
            observations = s.counted.observations;
            mean = v.mean;
            stddev = v.stddev;
            zscore = v.zscore;
            status = v.status;
          })
          ≡ ok tt)
        s.same_amount
        (subst
          (λ (n : ℕ).
            check_statistics scores (record {
              amount = v.amount;
              observations = n;
              mean = v.mean;
              stddev = v.stddev;
              zscore = v.zscore;
              status = v.status;
            })
            ≡ ok tt)
          s.same_count ((check_statistics-validate_statistics scores v).1 s.consistent))

  status_nonblank :
      (row : Row F) (k : IsScorable row) (s : Seen row) → is_nonblank s.statistics.status ≡ true
  status_nonblank row k s =
      let e : s.statistics.status ≡ str k.status =
        some-eq (sym s.columns.status_column ∙ k.status_column) in
      ap is_nonblank e
      ∙ ap not
          (check_values-nonblank "statistical_feature_status" row k.status s.values k.status_column)

  validate_input-projection :
      (row : Row F) (k : IsScorable row) (s : Seen row)
      → validate_input scores (projection row k s) ≡ ok (projection row k s)
  unfolding validate_input check_strings natural project
  validate_input-projection row k s =
      rw
        (
          check_values-nonblank "currency" row k.currency s.values k.currency_column,
          check_values-nonblank "country" row k.country s.values k.country_column,
          check_values-nonblank "transaction_type" row k.transaction_type s.values
              k.transaction_type_column,
          status_nonblank row k s,
          k.currency_code,
          k.country_code,
          check_decimal-ok F true 18 s.sums.amount
              (k.amount_precision s.sums.amount s.sums.amount_column) s.sums.amount_sign
              s.sums.amount_not_zero,
          check_decimal-ok F false 38 s.sums.total
              (k.sum_precision s.sums.total s.sums.total_column) s.sums.total_sign refl,
          statistics_hold row s,
        )
        refl

  -- the request that scoring makes of a row
  abbrev pub IsRequest : Row F → Type 0
  IsRequest row =
      (request : Row F) × (project row candidate_feature_columns ≡ ok request)
      × (validate_input scores request ≡ ok request)

  rows_from-accepted :
      (rows : List (Row F)) (seen : List String)
      → rows_from scores rows seen ≡ ok tt
      → All (λ row. IsScorable row → IsRequest row) rows
  unfolding rows_from
  rows_from-accepted [] seen h = tt
  rows_from-accepted (row ∷ rest) seen h =
      let (next, checked, h) = >>=-eq-ok (check_row scores row seen) _ h in
      let s = check_row-Seen row seen checked in
      (
        λ k. (projection row k s, project-projection row k s, validate_input-projection row k s),
        rows_from-accepted rest next h,
      )

  -- Every row of a table that `feature_rows` accepts is accepted when it is scored, if its columns
  -- of text hold strings, with a three-letter currency and a two-letter country in capitals, and
  -- its amounts have the precision of their columns: the projection to the model's features exists,
  -- and `validate_input` returns it as it is.
  pub feature_rows-IsRequest :
      (rows accepted : List (Row F))
      → feature_rows scores rows ≡ ok accepted
      → All (λ row. IsScorable row → IsRequest row) accepted
  unfolding feature_rows
  feature_rows-IsRequest rows accepted h =
      let (_, checked, h) = >>=-eq-ok (rows_from scores rows []) _ h in
      subst (All (λ row. IsScorable row → IsRequest row)) (ok-eq h)
        (rows_from-accepted rows [] checked)
