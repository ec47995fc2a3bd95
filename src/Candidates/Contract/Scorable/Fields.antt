-- ===== src/Candidates/Contract/Scorable/Fields.antt =====
-- What the checks on a row of a dataset say of its columns.
use sentinel_aegis_forge.Common.{
  raise_if-not-eq-ok, ℕ, String, ◌≡◌, refl, ap, ◌∙◌, subst, inl, inr, Bool, true, false, not, ◌&&◌,
  Option, none, some, [], ◌∷◌, Bool-cases, ◌==◌, nat_eq, string_eq, pair_eq, list_eq, some-eq,
  lookup, Result, ok, raise_if, raise_if-eq-ok, >>=-eq-ok, ok-eq, pos, negsuc, strip,
}
use sentinel_aegis_forge.Datasets.Rows.{
  check_money, check_counts, statistics_of, Decimal, as_tuple, special, Datum, null, nonfinite,
  other, str, int, money, float, time, Row, FeatureDataError, equals_zero, at, column, natural,
  Statistics, is_nonnegative, check_value, check_values, nonnegative_money, missing_column,
  amount_not_positive, invalid_count, invalid_money, blank_value,
}
use sentinel_aegis_forge.Candidates.Contract.{is_upper, has_precision, check_decimal}

pub check_decimal-ok :
    (F : Type 0) (is_amount : Bool) (n : ℕ) (m : Decimal)
    → has_precision n m ≡ true
    → is_nonnegative m ≡ true
    → (is_amount && equals_zero m) ≡ false
    → check_decimal {F = F} is_amount n (money m) ≡ ok m
unfolding check_decimal
check_decimal-ok F is_amount n special p q r = cc
check_decimal-ok F is_amount n (as_tuple negative digits exponent) p q r = rw (p, q, r) refl

module _ {F : Type 0} where
  at-eq-ok :
      {E : Type 0} (e : E) (name : String) (row : Row F) {d : Datum F}
      → at e name row ≡ ok d
      → lookup name row ≡ some d
  at-eq-ok e name row h = by_column (lookup name row) h
    where
      by_column : (o : Option (Datum F)) {d : Datum F} → column e o ≡ ok d → o ≡ some d
      by_column none h = cc
      by_column (some d) h = ap (λ t. some t) (ok-eq h)

  natural-eq-ok : {E : Type 0} (e : E) (d : Datum F) {n : ℕ} → natural e d ≡ ok n → d ≡ int (pos n)
  unfolding natural
  natural-eq-ok e (int (pos m)) h = ap (λ t. int (pos t)) (ok-eq h)
  natural-eq-ok e (int (negsuc m)) h = cc
  natural-eq-ok e null h = cc
  natural-eq-ok e nonfinite h = cc
  natural-eq-ok e other h = cc
  natural-eq-ok e (str s) h = cc
  natural-eq-ok e (money m) h = cc
  natural-eq-ok e (float x) h = cc
  natural-eq-ok e (time u) h = cc

  nonnegative_money-eq-ok :
      (d : Datum F) {m : Decimal}
      → nonnegative_money d ≡ ok m
      → (d ≡ money m) × (is_nonnegative m ≡ true)
  unfolding nonnegative_money
  nonnegative_money-eq-ok (money a) {m} h =
      let (_, good, h) = >>=-eq-ok (raise_if (not (is_nonnegative a)) invalid_money) _ h in
      let e : a ≡ m = ok-eq h in
      (
        ap (λ t. money t) e,
        subst (λ t. is_nonnegative t ≡ true) e
            (raise_if-not-eq-ok invalid_money (is_nonnegative a) good),
      )
  nonnegative_money-eq-ok (int n) h = cc
  nonnegative_money-eq-ok null h = cc
  nonnegative_money-eq-ok nonfinite h = cc
  nonnegative_money-eq-ok other h = cc
  nonnegative_money-eq-ok (str s) h = cc
  nonnegative_money-eq-ok (float x) h = cc
  nonnegative_money-eq-ok (time u) h = cc

  -- No string of a checked row is blank.
  pub check_values-nonblank :
      (name : String) (row : Row F) (s : String)
      → check_values row ≡ ok tt
      → lookup name row ≡ some (str s)
      → (strip s == "") ≡ false
  unfolding check_values check_value
  check_values-nonblank name [] s h m = cc
  check_values-nonblank name ((k, v) ∷ rest) s h m =
      let (_, first, h) = >>=-eq-ok (check_value k v) _ h in
      elim (Bool-cases (name == k)) [
        | inl same ↦
            let e : v ≡ str s = some-eq (rw same at m) in
            let f : check_value {F = F} k (str s) ≡ ok tt =
              subst (λ (t : Datum F). check_value k t ≡ ok tt) e (first ∙ unit_ok _) in
            raise_if-eq-ok blank_value (strip s == "") f
        | inr differs ↦ check_values-nonblank name rest s h (rw differs at m)
      ]
    where
      unit_ok : (u : Unit {0}) → ◌≡◌ {A = Result FeatureDataError (Unit {0})} (ok u) (ok tt)
      unit_ok u = refl

  -- What the schema and the money columns of the table promise of a row beyond the check.
  pub record IsScorable (row : Row F) : Type 0 where
    pub currency : String
    pub country : String
    pub transaction_type : String
    pub status : String
    pub currency_column : lookup "currency" row ≡ some (str currency)
    pub country_column : lookup "country" row ≡ some (str country)
    pub transaction_type_column : lookup "transaction_type" row ≡ some (str transaction_type)
    pub status_column : lookup "statistical_feature_status" row ≡ some (str status)
    pub currency_code : is_upper 3 currency ≡ true
    pub country_code : is_upper 2 country ≡ true
    pub amount_precision :
        (m : Decimal) → lookup "amount" row ≡ some (money m) → has_precision 18 m ≡ true
    pub sum_precision :
        (m : Decimal)
        → lookup "prior_amount_sum_10m" row ≡ some (money m)
        → has_precision 38 m ≡ true

module _ {F : Type 0} where
  -- the two amounts
  pub record Sums (row : Row F) : Type 0 where
    pub amount : Decimal
    pub amount_column : lookup "amount" row ≡ some (money amount)
    pub amount_sign : is_nonnegative amount ≡ true
    pub amount_not_zero : equals_zero amount ≡ false
    pub total : Decimal
    pub total_column : lookup "prior_amount_sum_10m" row ≡ some (money total)
    pub total_sign : is_nonnegative total ≡ true

  pub check_money-Sums :
      (row : Row F) {m : Decimal} → check_money row ≡ ok m → (s : Sums row) × (s.amount ≡ m)
  unfolding check_money
  check_money-Sums row h =
      let (a, ha, h) = >>=-eq-ok (at missing_column "amount" row) _ h in
      let (amount, hm, h) = >>=-eq-ok (nonnegative_money a) _ h in
      let (_, hz, h) = >>=-eq-ok (raise_if (equals_zero amount) amount_not_positive) _ h in
      let (b, hb, h) = >>=-eq-ok (at missing_column "prior_amount_sum_10m" row) _ h in
      let (total, ht, h) = >>=-eq-ok (nonnegative_money b) _ h in
      let (a_money, a_sign) = nonnegative_money-eq-ok a hm in
      let (b_money, b_sign) = nonnegative_money-eq-ok b ht in
      (
        record {
          amount = amount;
          amount_column =
              at-eq-ok missing_column "amount" row ha ∙ ap (λ (t : Datum F). some t) a_money;
          amount_sign = a_sign;
          amount_not_zero = raise_if-eq-ok amount_not_positive (equals_zero amount) hz;
          total = total;
          total_column =
              at-eq-ok missing_column "prior_amount_sum_10m" row hb
              ∙ ap (λ (t : Datum F). some t) b_money;
          total_sign = b_sign;
        },
        ok-eq h,
      )

  -- the two counts
  pub record Counted (row : Row F) : Type 0 where
    pub transactions : ℕ
    pub transactions_column :
        lookup "prior_transaction_count_5m" row ≡ some (int (pos transactions))
    pub observations : ℕ
    pub observations_column :
        lookup "prior_amount_observation_count" row ≡ some (int (pos observations))

  pub check_counts-Counted :
      (row : Row F) {n : ℕ} → check_counts row ≡ ok n → (c : Counted row) × (c.observations ≡ n)
  unfolding check_counts
  check_counts-Counted row {n} h =
      let (c, hc, h) = >>=-eq-ok (at missing_column "prior_transaction_count_5m" row) _ h in
      let (k, hk, h) = >>=-eq-ok (natural invalid_count c) _ h in
      let (d, hd, h) = >>=-eq-ok (at missing_column "prior_amount_observation_count" row) _ h in
      (
        record {
          transactions = k;
          transactions_column =
              at-eq-ok missing_column "prior_transaction_count_5m" row hc
              ∙ ap (λ (t : Datum F). some t) (natural-eq-ok invalid_count c hk);
          observations = n;
          observations_column =
              at-eq-ok missing_column "prior_amount_observation_count" row hd
              ∙ ap (λ (t : Datum F). some t) (natural-eq-ok invalid_count d h);
        },
        refl,
      )

  -- the statistical columns
  pub record Columns (row : Row F) (s : Statistics F) : Type 0 where
    pub mean_column : lookup "prior_amount_mean" row ≡ some s.mean
    pub stddev_column : lookup "prior_amount_stddev" row ≡ some s.stddev
    pub zscore_column : lookup "amount_zscore" row ≡ some s.zscore
    pub status_column : lookup "statistical_feature_status" row ≡ some s.status

  pub statistics_of-Columns :
      (amount : Decimal) (n : ℕ) (row : Row F) {s : Statistics F}
      → statistics_of amount n row ≡ ok s
      → Columns row s × (s.amount ≡ amount) × (s.observations ≡ n)
  unfolding statistics_of
  statistics_of-Columns amount n row h =
      let (mean, h1, h) = >>=-eq-ok (at missing_column "prior_amount_mean" row) _ h in
      let (stddev, h2, h) = >>=-eq-ok (at missing_column "prior_amount_stddev" row) _ h in
      let (zscore, h3, h) = >>=-eq-ok (at missing_column "amount_zscore" row) _ h in
      let (status, h4, h) = >>=-eq-ok (at missing_column "statistical_feature_status" row) _ h in
      subst (λ s. Columns row s × (s.amount ≡ amount) × (s.observations ≡ n)) (ok-eq h)
        (
          record {
            mean_column = at-eq-ok missing_column "prior_amount_mean" row h1;
            stddev_column = at-eq-ok missing_column "prior_amount_stddev" row h2;
            zscore_column = at-eq-ok missing_column "amount_zscore" row h3;
            status_column = at-eq-ok missing_column "statistical_feature_status" row h4;
          },
          refl,
          refl,
        )
