-- ===== src/Reliability/Retention.antt =====
-- reliability/retention.py, `kafka_range`: whether Kafka still holds what has to be read.
use Prim.Native.String.{◌++◌ as concat}
use sentinel_aegis_forge.Common.{
  raise_if-not-eq-ok, ℕ, ◌≤◌, String, ◌≡◌, refl, ap, subst, Bool, true, not, Option, none, some,
  List, [], ◌∷◌, ltb, ltb→le, nat_eq, string_eq, pair_eq, list_eq, All, Dict, lookup, keys, Result,
  ok, err, ◌>>=◌, ◌>>◌, raise_if, raise_if-eq-ok, >>=-eq-ok, ok-eq,
}
use sentinel_aegis_forge.Common.Json.{Json, num, null, Object, same_value, has_value}

pub data RetentionError : Type 0 where
  identity_changed : String → RetentionError
  three_partitions : RetentionError
  malformed retention_gap end_retreated : String → RetentionError

pub record PartRange : Type 0 where
  pub required : ℕ
  pub beginning : ℕ
  pub finish : ℕ

abbrev value_or_null : Option Json → Json
value_or_null none = null
value_or_null (some value) = value

-- `required.get(field) == current.get(field)`, for scalars
abbrev pub same_field : Object → Object → String → Bool
same_field required current field =
    same_value (value_or_null (lookup field required)) (value_or_null (lookup field current))

unfoldable pub check_identity : Object → Object → List String → Result RetentionError (Unit {0})
check_identity required current [] = ok tt
check_identity required current (field ∷ rest) = do
  raise_if (not (same_field required current field)) (identity_changed field)
  check_identity required current rest

pub natural : Option Json → Option ℕ
natural (some (num n)) = some n
natural _ = none

-- the three offsets of a partition, once they are known to be natural numbers
pub range_of : String → Option ℕ → Option ℕ → Option ℕ → Result RetentionError PartRange
range_of part (some requested) (some beginning) (some finish) = do
  raise_if (ltb requested beginning) (retention_gap part)
  raise_if (ltb finish requested) (end_retreated part)
  ok (record { required = requested; beginning = beginning; finish = finish })
range_of part _ _ _ = err (malformed part)

unfoldable pub ranges_from :
    Object → Object → List String → Result RetentionError (Dict String PartRange)
unfolding range_of natural
ranges_from required current [] = ok []
ranges_from required current (part ∷ rest) = do
  one ←
      range_of part (natural (lookup (concat "end_" part) required))
        (natural (lookup (concat "beginning_" part) current))
        (natural (lookup (concat "end_" part) current))
  others ← ranges_from required current rest
  ok ((part, one) ∷ others)

abbrev pub identity_fields : List String
identity_fields = "topic" ∷ "topic_id" ∷ "cluster_id" ∷ "partition_count" ∷ []

unfoldable pub kafka_range : Object → Object → Result RetentionError (Dict String PartRange)
unfolding check_identity ranges_from
kafka_range required current = do
  check_identity required current identity_fields
  raise_if (not (has_value "partition_count" (num 3) required)) three_partitions
  ranges_from required current ("0" ∷ "1" ∷ "2" ∷ [])

-- Each range comes from the two probes, and Kafka still holds it.
abbrev pub Held : Object → Object → String × PartRange → Type 0
Held required current (part, r) =
    (natural (lookup (concat "end_" part) required) ≡ some r.required)
    × (natural (lookup (concat "beginning_" part) current) ≡ some r.beginning)
    × (natural (lookup (concat "end_" part) current) ≡ some r.finish)
    × (r.beginning ≤ r.required)
    × (r.required ≤ r.finish)

range_of-Held :
    (part : String) (a b c : Option ℕ) (r : PartRange)
    → range_of part a b c ≡ ok r
    → (a ≡ some r.required)
      × (b ≡ some r.beginning)
      × (c ≡ some r.finish)
      × (r.beginning ≤ r.required)
      × (r.required ≤ r.finish)
unfolding range_of
range_of-Held part (some a) (some b) (some c) r h =
    let (_, c1, h) = >>=-eq-ok (raise_if (ltb a b) (retention_gap part)) _ h in
    let (_, c2, h) = >>=-eq-ok (raise_if (ltb c a) (end_retreated part)) _ h in
    subst
      (λ (r : PartRange).
        (some a ≡ some r.required)
        × (some b ≡ some r.beginning)
        × (some c ≡ some r.finish)
        × (r.beginning ≤ r.required)
        × (r.required ≤ r.finish))
      (ok-eq h)
      (
        refl,
        refl,
        refl,
        ltb→le a b (raise_if-eq-ok (retention_gap part) (ltb a b) c1),
        ltb→le c a (raise_if-eq-ok (end_retreated part) (ltb c a) c2),
      )
range_of-Held part none b c r h = cc
range_of-Held part (some a) none c r h = cc
range_of-Held part (some a) (some b) none r h = cc

ranges_from-Held :
    (required current : Object) (parts : List String) (ranges : Dict String PartRange)
    → ranges_from required current parts ≡ ok ranges
    → (keys ranges ≡ parts) × All (Held required current) ranges
unfolding ranges_from
ranges_from-Held required current [] ranges h =
    subst (λ (d : Dict String PartRange). (keys d ≡ []) × All (Held required current) d) (ok-eq h)
      (refl, tt)
ranges_from-Held required current (part ∷ rest) ranges h =
    let (one, first, h) =
      >>=-eq-ok
        (range_of part (natural (lookup (concat "end_" part) required))
          (natural (lookup (concat "beginning_" part) current))
          (natural (lookup (concat "end_" part) current)))
        _ h in
    let (others, looped, h) = >>=-eq-ok (ranges_from required current rest) _ h in
    let (same, held) = ranges_from-Held required current rest others looped in
    subst (λ (d : Dict String PartRange). (keys d ≡ part ∷ rest) × All (Held required current) d)
      (ok-eq h) (ap (◌∷◌ part) same, (range_of-Held part _ _ _ one first, held))

check_identity-Same :
    (required current : Object) (names : List String) (u : Unit {0})
    → check_identity required current names ≡ ok u
    → All (λ field. same_field required current field ≡ true) names
unfolding check_identity
check_identity-Same required current [] u h = tt
check_identity-Same required current (field ∷ rest) u h =
    let (_, passed, h) =
      >>=-eq-ok (raise_if (not (same_field required current field)) (identity_changed field)) _ h in
    (
      raise_if-not-eq-ok (identity_changed field) (same_field required current field) passed,
      check_identity-Same required current rest u h,
    )

-- Where the ranges are returned they are those of the partitions 0, 1 and 2, the topic, its
-- identity, the cluster and the number of partitions have not changed, and each required offset is
-- what was recorded and lies between the current beginning and end of its partition.
pub kafka_range-Held :
    (required current : Object) (ranges : Dict String PartRange)
    → kafka_range required current ≡ ok ranges
    → (keys ranges ≡ "0" ∷ "1" ∷ "2" ∷ [])
      × All (Held required current) ranges
      × All (λ field. same_field required current field ≡ true) identity_fields
unfolding kafka_range
kafka_range-Held required current ranges h =
    let (u, checked, h) = >>=-eq-ok (check_identity required current identity_fields) _ h in
    let (_, _, h) =
      >>=-eq-ok (raise_if (not (has_value "partition_count" (num 3) required)) three_partitions) _
        h in
    let (same, held) = ranges_from-Held required current ("0" ∷ "1" ∷ "2" ∷ []) ranges h in
    (same, held, check_identity-Same required current identity_fields u checked)
