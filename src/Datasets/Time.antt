-- ===== src/Datasets/Time.antt =====
-- datasets/labels.py, `require_utc`. A moment is a number of microseconds.
use sentinel_aegis_forge.Common.{ℕ, Option, none, some, Result, ok, err, nat_beq, if◌then◌else◌}

-- An instant in UTC.
abbrev pub Instant : Type 0
Instant = ℕ

-- `value.utcoffset()` in microseconds: zero, or that much east or west.
pub data UtcOffset : Type 0 where
  east west : ℕ → UtcOffset

-- A `datetime`: its clock reading and its offset, `none` where it is naive.
pub record Datetime : Type 0 where
  pub clock : ℕ
  pub utcoffset : Option UtcOffset

abbrev pub utc : ℕ → Datetime
utc t = record { clock = t; utcoffset = some (east 0) }

pub data TimeError : Type 0 where
  not_utc invalid_text : TimeError

zero_offset : UtcOffset → ℕ → Result TimeError Instant
zero_offset (east n) clock = if nat_beq n 0 then ok clock else err not_utc
zero_offset (west n) clock = if nat_beq n 0 then ok clock else err not_utc

unfoldable pub require_utc : Datetime → Result TimeError Instant
unfolding zero_offset
require_utc value = elim value.utcoffset [
  | none ↦ err not_utc
  | some offset ↦ zero_offset offset value.clock
]
