-- ===== src/Incremental/Fence.antt =====
-- incremental_shadow/operations.py, `_fence`: the Kafka offsets where a stream begins.
pub mod Exact
use Prim.Native.Char.{code}
use Prim.Native.String.{◌++◌ as concat, [] as empty, ◌∷◌ as char_cons}
use sentinel_aegis_forge.Common.{
  ℕ, suc, String, Bool, true, false, not, ◌&&◌, ◌||◌, Option, some, List, [], ◌∷◌, leb, nat_beq,
  ◌==◌, nat_eq, string_eq, pair_eq, list_eq, same_set, lookup, keys, Result, ok, ◌>>=◌, ◌>>◌,
  raise_if, map_error,
}
use sentinel_aegis_forge.Common.Json.{Json, text, Object, has_value}
use sentinel_aegis_forge.Incremental.Stream.{
  StreamError, natural, read_object, invalid_group, invalid_fence, fence_offsets,
}

-- `GROUP`, `FENCE_CONTRACT` and `TOPIC`
abbrev pub group_name : String
group_name = "sentinel-feature-ready-incremental-shadow-v1"

abbrev pub fence_contract : String
fence_contract = "feature-ready-operational-fence-v1"

abbrev pub topic_name : String
topic_name = "features.ready"

-- an ASCII letter or digit, or a dash
is_group_char : ℕ → Bool
is_group_char c =
    (leb b'0' c && leb c b'9')
    || ((leb b'A' c && leb c b'Z') || ((leb b'a' c && leb c b'z') || nat_beq c b'-'))

pub all_group_chars : String → Bool
unfolding is_group_char
all_group_chars empty = true
all_group_chars (char_cons c s) = is_group_char (code c) && all_group_chars s

pub starts_with : String → String → Bool
starts_with s empty = true
starts_with empty (char_cons d t) = false
starts_with (char_cons c s) (char_cons d t) = nat_beq (code c) (code d) && starts_with s t

pub text_length : String → ℕ
text_length empty = 0
text_length (char_cons c s) = suc (text_length s)

unfoldable pub group_ok : String → Bool
unfolding all_group_chars starts_with text_length
group_ok group =
    group == group_name
    || (starts_with group (concat group_name "-")
        && (leb (text_length group) 120 && all_group_chars group))

-- `isinstance(value, str) and value`
nonempty : Option Json → Bool
nonempty (some (text s)) = not (s == "")
nonempty _ = false

abbrev pub fence_names : List String
fence_names =
    "contract_version" ∷ "group_id" ∷ "cluster_id" ∷ "topic_id" ∷ "topic" ∷ "beginning_0"
    ∷ "beginning_1" ∷ "beginning_2" ∷ "end_0" ∷ "end_1" ∷ "end_2" ∷ []

unfoldable pub fence_ok : Object → String → Bool
unfolding nonempty
fence_ok value group =
    has_value "contract_version" (text fence_contract) value
    && (has_value "topic" (text topic_name) value
        && (has_value "group_id" (text group) value
            && (nonempty (lookup "cluster_id" value)
                && (nonempty (lookup "topic_id" value) && same_set (keys value) fence_names))))

-- one partition: two ints with `0 <= beginning <= end`
unfoldable pub check_part : Object → String → Result StreamError (Unit {0})
check_part value part = do
  beginning ← map_error (λ _. fence_offsets) (natural (lookup (concat "beginning_" part) value))
  finish ← map_error (λ _. fence_offsets) (natural (lookup (concat "end_" part) value))
  raise_if (not (leb beginning finish)) fence_offsets

unfoldable pub check_fence : Option Object → String → Result StreamError Object
unfolding group_ok fence_ok check_part
check_fence file group = do
  raise_if (not (group_ok group)) invalid_group
  value ← read_object file
  raise_if (not (fence_ok value group)) invalid_fence
  check_part value "0"
  check_part value "1"
  check_part value "2"
  ok value
