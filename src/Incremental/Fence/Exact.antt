-- ===== src/Incremental/Fence/Exact.antt =====
-- Which fences `_fence` accepts.
pub mod Parts
use Prim.Native.String.{◌++◌ as concat}
use sentinel_aegis_forge.Common.{
  String, ◌≡◌, ◌≢◌, true, some, arith, nat_eq, string_eq, pair_eq, list_eq, same_set, lookup, keys,
}
use sentinel_aegis_forge.Common.Json.{Json, text, Object}
use sentinel_aegis_forge.Incremental.Fence.{fence_contract, topic_name, fence_names}
use sentinel_aegis_forge.Incremental.Fence.Exact.Parts.{Fenced}

-- The fields of a fence for a group.
pub record IsFence (group : String) (value : Object) : Type 0 where
  pub contract : lookup "contract_version" value ≡ some (text fence_contract)
  pub topic : lookup "topic" value ≡ some (text topic_name)
  pub owner : lookup "group_id" value ≡ some (text group)
  pub cluster : (c : String) × (lookup "cluster_id" value ≡ some (text c)) × (c ≢ "")
  pub topic_id : (c : String) × (lookup "topic_id" value ≡ some (text c)) × (c ≢ "")
  pub names : same_set (keys value) fence_names ≡ true
  pub fenced : Fenced value
