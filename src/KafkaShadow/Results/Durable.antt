-- ===== src/KafkaShadow/Results/Durable.antt =====
-- `claim_result` by any number of processes over one directory, interleaved in any order. A call
-- has two steps: it looks whether the file exists, and it links what it wrote.
pub mod Once
use sentinel_aegis_forge.Common.{
  ℕ, String, ◌≡◌, Bool, false, Option, none, some, arith, if◌then◌else◌, ◌==◌, nat_eq, string_eq,
  pair_eq, list_eq, Dict, lookup, Result, ok, err, ◌>>=◌, ◌>>◌,
}
use sentinel_aegis_forge.Common.Json.{Json, Object}
use sentinel_aegis_forge.KafkaShadow.Results.{ShadowKafkaError, inspect_result, publish}

pub data Phase : Type 0 where
  idle : Phase
  -- no file of that name was seen, and the temporary file is written
  writing : (stem : String) (result : Object) → Phase
  returned : (stem : String) (result : Object) (created : Bool) → Phase
  raised : ShadowKafkaError → Phase

pub record System : Type 0 where
  pub store : Dict String Object
  pub phase : ℕ → Phase

abbrev pub update : (ℕ → Phase) → ℕ → Phase → ℕ → Phase
update phase i p j = if j == i then p else phase j

module _ (digest str : Json → String) where
  unfoldable pub finish : String → Object → Result ShadowKafkaError Bool → Phase
  finish stem result (ok created) = returned stem result created
  finish stem result (err error) = raised error

  -- `if path.exists(): inspect_result(path, result); return False`
  unfoldable pub begin : String → Object → Option Object → Phase
  unfolding finish
  begin stem result none = writing stem result
  begin stem result (some found) =
      finish stem result (do _ ← inspect_result digest str stem found (some result); ok false)

  -- The link and what follows it.
  unfoldable pub link : String → Object → Dict String Object → Dict String Object × Phase
  unfolding publish finish
  link stem result store =
      let outcome = publish digest str stem result (lookup stem store) store in
      (outcome.0, finish stem result outcome.1)

  -- A process may call `claim_result` at any time, also after it was killed in the middle of a call.
  pub data Step (s : System) : System → Type 0 where
    call :
        (i : ℕ) (stem : String) (result : Object)
        → Step s (record {
          store = s.store;
          phase = update s.phase i (begin stem result (lookup stem s.store));
        })
    write :
        (i : ℕ) (stem : String) (result : Object)
        → s.phase i ≡ writing stem result
        → Step s (record {
          store = (link stem result s.store).0;
          phase = update s.phase i (link stem result s.store).1;
        })

  pub data Reach (s : System) : System → Type 0 where
    start : Reach s s
    later : {t u : System} → Reach s t → Step t u → Reach s u
