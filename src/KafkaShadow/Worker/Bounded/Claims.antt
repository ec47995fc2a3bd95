-- ===== src/KafkaShadow/Worker/Bounded/Claims.antt =====
-- What a claim does to the store.
use sentinel_aegis_forge.Common.{
  ◌+◌, ◌≤◌, String, ◌≡◌, refl, inl, inr, Bool, true, false, Option, none, some, [], ◌∷◌, arith,
  Bool-cases, ◌==◌, nat_eq, string_eq, pair_eq, list_eq, length, Dict, lookup, insert, Result, ok,
  err, ◌>>=◌,
}
use sentinel_aegis_forge.Common.Json.{Json, Object}
use sentinel_aegis_forge.KafkaShadow.Results.{
  ShadowKafkaError, inspect_result, publish, claim_result,
}
use sentinel_aegis_forge.KafkaShadow.Results.Durable.Once.{Kept, Kept-insert}

length-insert-absent :
    (k : String) (v : Object) (d : Dict String Object)
    → lookup k d ≡ none
    → length (insert k v d) ≡ length d + 1
length-insert-absent k v [] h = omega arith
length-insert-absent k v ((j, w) ∷ d) h = elim (Bool-cases (k == j)) [
  | inl same ↦ cc (h, same)
  | inr other ↦ rw other (omega (arith, length-insert-absent k v d (rw other at h)))
]

module _ (digest str : Json → String) where
  -- What a claim leaves: all that was there, and one file more exactly where it says `True`.
  abbrev pub IsClaim :
      Dict String Object → Dict String Object × Result ShadowKafkaError Bool → Type 0
  IsClaim store (after, outcome) =
      Kept store after
      × (length after ≤ length store + 1)
      × (outcome ≡ ok true → length after ≡ length store + 1)
      × (outcome ≡ ok false → length after ≡ length store)

  publish-IsClaim :
      (stem : String) (result : Object) (store : Dict String Object) (o : Option Object)
      → lookup stem store ≡ o
      → IsClaim store (publish digest str stem result o store)
  unfolding publish
  publish-IsClaim stem result store none h =
      let grown = length-insert-absent stem result store h in
      (
        Kept-insert digest str stem result store h,
        omega arith,
        λ _. grown,
        λ q. absurd (own (inspect_result digest str stem result (some result)) q),
      )
    where
      own :
          (r : Result ShadowKafkaError Object)
          → ◌≡◌ {A = Result ShadowKafkaError Bool} (r >>= (λ _. ok true)) (ok false)
          → ⊥
      own (ok v) q = cc
      own (err e) q = cc
  publish-IsClaim stem result store (some found) h = (
    λ k v m. m,
    omega arith,
    λ q. absurd (other (inspect_result digest str stem found (some result)) q),
    λ _. refl,
  )
    where
      other :
          (r : Result ShadowKafkaError Object)
          → ◌≡◌ {A = Result ShadowKafkaError Bool} (r >>= (λ _. ok false)) (ok true)
          → ⊥
      other (ok v) q = cc
      other (err e) q = cc

  pub claim_result-IsClaim :
      (stem : String) (result : Object) (store : Dict String Object)
      → IsClaim store (claim_result digest str stem result store)
  unfolding claim_result
  claim_result-IsClaim stem result store =
      publish-IsClaim stem result store (lookup stem store) refl
