-- ===== src/KafkaShadow/Results/Durable/Once.antt =====
-- A result is written once and is never replaced, whatever the interleaving.
use sentinel_aegis_forge.Common.{
  not-eq-false, ℕ, String, ◌≡◌, refl, sym, ap, ◌∙◌, subst, inl, inr, true, false, Option, none,
  some, eq_iff, nat_beq_iff, Bool-cases, ◌==◌, nat_eq, string_eq, pair_eq, list_eq, Dict, lookup,
  insert, lookup-insert, Never, Result, ok, err, ◌>>=◌,
}
use sentinel_aegis_forge.Common.Json.{Json, Object, same_object}
use sentinel_aegis_forge.KafkaShadow.Results.{ShadowKafkaError, inspect_result, publish}
use sentinel_aegis_forge.KafkaShadow.Results.Reconciled.{inspect_result-ok}
use sentinel_aegis_forge.KafkaShadow.Results.Durable.{
  Phase, idle, writing, returned, raised, System, update, finish, begin, link, Step, call, write,
  Reach, start, later,
}

-- Every result of `s` is in `t` as it was.
abbrev pub Kept : Dict String Object → Dict String Object → Type 0
Kept s t = (stem : String) (v : Object) → lookup stem s ≡ some v → lookup stem t ≡ some v

-- What a call that returned has established: its result is there, by itself or an equal one.
abbrev pub IsAnswered : Dict String Object → Phase → Type 0
IsAnswered store (returned stem result true) = lookup stem store ≡ some result
IsAnswered store (returned stem result false) =
    (v : Object) × (lookup stem store ≡ some v) × (same_object v result ≡ true)
IsAnswered store _ = Unit

-- The phase of a call that wrote the file.
abbrev pub Created : String → Phase → Type 0
Created stem p = (result : Object) × (p ≡ returned stem result true)

pub record IsDurable (s : System) : Type 0 where
  pub answered : (i : ℕ) → IsAnswered s.store (s.phase i)
  pub creator :
      (i j : ℕ) (stem : String) → Created stem (s.phase i) → Created stem (s.phase j) → i ≡ j

module _ (digest str : Json → String) where
  pub Kept-insert :
      (stem : String) (result : Object) (store : Dict String Object)
      → lookup stem store ≡ none
      → Kept store (insert stem result store)
  Kept-insert stem result store absent k v found = elim (Bool-cases (k == stem)) [
    | inl same ↦ cc (ap (λ t. lookup t store) ((eq_iff k stem).0 same), absent, found)
    | inr other ↦ lookup-insert stem k result store ∙ rw other found
  ]

  answered-Kept :
      (s t : Dict String Object) (p : Phase) → Kept s t → IsAnswered s p → IsAnswered t p
  answered-Kept s t idle k h = tt
  answered-Kept s t (writing stem result) k h = tt
  answered-Kept s t (raised e) k h = tt
  answered-Kept s t (returned stem result true) k h = k stem result h
  answered-Kept s t (returned stem result false) k (v, found, same) = (v, k stem v found, same)

  -- what a call finds is what it was going to write
  agrees :
      (stem : String) (result found : Object) (r : Result ShadowKafkaError Object)
      → r ≡ inspect_result digest str stem found (some result)
      → (store : Dict String Object) → lookup stem store ≡ some found
      → IsAnswered store (finish digest str stem result (r >>= (λ _. ok false)))
        × ((k : String)
            → Created k (finish digest str stem result (r >>= (λ _. ok false)))
            → Never {0})
  unfolding finish
  agrees stem result found (err e) q store h = (tt, λ k c. cc (c.1))
  agrees stem result found (ok v) q store h =
      let (_, _, same) = inspect_result-ok digest str stem found (some result) (sym q) in
      ((found, h, not-eq-false _ same), λ k c. cc (c.1))

  -- What the link leaves, for what the name had: all that was there, and an answer; a call that
  -- created the file found none.
  abbrev Linked : String → Dict String Object → Option Object → Dict String Object × Phase → Type 0
  Linked stem store o (after, p) =
      Kept store after × IsAnswered after p × ((k : String) → Created k p → (k ≡ stem) × (o ≡ none))

  own :
      (stem : String) (result : Object) (store : Dict String Object)
      (r : Result ShadowKafkaError Object)
      → lookup stem store ≡ none
      → Linked stem store none
          (insert stem result store, finish digest str stem result (r >>= (λ _. ok true)))
  unfolding finish
  own stem result store (err e) absent = (Kept-insert stem result store absent, tt, λ k c. cc (c.1))
  own stem result store (ok v) absent = (
    Kept-insert stem result store absent,
    lookup-insert stem stem result store ∙ rw ((eq_iff stem stem).1 refl) refl,
    λ k c. (cc (c.1), refl),
  )

  link-with :
      (stem : String) (result : Object) (store : Dict String Object) (o : Option Object)
      → lookup stem store ≡ o
      → Linked stem store o (
        (publish digest str stem result o store).0,
        finish digest str stem result (publish digest str stem result o store).1,
      )
  unfolding publish
  link-with stem result store none h =
      own stem result store (inspect_result digest str stem result (some result)) h
  link-with stem result store (some found) h =
      let (answered, nobody) = agrees stem result found _ refl store h in
      (λ k v m. m, answered, λ k c. elim (nobody k c) [ ])

  link-Linked :
      (stem : String) (result : Object) (store : Dict String Object)
      → Linked stem store (lookup stem store) (link digest str stem result store)
  unfolding link
  link-Linked stem result store = link-with stem result store (lookup stem store) refl

  begin-answered :
      (stem : String) (result : Object) (store : Dict String Object) (o : Option Object)
      → lookup stem store ≡ o
      → IsAnswered store (begin digest str stem result o)
        × ((k : String) → Created k (begin digest str stem result o) → Never {0})
  unfolding begin
  begin-answered stem result store none h = (tt, λ k c. cc (c.1))
  begin-answered stem result store (some found) h = agrees stem result found _ refl store h

  -- One process moves; the others stand as they did.
  moved :
      (s : System) (store : Dict String Object) (i : ℕ) (p : Phase)
      → IsDurable s
      → Kept s.store store
      → IsAnswered store p
      → ((k : String) → Created k p → lookup k s.store ≡ none)
      → IsDurable (record { store = store; phase = update s.phase i p })
  moved s store i p h kept answered fresh = record {
    answered = λ j. others j;
    creator = λ j l stem c d. one j l stem c d;
  }
    where
      others : (j : ℕ) → IsAnswered store (update s.phase i p j)
      others j = elim (Bool-cases (j == i)) [
        | inl same ↦ rw same answered
        | inr other ↦ rw other (answered-Kept s.store store (s.phase j) kept (h.answered j))
      ]

      not_both : (j : ℕ) (stem : String) → Created stem p → Created stem (s.phase j) → Never {0}
      not_both j stem c d =
          let there : lookup stem s.store ≡ some d.0 =
            subst (IsAnswered s.store) d.1 (h.answered j) in
          cc (fresh stem c, there)

      one :
          (j l : ℕ) (stem : String)
          → Created stem (update s.phase i p j)
          → Created stem (update s.phase i p l)
          → j ≡ l
      one j l stem c d = elim (Bool-cases (j == i)) [
        | inl j_moved ↦ elim (Bool-cases (l == i)) [
          | inl l_moved ↦ (nat_beq_iff j i).0 j_moved ∙ sym ((nat_beq_iff l i).0 l_moved)
          | inr l_stays ↦ elim (not_both l stem (rw j_moved at c) (rw l_stays at d)) [ ]
        ]
        | inr j_stays ↦ elim (Bool-cases (l == i)) [
          | inl l_moved ↦ elim (not_both j stem (rw l_moved at d) (rw j_stays at c)) [ ]
          | inr l_stays ↦ h.creator j l stem (rw j_stays at c) (rw l_stays at d)
        ]
      ]

  Step-IsDurable :
      {s t : System} → Step digest str s t → IsDurable s → IsDurable t × Kept s.store t.store
  Step-IsDurable {s} (call i stem result) h =
      let (answered, nobody) = begin-answered stem result s.store _ refl in
      (moved s s.store i _ h (λ k v m. m) answered (λ k c. elim (nobody k c) [ ]), λ k v m. m)
  Step-IsDurable {s} (write i stem result waiting) h =
      let (kept, answered, created) = link-Linked stem result s.store in
      (
        moved s _ i _ h kept answered
            (λ k c. ap (λ t. lookup t s.store) (created k c).0 ∙ (created k c).1),
        kept,
      )

  -- However the calls of any number of processes are interleaved, from a state where none has
  -- returned: a result that is in the directory stays there as it is; a call that returned `True`
  -- finds its own result there, one that returned `False` an equal one; and at most one process's
  -- last call returned `True` for a name.
  pub Reach-IsDurable :
      {s t : System}
      → ((i : ℕ) → s.phase i ≡ idle)
      → Reach digest str s t
      → IsDurable t × Kept s.store t.store
  Reach-IsDurable {s} quiet start = (
    record {
      answered = λ i. subst (IsAnswered s.store) (sym (quiet i)) tt;
      creator = λ i j stem c d. cc (quiet i, c.1);
    },
    λ k v m. m,
  )
  Reach-IsDurable quiet (later r step) =
      let (h, kept) = Reach-IsDurable quiet r in
      let (h', more) = Step-IsDurable step h in (h', λ k v m. more k v (kept k v m))
