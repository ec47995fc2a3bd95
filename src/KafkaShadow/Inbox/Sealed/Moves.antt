-- ===== src/KafkaShadow/Inbox/Sealed/Moves.antt =====
-- Offsets that moved by the records observed, and the counts that are compared.
use sentinel_aegis_forge.Common.{
  raise_if-not-eq-ok, and-eq-true, ℕ, suc, ◌+◌, String, ◌≡◌, refl, sym, ap, ◌⊎◌, inl, inr, true,
  not, ◌&&◌, Option, none, some, List, [], ◌∷◌, arith, leb, leb→le, nat_beq_iff, ◌==◌, nat_eq,
  string_eq, pair_eq, list_eq, all, ok, raise_if, >>=-eq-ok, ok-eq,
}
use Prim.Native.String.{◌++◌ as concat}
use sentinel_aegis_forge.Common.Json.{Json, num, minus, Object}
use sentinel_aegis_forge.KafkaShadow.Inbox.{
  natural_at, moved_by, observed_from, counts_agree, offsets_invalid,
}

-- Between the beginning and the end of each partition, which is committed, stand as many records
-- as are counted in all.
abbrev pub Moved : Object → List String → ℕ → Type 0
Moved manifest [] n = n ≡ 0
Moved manifest (p ∷ rest) n =
    (beginning : ℕ) × (finish : ℕ) × (others : ℕ) × (natural_at (concat "broker_beginning_" p)
        manifest
      ≡ some beginning)
    × (natural_at (concat "broker_end_" p) manifest ≡ some finish)
    × (natural_at (concat "group_committed_next_" p) manifest ≡ some finish)
    × (beginning + n ≡ finish + others)
    × Moved manifest rest others

moved_by-inv :
    (b e c : Option ℕ) (n : ℕ)
    → moved_by b e c ≡ ok n
    → (beginning : ℕ) × (finish : ℕ) × (b ≡ some beginning)
      × (e ≡ some finish)
      × (c ≡ some finish)
      × (beginning + n ≡ finish)
unfolding moved_by
moved_by-inv (some b) (some e) (some c) n h =
    let (_, passed, h) = >>=-eq-ok (raise_if (not (leb b e && e == c)) offsets_invalid) _ h in
    let (le, same) =
      and-eq-true (leb b e) _ (raise_if-not-eq-ok offsets_invalid (leb b e && e == c) passed) in
    (
      b,
      e,
      refl,
      refl,
      ap some (sym ((nat_beq_iff e c).0 same)),
      omega (arith, leb→le b e le, ok-eq h),
    )
moved_by-inv none e c n h = cc
moved_by-inv (some b) none c n h = cc
moved_by-inv (some b) (some e) none n h = cc

pub observed_from-Moved :
    (manifest : Object) (l : List String) (n : ℕ)
    → observed_from manifest l ≡ ok n
    → Moved manifest l n
unfolding observed_from
observed_from-Moved manifest [] n h = sym (ok-eq h)
observed_from-Moved manifest (p ∷ rest) n h =
    let (moved, one, h) =
      >>=-eq-ok
        (moved_by (natural_at (concat "broker_beginning_" p) manifest)
          (natural_at (concat "broker_end_" p) manifest)
          (natural_at (concat "group_committed_next_" p) manifest))
        _ h in
    let (others, all, h) = >>=-eq-ok (observed_from manifest rest) _ h in
    let (b, e, hb, he, hc, q) = moved_by-inv _ _ _ moved one in
    (
      b,
      e,
      others,
      hb,
      he,
      hc,
      omega (arith, q, ok-eq h),
      observed_from-Moved manifest rest others all,
    )

-- The physical records are those observed, and they account for the events and the duplicates.
abbrev pub Counted : Option Json → Option Json → ℕ → ℕ → Type 0
Counted physical duplicate observed events =
    (physical ≡ some (num observed))
    × (((d : ℕ) × (duplicate ≡ some (num d)) × (observed ≡ d + events))
        ⊎ ((d : ℕ) × (duplicate ≡ some (minus d)) × (observed + suc d ≡ events)))

pub counts_agree-Counted :
    (physical duplicate : Option Json) (observed events : ℕ)
    → counts_agree physical duplicate observed events ≡ true
    → Counted physical duplicate observed events
unfolding counts_agree
counts_agree-Counted (some (num p)) (some (num d)) observed events h =
    let (total, unique) = and-eq-true (p == observed) _ h in
    let e = (nat_beq_iff p observed).0 total in
    (
      ap (λ n. some (num n)) e,
      inl (d, refl, omega (arith, e, (nat_beq_iff p (d + events)).0 unique)),
    )
counts_agree-Counted (some (num p)) (some (minus d)) observed events h =
    let (total, unique) = and-eq-true (p == observed) _ h in
    let e = (nat_beq_iff p observed).0 total in
    (
      ap (λ n. some (num n)) e,
      inr (d, refl, omega (arith, e, (nat_beq_iff (p + (d + 1)) events).0 unique)),
    )
counts_agree-Counted _ _ observed events h = cc
