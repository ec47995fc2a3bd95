-- ===== src/Feedback/Resolution/Causal.antt =====
-- The selection loop of `resolve_feedback` against what was received by the cutoff.
use sentinel_aegis_forge.Common.{
  range, ℕ, zero, suc, ◌+◌, ◌≤◌, ◌<◌, max, ◌≡◌, refl, sym, ◌∙◌, ◌⊎◌, inl, inr, Option, none, some,
  some-eq, subst, List, [], ◌∷◌, Bool-cases, leb, leb→le, leb→lt, All, All-mono, Among, head-eq,
  tail-eq, arith,
}
use sentinel_aegis_forge.Datasets.Time.{Instant}
use sentinel_aegis_forge.Feedback.Contract.{FeedbackRecord}
use sentinel_aegis_forge.Feedback.Resolution.{SelectedRevision, revisions, select_from}

-- The first of the records, if any, came after the cutoff.
abbrev pub IsBlocked : Instant → List FeedbackRecord → Type 0
IsBlocked cutoff [] = Unit
IsBlocked cutoff (item ∷ rest) = cutoff < item.received_at

-- Once the availability has passed the cutoff nothing more is chosen.
pub select_from_late :
    (cutoff a : Instant) (chosen : Option SelectedRevision) (items : List FeedbackRecord)
    → cutoff < a
    → select_from cutoff a chosen items ≡ chosen
unfolding select_from
select_from_late cutoff a chosen [] h = refl
select_from_late cutoff a chosen (item ∷ rest) h =
    ground (arith, select_from_late cutoff (max a item.received_at) chosen rest)

pub revisions-ge :
    (k n : ℕ) (items : List FeedbackRecord)
    → revisions items ≡ range k n
    → All (λ x. k ≤ x.source_revision) items
revisions-ge k n [] e = tt
revisions-ge k zero (item ∷ rest) e = cc
revisions-ge k (suc n) (item ∷ rest) e = (
  omega (arith, head-eq e),
  All-mono (λ x. k + 1 ≤ x.source_revision) (λ x. k ≤ x.source_revision) (λ x h. omega arith) rest
      (revisions-ge (k + 1) n rest (tail-eq e)),
)

abbrev pub Covers : Instant → SelectedRevision → List FeedbackRecord → Type 0
Covers cutoff s items =
    All
      (λ x.
        (x.source_revision ≤ s.revision.source_revision → x.received_at ≤ s.effective_available_at)
        × (x.source_revision ≡ s.revision.source_revision + 1 → cutoff < x.received_at))
      items

-- How the loop can end with `s`: it kept what it had, or it chose one of the records.
abbrev Chosen :
    Instant
    → ℕ
    → Instant
    → Option SelectedRevision
    → SelectedRevision
    → List FeedbackRecord
    → Type 0
Chosen cutoff k a chosen s items =
    ((chosen ≡ some s) × IsBlocked cutoff items)
    ⊎ ((k ≤ s.revision.source_revision)
        × (a ≤ s.effective_available_at)
        × (s.effective_available_at ≤ cutoff)
        × Among s.revision items
        × Covers cutoff s items)

-- A record that was just chosen covers what follows if that is blocked.
Covers-last :
    (cutoff a k n : ℕ) (item : FeedbackRecord) (rest : List FeedbackRecord)
    → item.source_revision ≡ k
    → revisions rest ≡ range (k + 1) n
    → IsBlocked cutoff rest
    → Covers cutoff (record { revision = item; effective_available_at = a }) rest
Covers-last cutoff a k n item [] ek e b = tt
Covers-last cutoff a k zero item (next ∷ rest) ek e b = cc
Covers-last cutoff a k (suc n) item (next ∷ rest) ek e b = (
  (λ h. absurd (omega (arith, head-eq e)), λ h. b),
  All-mono (λ x. k + 2 ≤ x.source_revision)
      (λ x.
        (x.source_revision ≤ item.source_revision → x.received_at ≤ a)
        × (x.source_revision ≡ item.source_revision + 1 → cutoff < x.received_at))
      (λ x g. (λ h. absurd (omega arith), λ h. absurd (omega arith))) rest
      (All-mono (λ x. k + 1 + 1 ≤ x.source_revision) (λ x. k + 2 ≤ x.source_revision)
        (λ x g. omega arith) rest (revisions-ge (k + 1 + 1) n rest (tail-eq e))),
)

Chosen-step :
    (cutoff a k n : ℕ) (chosen : Option SelectedRevision) (s : SelectedRevision)
    (item : FeedbackRecord) (rest : List FeedbackRecord)
    → item.source_revision ≡ k
    → revisions rest ≡ range (k + 1) n
    → max a item.received_at ≤ cutoff
    → Chosen cutoff
        (k + 1)
        (max a item.received_at)
        (some (record { revision = item; effective_available_at = max a item.received_at }))
        s
        rest
    → Chosen cutoff k a chosen s (item ∷ rest)
Chosen-step cutoff a k n chosen s item rest ek e le (inl (now, blocked)) =
    subst (λ t. Chosen cutoff k a chosen t (item ∷ rest)) (some-eq now)
      (inr (
        omega arith,
        omega arith,
        le,
        inl refl,
        (
          (λ h. omega arith, λ h. absurd (omega arith)),
          Covers-last cutoff (max a item.received_at) k n item rest ek e blocked,
        ),
      ))
Chosen-step cutoff a k n chosen s item rest ek e le (inr (ge, later, before, found, covers)) = inr (
  omega arith,
  omega arith,
  before,
  inr found,
  ((λ h. omega arith, λ h. absurd (omega arith)), covers),
)

pub select_from-Chosen :
    (cutoff a k n : ℕ) (chosen : Option SelectedRevision) (s : SelectedRevision)
    (items : List FeedbackRecord)
    → revisions items ≡ range k n
    → a ≤ cutoff
    → select_from cutoff a chosen items ≡ some s
    → Chosen cutoff k a chosen s items
unfolding select_from
select_from-Chosen cutoff a k n chosen s [] e le h = inl (h, tt)
select_from-Chosen cutoff a k zero chosen s (item ∷ rest) e le h = cc
select_from-Chosen cutoff a k (suc n) chosen s (item ∷ rest) e le h =
    elim (Bool-cases (leb (max a item.received_at) cutoff)) [
      | inl early ↦
          Chosen-step cutoff a k n chosen s item rest (head-eq e) (tail-eq e) (leb→le _ _ early) (
            select_from-Chosen cutoff (max a item.received_at) (k + 1) n
              (some (record { revision = item; effective_available_at = max a item.received_at })) s
              rest (tail-eq e) (leb→le _ _ early) (rw early at h))
      | inr late ↦ inl (
        sym (select_from_late cutoff (max a item.received_at) chosen rest (leb→lt _ _ late))
            ∙ (rw late at h),
        omega (arith, leb→lt _ _ late),
      )
    ]

select_from-ne-none :
    (cutoff a : Instant) (s : SelectedRevision) (items : List FeedbackRecord)
    → select_from cutoff a (some s) items ≡ none
    → ⊥
unfolding select_from
select_from-ne-none cutoff a s [] h = cc
select_from-ne-none cutoff a s (item ∷ rest) h =
    elim (Bool-cases (leb (max a item.received_at) cutoff)) [
      | inl early ↦ select_from-ne-none cutoff (max a item.received_at) _ rest (rw early at h)
      | inr late ↦ select_from-ne-none cutoff (max a item.received_at) s rest (rw late at h)
    ]

pub select_from-none :
    (cutoff a : Instant) (items : List FeedbackRecord)
    → a ≤ cutoff
    → select_from cutoff a none items ≡ none
    → IsBlocked cutoff items
unfolding select_from
select_from-none cutoff a [] le h = tt
select_from-none cutoff a (item ∷ rest) le h =
    elim (Bool-cases (leb (max a item.received_at) cutoff)) [
      | inl early ↦
          absurd (select_from-ne-none cutoff (max a item.received_at) _ rest (rw early at h))
      | inr late ↦ omega (arith, leb→lt _ _ late)
    ]
