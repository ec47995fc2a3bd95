-- ===== src/Incremental/Fence/Exact/Parts.antt =====
-- The group of a fence and the offsets of its partitions.
use Prim.Native.Char.{code}
use Prim.Native.String.{◌++◌ as concat, [] as empty, ◌∷◌ as char_cons}
use package.text.Mathlib.TextEquality.{Char-path}
use sentinel_aegis_forge.Common.{
  raise_if-not-eq-ok, and-eq-true, ℕ, ◌≤◌, String, ◌≡◌, ◌⊎◌, inl, inr, refl, ap, ◌∙◌, Bool, true,
  ◌&&◌, ◌||◌, arith, leb, leb→le, nat_beq, nat_beq_iff, Bool-cases, eq_iff, ◌==◌, nat_eq, string_eq,
  pair_eq, list_eq, lookup, ok, map_error, map_error-eq-ok, >>=-eq-ok,
}
use sentinel_aegis_forge.Common.Json.{Object}
use sentinel_aegis_forge.Incremental.Stream.{Offsets, natural, offsets, not_before, fence_offsets}
use sentinel_aegis_forge.Incremental.Fence.{
  group_name, all_group_chars, starts_with, text_length, group_ok, check_part,
}

-- The two offsets of a partition, in their order.
pub Between : Object → String → Type 0
Between value part =
    (b : ℕ) × (e : ℕ) × (natural (lookup (concat "beginning_" part) value) ≡ ok b)
    × (natural (lookup (concat "end_" part) value) ≡ ok e)
    × (leb b e ≡ true)

pub check_part-Between :
    (value : Object) (part : String) (u : Unit {0})
    → check_part value part ≡ ok u
    → Between value part
unfolding check_part Between
check_part-Between value part u h =
    let first = natural (lookup (concat "beginning_" part) value) in
    let last = natural (lookup (concat "end_" part) value) in
    let (b, hb, h) = >>=-eq-ok (map_error (λ _. fence_offsets) first) _ h in
    let (e, he, h) = >>=-eq-ok (map_error (λ _. fence_offsets) last) _ h in
    (
      b,
      e,
      map_error-eq-ok (λ _. fence_offsets) first hb,
      map_error-eq-ok (λ _. fence_offsets) last he,
      raise_if-not-eq-ok fence_offsets (leb b e) h,
    )

offsets-eq-ok :
    (value : Object) (prefix : String) (a b c : ℕ)
    → natural (lookup (concat prefix "_0") value) ≡ ok a
    → natural (lookup (concat prefix "_1") value) ≡ ok b
    → natural (lookup (concat prefix "_2") value) ≡ ok c
    → offsets value prefix ≡ ok (record { part_0 = a; part_1 = b; part_2 = c })
unfolding offsets
offsets-eq-ok value prefix a b c ha hb hc = rw (ha, hb, hc) refl

and_all : (a b c : Bool) → a ≡ true → b ≡ true → c ≡ true → (a && (b && c)) ≡ true
and_all a b c ha hb hc = rw (ha, hb, hc) refl

-- The offsets of the beginnings and of the ends, in their order.
abbrev pub Fenced : Object → Type 0
Fenced value =
    (beginning : Offsets) × (finish : Offsets) × (offsets value "beginning" ≡ ok beginning)
    × (offsets value "end" ≡ ok finish)
    × (not_before beginning finish ≡ true)

pub parts-Fenced :
    (value : Object) → Between value "0" → Between value "1" → Between value "2" → Fenced value
unfolding Between
parts-Fenced value (b0, e0, hb0, he0, le0) (b1, e1, hb1, he1, le1) (b2, e2, hb2, he2, le2) = (
  record { part_0 = b0; part_1 = b1; part_2 = b2 },
  record { part_0 = e0; part_1 = e1; part_2 = e2 },
  offsets-eq-ok value "beginning" b0 b1 b2 hb0 hb1 hb2,
  offsets-eq-ok value "end" e0 e1 e2 he0 he1 he2,
  and_all (leb b0 e0) (leb b1 e1) (leb b2 e2) le0 le1 le2,
)

-- `prefix + suffix`, by the characters of the prefix
abbrev pub joined : String → String → String
joined empty suffix = suffix
joined (char_cons c t) suffix = char_cons c (joined t suffix)

-- The operational group, or an isolated one: a name of its own after a dash, of letters, digits
-- and dashes, with at most 120 characters in all.
abbrev pub IsGroup : String → Type 0
IsGroup group =
    (group ≡ group_name)
    ⊎ (((suffix : String) × (group ≡ joined (concat group_name "-") suffix))
        × (text_length group ≤ 120)
        × (all_group_chars group ≡ true))

starts_with-prefix :
    (s t : String) → starts_with s t ≡ true → (suffix : String) × (s ≡ joined t suffix)
unfolding starts_with
starts_with-prefix s empty h = (s, refl)
starts_with-prefix empty (char_cons d t) h = cc
starts_with-prefix (char_cons c s) (char_cons d t) h =
    let (one, rest) = and-eq-true (nat_beq (code c) (code d)) _ h in
    let (suffix, e) = starts_with-prefix s t rest in
    let same = Char-path c d ((nat_beq_iff (code c) (code d)).0 one) in
    (suffix, ap (λ x. char_cons x s) same ∙ ap (char_cons d) e)

prefix-starts_with : (t suffix : String) → starts_with (joined t suffix) t ≡ true
unfolding starts_with
prefix-starts_with empty suffix = refl
prefix-starts_with (char_cons d t) suffix =
    rw ((nat_beq_iff (code d) (code d)).1 refl) (prefix-starts_with t suffix)

pub group_ok-IsGroup : (group : String) → group_ok group ≡ true → IsGroup group
unfolding group_ok
group_ok-IsGroup group h = elim (Bool-cases (group == group_name)) [
  | inl same ↦ inl ((eq_iff group group_name).0 same)
  | inr other ↦
      let (start, h) = and-eq-true (starts_with group (concat group_name "-")) _ (rw other at h) in
      let (short, chars) = and-eq-true (leb (text_length group) 120) _ h in
      inr (starts_with-prefix group (concat group_name "-") start, leb→le _ _ short, chars)
]

pub IsGroup-group_ok : (group : String) → IsGroup group → group_ok group ≡ true
unfolding group_ok
IsGroup-group_ok group (inl same) = rw ((eq_iff group group_name).1 same)
IsGroup-group_ok group (inr ((suffix, e), short, chars)) =
    let start : starts_with group (concat group_name "-") ≡ true =
      ap (λ g. starts_with g (concat group_name "-")) e
      ∙ prefix-starts_with (concat group_name "-") suffix in
    let fits : leb (text_length group) 120 ≡ true = ground arith in
    last_test (group == group_name) start fits chars
  where
    last_test :
        (a : Bool) {b c d : Bool} → b ≡ true → c ≡ true → d ≡ true → (a || (b && (c && d))) ≡ true
    last_test a hb hc hd = ground arith
