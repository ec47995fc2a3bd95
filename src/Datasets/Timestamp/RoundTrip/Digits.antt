-- ===== src/Datasets/Timestamp/RoundTrip/Digits.antt =====
-- Digits that are printed are read back.
use Prim.Native.Nat.{◌/◌, ◌%◌}
use Prim.Native.Char.{code, char}
use Prim.Native.String.{◌∷◌ as cons}
use sentinel_aegis_forge.Common.{
  ℕ, zero, suc, ◌+◌, ◌*◌, ◌<◌, String, ◌≡◌, refl, ap, ◌∙◌, true, arith, nat_eq, string_eq, pair_eq,
  list_eq, ok,
}
use sentinel_aegis_forge.Datasets.Timestamp.{is_digit, digits, tenths, first_is_digit, fraction}
use sentinel_aegis_forge.Datasets.Timestamp.Text.{digit_char, pad_2, pad_4, pad_6}

code-digit_char : (d : ℕ) → d < 10 → code (digit_char d) ≡ 48 + d
unfolding digit_char
code-digit_char zero h = refl
code-digit_char (suc zero) h = refl
code-digit_char (suc (suc zero)) h = refl
code-digit_char (suc (suc (suc zero))) h = refl
code-digit_char (suc (suc (suc (suc zero)))) h = refl
code-digit_char (suc (suc (suc (suc (suc zero))))) h = refl
code-digit_char (suc (suc (suc (suc (suc (suc zero)))))) h = refl
code-digit_char (suc (suc (suc (suc (suc (suc (suc zero))))))) h = refl
code-digit_char (suc (suc (suc (suc (suc (suc (suc (suc zero)))))))) h = refl
code-digit_char (suc (suc (suc (suc (suc (suc (suc (suc (suc zero))))))))) h = refl
code-digit_char (suc (suc (suc (suc (suc (suc (suc (suc (suc (suc d)))))))))) h =
    absurd (omega arith)

is_digit-digit_char : (d : ℕ) → d < 10 → is_digit (code (digit_char d)) ≡ true
unfolding is_digit
is_digit-digit_char d h = rw (code-digit_char d h) (ground arith)

-- one digit is read
digits-digit :
    (n acc d : ℕ) (s : String)
    → d < 10
    → digits (suc n) acc (cons (digit_char d) s) ≡ digits n (acc * 10 + d) s
unfolding digits
digits-digit n acc d s h =
    rw (is_digit-digit_char d h)
      (ap (λ t. digits n (acc * 10 + t) s) (omega (arith, code-digit_char d h)))

digits-pad_2 :
    (n acc v : ℕ) (s : String)
    → v < 100
    → digits (suc (suc n)) acc (pad_2 v s) ≡ digits n (acc * 100 + v) s
unfolding pad_2
digits-pad_2 n acc v s h =
    digits-digit (suc n) acc (v / 10) _ (omega arith)
    ∙ digits-digit n (acc * 10 + v / 10) (v % 10) s (omega arith)
    ∙ ap (λ t. digits n t s) (omega arith)

pub digits-two : (v : ℕ) (s : String) → v < 100 → digits 2 0 (pad_2 v s) ≡ ok (v, s)
unfolding digits
digits-two v s h = digits-pad_2 0 0 v s h ∙ ap (λ t. ok (t, s)) (omega arith)

pub digits-four : (v : ℕ) (s : String) → v < 10_000 → digits 4 0 (pad_4 v s) ≡ ok (v, s)
unfolding digits pad_4
digits-four v s h =
    digits-pad_2 2 0 (v / 100) (pad_2 (v % 100) s) (omega arith)
    ∙ digits-pad_2 0 (0 * 100 + v / 100) (v % 100) s (omega arith)
    ∙ ap (λ t. ok (t, s)) (omega arith)

tenths-digit :
    (n scale acc d : ℕ) (s : String)
    → d < 10
    → tenths (suc n) scale acc (cons (digit_char d) s) ≡ tenths n (scale / 10) (acc + d * scale) s
unfolding tenths
tenths-digit n scale acc d s h =
    rw (is_digit-digit_char d h)
      (ap (λ t. tenths n (scale / 10) (acc + t * scale) s) (omega (arith, code-digit_char d h)))

tenths-pad_2 :
    (n scale acc v : ℕ) (s : String)
    → v < 100
    → tenths (suc (suc n)) scale acc (pad_2 v s)
      ≡ tenths n (scale / 10 / 10) (acc + v / 10 * scale + v % 10 * (scale / 10)) s
unfolding pad_2
tenths-pad_2 n scale acc v s h =
    tenths-digit (suc n) scale acc (v / 10) _ (omega arith)
    ∙ tenths-digit n (scale / 10) (acc + v / 10 * scale) (v % 10) s (omega arith)

tenths-six : (v : ℕ) (s : String) → v < 1_000_000 → tenths 6 100_000 0 (pad_6 v s) ≡ (v, s)
unfolding tenths pad_6 pad_4
tenths-six v s h =
    let first = v / 10_000 / 10 * 100_000 + v / 10_000 % 10 * 10_000 in
    let second = first + v % 10_000 / 100 / 10 * 1000 + v % 10_000 / 100 % 10 * 100 in
    tenths-pad_2 4 100_000 0 (v / 10_000) (pad_4 (v % 10_000) s) (omega arith)
    ∙ ap (λ t. tenths 4 1000 t (pad_4 (v % 10_000) s)) (omega arith)
    ∙ tenths-pad_2 2 1000 first (v % 10_000 / 100) (pad_2 (v % 10_000 % 100) s) (omega arith)
    ∙ tenths-pad_2 0 10 second (v % 10_000 % 100) s (omega arith)
    ∙ ap (λ t. (t, s)) (omega arith)

fraction-dot :
    (s : String)
    → first_is_digit s ≡ true
    → fraction (cons (char b'.' tt) s) ≡ ok (tenths 6 100_000 0 s)
unfolding fraction
fraction-dot s h = rw h refl

first_is_digit-pad_6 : (v : ℕ) (s : String) → v < 1_000_000 → first_is_digit (pad_6 v s) ≡ true
unfolding first_is_digit pad_6 pad_2
first_is_digit-pad_6 v s h = is_digit-digit_char (v / 10_000 / 10) (omega arith)

pub fraction-six :
    (v : ℕ) (s : String) → v < 1_000_000 → fraction (cons (char b'.' tt) (pad_6 v s)) ≡ ok (v, s)
fraction-six v s h =
    fraction-dot (pad_6 v s) (first_is_digit-pad_6 v s h) ∙ ap (λ t. ok t) (tenths-six v s h)
