-- ===== src/Cli/Decimal.antt =====
-- `u16::from_str` and `Display` for u16 of the standard library. Texts are their code points.
use mathlib.Core.Option.{some-injective}
use creo_bench.Prelude.{
  ℕ, zero, suc, ◌+◌, ◌-◌, ◌*◌, ◌/◌, ◌%◌, ◌<◌, ◌≤◌, ◌≡◌, refl, ap, sym, ◌∙◌, ◌≢◌, All, All-append,
  lt→ltb, not-ltb, Bool, true, false, ◌&&◌, Bool-cases, inl, inr, Option, none, some, List, [], ◌∷◌,
  ◌++◌, ltb, leb, ltb→lt, ◌==◌, if◌then◌else◌, arith,
}

abbrev pub u16_max : ℕ
u16_max = 65535

is_digit : ℕ → Bool
is_digit c = leb b'0' c && leb c b'9'

digits : ℕ → List ℕ → Option ℕ
unfolding is_digit
digits value [] = some value
digits value (c ∷ cs) =
    let rest = digits (value * 10 + (c - b'0')) cs in if is_digit c then rest else none

in_range : Option ℕ → Option ℕ
in_range none = none
in_range (some n) = if leb n u16_max then some n else none

number : List ℕ → Option ℕ
unfolding digits in_range
number [] = none
number (c ∷ cs) = in_range (digits 0 (c ∷ cs))

-- One leading plus sign is accepted.
unfoldable pub parse_u16 : List ℕ → Option ℕ
unfolding number
parse_u16 [] = none
parse_u16 (c ∷ cs) = if c == b'+' then number cs else number (c ∷ cs)

decimal : ℕ → ℕ → List ℕ
decimal zero n = (b'0' + n % 10) ∷ []
decimal (suc fuel) n =
    let front = decimal fuel (n / 10) in
    if ltb n 10 then (b'0' + n) ∷ [] else front ++ (b'0' + n % 10) ∷ []

-- A u16 has at most five digits.
unfoldable pub print_u16 : ℕ → List ℕ
unfolding decimal
print_u16 n = decimal 4 n

limit : ℕ → ℕ
limit zero = 10
limit (suc fuel) = 10 * limit fuel

digits_step :
    (value c : ℕ) (cs : List ℕ)
    → is_digit c ≡ true
    → digits value (c ∷ cs) ≡ digits (value * 10 + (c - b'0')) cs
unfolding digits
digits_step value c cs h = rw (digits, h) refl

digits_other : (value c : ℕ) (cs : List ℕ) → is_digit c ≡ false → digits value (c ∷ cs) ≡ none
unfolding digits
digits_other value c cs h = rw (digits, h) refl

digits_empty : (value : ℕ) → digits value [] ≡ some value
unfolding digits
digits_empty value = refl

digits-append :
    (value n : ℕ) (front cs : List ℕ)
    → digits value front ≡ some n
    → digits value (front ++ cs) ≡ digits n cs
digits-append value n [] cs h =
    ap (λ v. digits v cs) (some-injective _ _ (sym (digits_empty value) ∙ h))
digits-append value n (c ∷ front) cs h = elim (Bool-cases (is_digit c)) [
  | inl digit ↦
      digits_step value c (front ++ cs) digit
      ∙ digits-append (value * 10 + (c - b'0')) n front cs
          (sym (digits_step value c front digit) ∙ h)
  | inr other ↦ cc (digits_other value c front other, h)
]

digits_one : (value d : ℕ) → d < 10 → digits value ((b'0' + d) ∷ []) ≡ some (value * 10 + d)
unfolding digits is_digit
digits_one value d h = ground arith

decimal_small : (fuel n : ℕ) → n < 10 → decimal (suc fuel) n ≡ (b'0' + n) ∷ []
unfolding decimal
decimal_small fuel n h = rw (lt→ltb n 10 h) refl

decimal_large :
    (fuel n : ℕ) → 10 ≤ n → decimal (suc fuel) n ≡ decimal fuel (n / 10) ++ (b'0' + n % 10) ∷ []
unfolding decimal
decimal_large fuel n h = rw (not-ltb n 10 h) refl

digits-decimal_one : (n : ℕ) → n < 10 → digits 0 (decimal 0 n) ≡ some n
unfolding decimal
digits-decimal_one n h = digits_one 0 (n % 10) (omega arith) ∙ ap some (omega (arith, h))

digits-decimal : (fuel n : ℕ) → n < limit fuel → digits 0 (decimal fuel n) ≡ some n
unfolding limit
digits-decimal zero n h = digits-decimal_one n h
digits-decimal (suc fuel) n h = elim (Bool-cases (ltb n 10)) [
  | inl small ↦
      ap (digits 0) (decimal_small fuel n (ltb→lt n 10 small))
      ∙ digits_one 0 n (ltb→lt n 10 small)
      ∙ ap some (omega arith)
  | inr large ↦
      ap (digits 0) (decimal_large fuel n (ground (arith, large)))
      ∙ digits-append 0 (n / 10) (decimal fuel (n / 10)) ((b'0' + n % 10) ∷ [])
          (digits-decimal fuel (n / 10) (omega (arith, h)))
      ∙ digits_one (n / 10) (n % 10) (omega arith)
      ∙ ap some (omega arith)
]

-- Only digits are printed.
abbrev pub AllDigits : List ℕ → Type 0
AllDigits = All (λ c. (b'0' ≤ c) × (c ≤ b'9'))

decimal-AllDigits : (fuel n : ℕ) → AllDigits (decimal fuel n)
unfolding decimal
decimal-AllDigits zero n = ((omega arith, omega arith), tt)
decimal-AllDigits (suc fuel) n = elim (Bool-cases (ltb n 10)) [
  | inl small ↦
      rw (decimal_small fuel n (ltb→lt n 10 small))
        ((omega arith, omega (arith, ltb→lt n 10 small)), tt)
  | inr large ↦ rw (decimal_large fuel n (ground (arith, large))) (
      All-append _ (decimal fuel (n / 10)) ((b'0' + n % 10) ∷ []) (decimal-AllDigits fuel (n / 10))
        ((omega arith, omega arith), tt))
]

pub print_u16-AllDigits : (n : ℕ) → AllDigits (print_u16 n)
unfolding print_u16
print_u16-AllDigits n = decimal-AllDigits 4 n

not_plus : (c : ℕ) → b'0' ≤ c → (c == b'+') ≡ false
not_plus c h = ground arith

parse_u16_digit :
    (c : ℕ) (cs : List ℕ) → b'0' ≤ c → parse_u16 (c ∷ cs) ≡ in_range (digits 0 (c ∷ cs))
unfolding parse_u16 number
parse_u16_digit c cs h = rw (parse_u16, not_plus c h) refl

in_range-some : (n : ℕ) → n ≤ u16_max → in_range (some n) ≡ some n
unfolding in_range
in_range-some n h = ground arith

parse_u16-digits :
    (cs : List ℕ) (n : ℕ)
    → AllDigits cs
    → cs ≢ []
    → digits 0 cs ≡ some n
    → n ≤ u16_max
    → parse_u16 cs ≡ some n
parse_u16-digits [] n d h e b = absurd (h refl)
parse_u16-digits (c ∷ cs) n d h e b = parse_u16_digit c cs d.0.0 ∙ ap in_range e ∙ in_range-some n b

append_one : {A : Type 0} (xs : List A) (x : A) → xs ++ x ∷ [] ≢ []
append_one [] x e = cc
append_one (y ∷ xs) x e = cc

decimal_nonempty : (fuel n : ℕ) → decimal fuel n ≢ []
unfolding decimal
decimal_nonempty zero n e = cc
decimal_nonempty (suc fuel) n e = elim (Bool-cases (ltb n 10)) [
  | inl small ↦ cc (decimal_small fuel n (ltb→lt n 10 small), e)
  | inr large ↦
      append_one (decimal fuel (n / 10)) (b'0' + n % 10)
        (sym (decimal_large fuel n (ground (arith, large))) ∙ e)
]

below_limit : (n : ℕ) → n ≤ u16_max → n < limit 4
unfolding limit
below_limit n h = omega (arith, h)

pub parse_u16-print_u16 : (n : ℕ) → n ≤ u16_max → parse_u16 (print_u16 n) ≡ some n
unfolding print_u16
parse_u16-print_u16 n h =
    parse_u16-digits (decimal 4 n) n (decimal-AllDigits 4 n) (decimal_nonempty 4 n)
      (digits-decimal 4 n (below_limit n h)) h

in_range-le : (o : Option ℕ) (n : ℕ) → in_range o ≡ some n → n ≤ u16_max
unfolding in_range
in_range-le none n h = cc
in_range-le (some m) n h = ground (arith, h)

number-le : (cs : List ℕ) (n : ℕ) → number cs ≡ some n → n ≤ u16_max
unfolding number
number-le [] n h = cc
number-le (c ∷ cs) n h = in_range-le (digits 0 (c ∷ cs)) n h

-- What is parsed is a u16.
pub parse_u16-le : (cs : List ℕ) (n : ℕ) → parse_u16 cs ≡ some n → n ≤ u16_max
unfolding parse_u16
parse_u16-le [] n h = cc
parse_u16-le (c ∷ cs) n h = ground (arith, number-le cs n, number-le (c ∷ cs) n)
