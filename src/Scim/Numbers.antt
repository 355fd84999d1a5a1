-- ===== src/Scim/Numbers.antt =====
-- What a parameter of a listing asks for (`strconv.Atoi` in `pageParameters` of
-- internal/scim/scim.go): a decimal number is read back, and no number and a negative one are 0.
use Prim.Native.Nat.{◌^◌}
use repo_karta.Common.Decimal.{decimal, digits}
use repo_karta.Common.Text.{Text}
use repo_karta.Common.{
  ℕ, zero, suc, ◌+◌, ◌-◌, ◌*◌, ◌/◌, ◌%◌, ◌≤◌, ◌<◌, ◌≡◌, ◌∙◌, refl, sym, ap, true, false, [], ◌∷◌,
  ◌++◌, append_assoc, append-nil, All, arith, ltb, leb, ◌==◌, if◌then◌else◌, Bool-cases, inl, inr,
}
use repo_karta.Maintenance.Stamps.{digits-All}
use repo_karta.Scim.Listing.{atoi, digits_value, is_digit}

-- What a parameter's text asks for.
pub record Asks (t : Text) (k : ℕ) : Type 0 where
  pub number : (n : ℕ) → n < 2 ^ 63 → t ≡ decimal n → k ≡ n
  pub no_number : t ≡ [] → k ≡ 0
  pub negative : (s : Text) → t ≡ b'-' ∷ s → k ≡ 0

digit-value :
    (m d : ℕ) (rest : Text)
    → d < 10
    → m * 10 + d < 2 ^ 63
    → digits_value m ((b'0' + d) ∷ rest) ≡ digits_value (m * 10 + d) rest
unfolding digits_value
digit-value m d rest h k =
    let same : b'0' + d - b'0' ≡ d = omega arith in
    let digit : is_digit (b'0' + d) ≡ true = ground arith in
    let small : leb (2 ^ 64) (m * 10 + d) ≡ false = ground arith in rw (same, digit, small) refl

digits-value :
    (fuel n : ℕ) (rest : Text)
    → n < fuel
    → n < 2 ^ 63
    → digits_value 0 (digits fuel n ++ rest) ≡ digits_value n rest
unfolding digits
digits-value zero n rest h k = absurd (omega arith)
digits-value (suc fuel) n rest h k = elim (Bool-cases (ltb n 10)) [
  | inl e ↦
      rw (e, digits)
        (digit-value 0 n rest (ground arith) (omega arith)
          ∙ ap (λ m. digits_value m rest) (omega arith))
  | inr e ↦
      let large : 10 ≤ n = ground arith in
      let d = (b'0' + n % 10) ∷ [] in
      rw (e, digits)
        (ap (digits_value 0) (append_assoc (digits fuel (n / 10)) d rest)
          ∙ digits-value fuel (n / 10) (d ++ rest) (omega arith) (omega arith)
          ∙ digit-value (n / 10) (n % 10) rest (omega arith) (omega arith)
          ∙ ap (λ m. digits_value m rest) (omega arith))
]

atoi-digits :
    (t : Text)
    → All (λ c. leb b'0' c ≡ true) t
    → atoi t ≡ (let n = digits_value 0 t in if leb (2 ^ 63) n then 2 ^ 63 - 1 else n)
unfolding atoi
atoi-digits [] a = unfold digits_value in refl
atoi-digits (c ∷ s) a =
    let minus : (c == b'-') ≡ false = ground arith in
    let plus : (c == b'+') ≡ false = ground arith in rw (minus, plus) refl

atoi-decimal : (n : ℕ) → n < 2 ^ 63 → atoi (decimal n) ≡ n
atoi-decimal n h =
    let all_digits = digits-All (λ c. leb b'0' c ≡ true) (λ d k. ground arith) (suc n) n in
    let value : digits_value 0 (decimal n) ≡ n =
      ap (digits_value 0) (sym (append-nil (decimal n)))
      ∙ digits-value (suc n) n [] (omega arith) h
      ∙ unfold digits_value in refl in
    let small : leb (2 ^ 63) n ≡ false = ground arith in
    atoi-digits (decimal n) all_digits ∙ rw (value, small) refl

pub atoi-Asks : (t : Text) → Asks t (atoi t)
atoi-Asks t = record {
  number = λ n h e. ap atoi e ∙ atoi-decimal n h;
  no_number = λ e. ap atoi e ∙ unfold atoi in refl;
  negative = λ s e. ap atoi e ∙ unfold atoi in refl;
}
