-- ===== src/Maintenance/Stamps.antt =====
-- What is written for a plan's token tells the items' identifiers, sizes and times.
use Prim.Native.Nat.{◌^◌}
use mathlib.Core.List.{Memᴰ}
use repo_karta.Common.Text.{Text}
use repo_karta.Common.{
  ℕ, zero, suc, ◌+◌, ◌-◌, ◌*◌, ◌/◌, ◌%◌, ◌≤◌, ◌<◌, false, List, [], ◌∷◌, ◌++◌, All, All-append, ◌≡◌,
  inl, inr, refl, sym, ap, subst, ◌∙◌, ltb, ◌==◌, Bool-cases, if_rule, if◌then◌else◌, arith,
}
use repo_karta.Common.Decimal.{decimal, digits}
use repo_karta.Maintenance.Cleanup.{unix_nano, written}
use repo_karta.Maintenance.Items.{Item}
use repo_karta.Maintenance.Artifacts.{value_of}

-- A text without the byte that separates.
abbrev pub Plain : Text → Type 0
Plain = All (λ c. (c == 0) ≡ false)

value_of-append : (n : ℕ) (s t : Text) → value_of n (s ++ t) ≡ value_of (value_of n s) t
unfolding value_of
value_of-append n [] t = refl
value_of-append n (c ∷ s) t = value_of-append (n * 10 + (c - b'0')) s t

value_of-digit : (n d : ℕ) → value_of n ((b'0' + d) ∷ []) ≡ n * 10 + d
unfolding value_of
value_of-digit n d = omega arith

value_of-digits : (fuel n : ℕ) → n < fuel → value_of 0 (digits fuel n) ≡ n
unfolding digits
value_of-digits zero n h = absurd (omega arith)
value_of-digits (suc fuel) n h = elim (Bool-cases (ltb n 10)) [
  | inl e ↦ rw (e, digits) (value_of-digit 0 n ∙ omega arith)
  | inr e ↦
      rw (e, digits)
        (let large : 10 ≤ n = ground arith in
          value_of-append 0 (digits fuel (n / 10)) ((b'0' + n % 10) ∷ [])
          ∙ value_of-digit (value_of 0 (digits fuel (n / 10))) (n % 10)
          ∙ omega (arith, value_of-digits fuel (n / 10) (omega arith)))
]

decimal-injective : (m n : ℕ) → decimal m ≡ decimal n → m ≡ n
decimal-injective m n h =
    sym (value_of-digits (suc m) m (omega arith))
    ∙ ap (value_of 0) h
    ∙ value_of-digits (suc n) n (omega arith)

pub digits-All :
    (P : ℕ → Type 0) → ((d : ℕ) → d < 10 → P (b'0' + d)) → (fuel n : ℕ) → All P (digits fuel n)
unfolding digits
digits-All P h zero n = tt
digits-All P h (suc fuel) n =
    if_rule (All P) (ltb n 10) ((b'0' + n) ∷ []) (digits fuel (n / 10) ++ (b'0' + n % 10) ∷ [])
      (λ e. (h n (ground arith), tt))
      (λ _.
        All-append P (digits fuel (n / 10)) ((b'0' + n % 10) ∷ []) (digits-All P h fuel (n / 10))
          (h (n % 10) (omega arith), tt))

decimal-Plain : (n : ℕ) → Plain (decimal n)
decimal-Plain n = digits-All (λ c. (c == 0) ≡ false) (λ d h. ground arith) (suc n) n

-- No digit is a minus.
decimal-minus : (n : ℕ) (s : Text) → ¬ (decimal n ≡ b'-' ∷ s)
decimal-minus n s h =
    let digits_only =
      subst (All (λ c. (c == b'-') ≡ false)) h
        (digits-All (λ c. (c == b'-') ≡ false) (λ d k. ground arith) (suc n) n) in
    absurd (let minus = digits_only.0 in cc)

unix_nano-Plain : (t : ℕ) → Plain (unix_nano t)
unfolding unix_nano
unix_nano-Plain t =
    let v = t % 2 ^ 64 in
    if_rule Plain (ltb v (2 ^ 63)) _ _ (λ _. decimal-Plain v)
      (λ _. (refl, decimal-Plain (2 ^ 64 - v)))

tail-eq : (a b : ℕ) (s t : Text) → (a ∷ s) ≡ (b ∷ t) → (a ≡ b) × (s ≡ t)
tail-eq a b s t h = (cc, cc)

not-separator : (c : ℕ) → (c == 0) ≡ false → ¬ (0 ≡ c)
not-separator c h e = ground arith

-- The first part ends at the first separator.
parts-eq : (a b s t : Text) → Plain a → Plain b → a ++ 0 ∷ s ≡ b ++ 0 ∷ t → (a ≡ b) × (s ≡ t)
parts-eq [] [] s t p q h = (refl, (tail-eq 0 0 s t h).1)
parts-eq [] (c ∷ b) s t p q h = absurd (not-separator c q.0 (tail-eq 0 c s (b ++ 0 ∷ t) h).0)
parts-eq (c ∷ a) [] s t p q h = absurd (not-separator c p.0 (sym (tail-eq c 0 (a ++ 0 ∷ s) t h).0))
parts-eq (c ∷ a) (d ∷ b) s t p q h =
    let (e, f) = tail-eq c d (a ++ 0 ∷ s) (b ++ 0 ∷ t) h in
    let (g, k) = parts-eq a b s t p.1 q.1 f in (cc, k)

-- What is written for a time tells it but for multiples of two to the power of 64.
unix_nano-mod : (s t : ℕ) → unix_nano s ≡ unix_nano t → s % 2 ^ 64 ≡ t % 2 ^ 64
unfolding unix_nano
unix_nano-mod s t h = go (s % 2 ^ 64) (t % 2 ^ 64) (omega arith) (omega arith) h
  where
    go :
        (v w : ℕ)
        → v < 2 ^ 64
        → w < 2 ^ 64
        → (if ltb v (2 ^ 63) then decimal v else b'-' ∷ decimal (2 ^ 64 - v))
          ≡ (if ltb w (2 ^ 63) then decimal w else b'-' ∷ decimal (2 ^ 64 - w))
        → v ≡ w
    go v w p q h = elim (Bool-cases (ltb v (2 ^ 63))) [
      | inl e ↦ elim (Bool-cases (ltb w (2 ^ 63))) [
        | inl f ↦ decimal-injective v w (rw (e, f) at h)
        | inr f ↦ absurd (decimal-minus v _ (rw (e, f) at h))
      ]
      | inr e ↦ elim (Bool-cases (ltb w (2 ^ 63))) [
        | inl f ↦ absurd (decimal-minus w _ (sym (rw (e, f) at h)))
        | inr f ↦
            let (x, y) = tail-eq _ _ _ _ (rw (e, f) at h) in
            let z = decimal-injective (2 ^ 64 - v) (2 ^ 64 - w) y in omega (arith, p, q, z)
      ]
    ]

-- Two items with the same identifier and size, and with times that are one as int64.
pub record SameStamp (a b : Item) : Type 0 where
  pub id : a.id ≡ b.id
  pub size : a.size_bytes ≡ b.size_bytes
  pub time : a.modified_at % 2 ^ 64 ≡ b.modified_at % 2 ^ 64

abbrev pub SameStamps : List Item → List Item → Type 0
SameStamps [] [] = Unit
SameStamps (a ∷ xs) (b ∷ ys) = SameStamp a b × SameStamps xs ys
SameStamps _ _ = ⊥

not-nil-eq : (a s : Text) → ¬ ([] ≡ a ++ 0 ∷ s)
not-nil-eq [] s h = absurd cc
not-nil-eq (c ∷ a) s h = absurd cc

pub written-SameStamps :
    (xs ys : List Item)
    → All (λ (i : Item). Plain i.id) xs
    → All (λ (i : Item). Plain i.id) ys
    → written xs ≡ written ys
    → SameStamps xs ys
unfolding written
written-SameStamps [] [] p q h = tt
written-SameStamps [] (b ∷ ys) p q h = not-nil-eq b.id _ h
written-SameStamps (a ∷ xs) [] p q h = not-nil-eq a.id _ (sym h)
written-SameStamps (a ∷ xs) (b ∷ ys) p q h =
    let (e, h1) = parts-eq a.id b.id _ _ p.0 q.0 h in
    let (f, h2) =
      parts-eq (decimal a.size_bytes) (decimal b.size_bytes) _ _ (decimal-Plain a.size_bytes)
        (decimal-Plain b.size_bytes) h1 in
    let (g, h3) =
      parts-eq (unix_nano a.modified_at) (unix_nano b.modified_at) (written xs) (written ys)
        (unix_nano-Plain a.modified_at) (unix_nano-Plain b.modified_at) h2 in
    (
      record {
        id = e;
        size = decimal-injective a.size_bytes b.size_bytes f;
        time = unix_nano-mod a.modified_at b.modified_at g;
      },
      written-SameStamps xs ys p.1 q.1 h3,
    )

-- Each item of the one list has its like in the other.
pub SameStamps-Memᴰ :
    (xs ys : List Item) {a : Item}
    → SameStamps xs ys
    → Memᴰ a xs
    → (b : Item) × Memᴰ b ys × SameStamp a b
SameStamps-Memᴰ [] [] h (m) = absurd (elim m [ ])
SameStamps-Memᴰ (x ∷ xs) (y ∷ ys) {a} h (Memᴰ.head e) =
    (y, Memᴰ.head refl, subst (λ c. SameStamp c y) (sym e) h.0)
SameStamps-Memᴰ (x ∷ xs) (y ∷ ys) h (Memᴰ.tail m) =
    let (b, n, s) = SameStamps-Memᴰ xs ys h.1 m in (b, Memᴰ.tail n, s)
SameStamps-Memᴰ [] (y ∷ ys) h m = absurd h
SameStamps-Memᴰ (x ∷ xs) [] h m = absurd h
