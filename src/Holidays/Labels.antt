-- ===== src/Holidays/Labels.antt =====
-- The labels of months of app/services/holidays_service.py can be read back.
use updatednitr.Prelude.{
  ℕ, zero, suc, ◌+◌, ◌/◌, ◌%◌, ◌≤◌, ◌<◌, ◌≡◌, refl, some, [], ◌∷◌, Text, arith, decimal_year,
  number, ◌++◌, lower,
}
use updatednitr.Holidays.Months.{label, label_to_ym, month_name, match_label, find_month}

each_month {ℓ} :
    (P : ℕ → Type ℓ)
    → P 1
    → P 2
    → P 3
    → P 4
    → P 5
    → P 6
    → P 7
    → P 8
    → P 9
    → P 10
    → P 11
    → P 12
    → (m : ℕ) → 1 ≤ m
    → m ≤ 12
    → P m
each_month P p1 p2 p3 p4 p5 p6 p7 p8 p9 p10 p11 p12 (zero) lo hi = absurd (omega arith)
each_month P p1 p2 p3 p4 p5 p6 p7 p8 p9 p10 p11 p12 (suc zero) lo hi = p1
each_month P p1 p2 p3 p4 p5 p6 p7 p8 p9 p10 p11 p12 (suc (suc zero)) lo hi = p2
each_month P p1 p2 p3 p4 p5 p6 p7 p8 p9 p10 p11 p12 (suc (suc (suc zero))) lo hi = p3
each_month P p1 p2 p3 p4 p5 p6 p7 p8 p9 p10 p11 p12 (suc (suc (suc (suc zero)))) lo hi = p4
each_month P p1 p2 p3 p4 p5 p6 p7 p8 p9 p10 p11 p12 (suc (suc (suc (suc (suc zero))))) lo hi = p5
each_month P p1 p2 p3 p4 p5 p6 p7 p8 p9 p10 p11 p12 (suc (suc (suc (suc (suc (suc zero)))))) lo hi =
    p6
each_month P p1 p2 p3 p4 p5 p6 p7 p8 p9 p10 p11 p12 (suc (suc (suc (suc (suc (suc (suc zero)))))))
      lo hi =
    p7
each_month P p1 p2 p3 p4 p5 p6 p7 p8 p9 p10 p11 p12
      (suc (suc (suc (suc (suc (suc (suc (suc zero)))))))) lo hi =
    p8
each_month P p1 p2 p3 p4 p5 p6 p7 p8 p9 p10 p11 p12
      (suc (suc (suc (suc (suc (suc (suc (suc (suc zero))))))))) lo hi =
    p9
each_month P p1 p2 p3 p4 p5 p6 p7 p8 p9 p10 p11 p12
      (suc (suc (suc (suc (suc (suc (suc (suc (suc (suc zero)))))))))) lo hi =
    p10
each_month P p1 p2 p3 p4 p5 p6 p7 p8 p9 p10 p11 p12
      (suc (suc (suc (suc (suc (suc (suc (suc (suc (suc (suc zero))))))))))) lo hi =
    p11
each_month P p1 p2 p3 p4 p5 p6 p7 p8 p9 p10 p11 p12
      (suc (suc (suc (suc (suc (suc (suc (suc (suc (suc (suc (suc zero)))))))))))) lo hi =
    p12
each_month P p1 p2 p3 p4 p5 p6 p7 p8 p9 p10 p11 p12
      (suc (suc (suc (suc (suc (suc (suc (suc (suc (suc (suc (suc (suc n))))))))))))) lo hi =
    absurd (omega arith)

-- The digits of a year, as its label has them.
abbrev year_digits : ℕ → ℕ → ℕ → ℕ → Text
year_digits a b c d = (48 + a) ∷ (48 + b) ∷ (48 + c) ∷ (48 + d) ∷ []

-- The match of the label of a month, whatever the digits.
IsMatched : ℕ → Type 0
IsMatched m =
    (a b c d : ℕ)
    → a < 10
    → b < 10
    → c < 10
    → d < 10
    → match_label (month_name m ++ 32 ∷ year_digits a b c d)
      ≡ some (month_name m, year_digits a b c d)

match_label-label : (m : ℕ) → 1 ≤ m → m ≤ 12 → IsMatched m
unfolding match_label month_name IsMatched
match_label-label =
    each_month IsMatched (λ a b c d ha hb hc hd. ground arith) (λ a b c d ha hb hc hd. ground arith)
      (λ a b c d ha hb hc hd. ground arith) (λ a b c d ha hb hc hd. ground arith)
      (λ a b c d ha hb hc hd. ground arith) (λ a b c d ha hb hc hd. ground arith)
      (λ a b c d ha hb hc hd. ground arith) (λ a b c d ha hb hc hd. ground arith)
      (λ a b c d ha hb hc hd. ground arith) (λ a b c d ha hb hc hd. ground arith)
      (λ a b c d ha hb hc hd. ground arith) (λ a b c d ha hb hc hd. ground arith)

find_month_name : (m : ℕ) → 1 ≤ m → m ≤ 12 → find_month 12 1 (month_name m) ≡ some m
unfolding find_month month_name
find_month_name =
    each_month (λ m. find_month 12 1 (month_name m) ≡ some m) refl refl refl refl refl refl refl
      refl refl refl refl refl

number_year :
    (y : ℕ)
    → y < 10000
    → number 0 (year_digits (y / 10 / 10 / 10) (y / 10 / 10 % 10) (y / 10 % 10) (y % 10)) ≡ y
unfolding number
number_year y h = omega arith

-- _label_to_ym reads back the label of every month of a year of four digits.
pub label_to_ym-label :
    (y m : ℕ) → 999 < y → y < 10000 → 1 ≤ m → m ≤ 12 → label_to_ym (label (y, m)) ≡ (y, m)
unfolding label_to_ym label IsMatched
label_to_ym-label y m lo hi one twelve = rw (decimal_year y lo hi) (
    rw
      (
        match_label-label m one twelve (y / 10 / 10 / 10) (y / 10 / 10 % 10) (y / 10 % 10) (y % 10)
            (omega arith) (omega arith) (omega arith) (omega arith),
        label_to_ym,
      )
      (rw (find_month_name m one twelve, number_year y hi) refl))

-- The same in lower case: what the comparison of two labels sees determines the month.
IsMatchedLower : ℕ → Type 0
IsMatchedLower m =
    (a b c d : ℕ)
    → a < 10
    → b < 10
    → c < 10
    → d < 10
    → match_label (lower (month_name m ++ 32 ∷ year_digits a b c d))
      ≡ some (lower (month_name m), year_digits a b c d)

match_label-lower : (m : ℕ) → 1 ≤ m → m ≤ 12 → IsMatchedLower m
unfolding match_label month_name IsMatchedLower
match_label-lower =
    each_month IsMatchedLower (λ a b c d ha hb hc hd. ground arith)
      (λ a b c d ha hb hc hd. ground arith) (λ a b c d ha hb hc hd. ground arith)
      (λ a b c d ha hb hc hd. ground arith) (λ a b c d ha hb hc hd. ground arith)
      (λ a b c d ha hb hc hd. ground arith) (λ a b c d ha hb hc hd. ground arith)
      (λ a b c d ha hb hc hd. ground arith) (λ a b c d ha hb hc hd. ground arith)
      (λ a b c d ha hb hc hd. ground arith) (λ a b c d ha hb hc hd. ground arith)
      (λ a b c d ha hb hc hd. ground arith)

find_month-lower : (m : ℕ) → 1 ≤ m → m ≤ 12 → find_month 12 1 (lower (month_name m)) ≡ some m
unfolding find_month month_name
find_month-lower =
    each_month (λ m. find_month 12 1 (lower (month_name m)) ≡ some m) refl refl refl refl refl refl
      refl refl refl refl refl refl

pub label_to_ym-lower_label :
    (y m : ℕ) → 999 < y → y < 10000 → 1 ≤ m → m ≤ 12 → label_to_ym (lower (label (y, m))) ≡ (y, m)
unfolding label_to_ym label IsMatchedLower
label_to_ym-lower_label y m lo hi one twelve = rw (decimal_year y lo hi) (
    rw
      (
        match_label-lower m one twelve (y / 10 / 10 / 10) (y / 10 / 10 % 10) (y / 10 % 10) (y % 10)
            (omega arith) (omega arith) (omega arith) (omega arith),
        label_to_ym,
      )
      (rw (find_month-lower m one twelve, number_year y hi) refl))
