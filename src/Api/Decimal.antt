-- ===== src/Api/Decimal.antt =====
-- Decimal digits, as a template literal prints a version (client.ts), and their value.
use job_lens.Common.{
  ℕ, zero, suc, ◌+◌, ◌-◌, ◌*◌, ◌/◌, ◌%◌, ◌<◌, ◌≡◌, refl, [], ◌∷◌, ◌++◌, Text, arith, ltb,
  if◌then◌else◌,
}

-- The digits of `n`, on fuel above `n`.
digits_from : ℕ → ℕ → Text
digits_from zero n = []
digits_from (suc f) n =
    let more = digits_from f (n / 10) ++ (48 + n % 10) ∷ [] in
    if ltb n 10 then (48 + n) ∷ [] else more

unfoldable pub decimal : ℕ → Text
unfolding digits_from
decimal n = digits_from (suc n) n

-- The number that a text of digits stands for.
value_from : ℕ → Text → ℕ
value_from acc [] = acc
value_from acc (c ∷ s) = value_from (acc * 10 + (c - 48)) s

unfoldable pub value : Text → ℕ
unfolding value_from
value = value_from 0

value_from-append :
    (acc : ℕ) (s : Text) (c : ℕ) → value_from acc (s ++ c ∷ []) ≡ value_from acc s * 10 + (c - 48)
unfolding value_from
value_from-append acc [] c = refl
value_from-append acc (d ∷ s) c = value_from-append (acc * 10 + (d - 48)) s c

value-digits_from : (f n : ℕ) → n < f → value_from 0 (digits_from f n) ≡ n
unfolding digits_from value_from
value-digits_from zero n h = elim h [ ]
value-digits_from (suc f) n h = ground (
  arith,
  value_from-append 0 (digits_from f (n / 10)) (48 + n % 10),
  value-digits_from f (n / 10),
)

-- Reading the printed digits gives the number back.
pub value-decimal : (n : ℕ) → value (decimal n) ≡ n
unfolding value decimal
value-decimal n = value-digits_from (suc n) n (omega arith)
