-- ===== src/Text/Decimal.antt =====
-- What package fmt prints of an int64 by the verb `%d`, and the integer that such a text stands for.
use Prim.Native.Nat.{zero, suc, ◌+◌, ◌-◌, ◌*◌, ◌/◌, ◌%◌, ◌<◌}
use token_control.Common.{
  ◌≡◌, refl, ℕ, false, ◌&&◌, [], ◌∷◌, Option, none, some, arith, leb, Bool-cases, inl, inr,
  if◌then◌else◌,
}
use token_control.Common.Int.{ℤ, pos, negsuc}
use token_control.Text.{Text}

-- The digits of a number before a text, the last one first; `fuel` bounds their count.
print_digits : (fuel number : ℕ) → Text → Text
print_digits zero number after = after
print_digits (suc fuel) number after =
    let last = b'0' + number % 10 in
    let more = print_digits fuel (number / 10) (last ∷ after) in
    if leb number 9 then last ∷ after else more

-- The number plus one bounds the count of its digits.
unfoldable pub print_ℕ : ℕ → Text
unfolding print_digits
print_ℕ number = print_digits (suc number) number []

-- `fmt.Sprintf("%d", v)`
unfoldable pub print_int : ℤ → Text
print_int (pos n) = print_ℕ n
print_int (negsuc n) = b'-' ∷ print_ℕ (suc n)

read_digits : ℕ → Text → Option ℕ
read_digits so_far [] = some so_far
read_digits so_far (c ∷ rest) =
    let further = read_digits (so_far * 10 + (c - b'0')) rest in
    if leb b'0' c && leb c b'9' then further else none

abbrev negated : ℕ → Option ℤ
negated zero = none
negated (suc n) = some (negsuc n)

read_negative : Option ℕ → Option ℤ
read_negative none = none
read_negative (some n) = negated n

read_positive : Option ℕ → Option ℤ
read_positive none = none
read_positive (some n) = some (pos n)

-- The integer of a decimal text.
unfoldable pub read_int : Text → Option ℤ
unfolding read_digits read_negative read_positive
read_int [] = none
read_int (c ∷ rest) =
    if leb c b'-' && leb b'-' c
    then read_negative (read_digits 0 rest)
    else read_positive (read_digits 0 (c ∷ rest))

read-print_digits :
    (fuel n : ℕ) (after : Text)
    → n < fuel
    → read_digits 0 (print_digits fuel n after) ≡ read_digits n after
unfolding print_digits read_digits
read-print_digits zero n after h = absurd (omega arith)
read-print_digits (suc fuel) n after h =
    ground (arith, read-print_digits fuel (n / 10) ((b'0' + n % 10) ∷ after))

read-print_ℕ : (n : ℕ) → read_digits 0 (print_ℕ n) ≡ some n
unfolding print_ℕ read_digits
read-print_ℕ n = read-print_digits (suc n) n [] (omega arith)

-- The first byte is a digit.
abbrev Leads : Text → Type 0
Leads [] = ⊥
Leads (c ∷ rest) = leb c b'-' ≡ false

print_digits-Leads : (fuel n : ℕ) (after : Text) → Leads after → Leads (print_digits fuel n after)
unfolding print_digits
print_digits-Leads zero n after h = h
print_digits-Leads (suc fuel) n after h = elim (Bool-cases (leb n 9)) [
  | inl e ↦ rw (e, print_digits) (ground arith)
  | inr e ↦ rw (e, print_digits) (print_digits-Leads fuel (n / 10) _ (ground arith))
]

print_ℕ-Leads : (n : ℕ) → Leads (print_ℕ n)
unfolding print_ℕ print_digits
print_ℕ-Leads n = elim (Bool-cases (leb n 9)) [
  | inl e ↦ rw (e, print_digits) (ground arith)
  | inr e ↦ rw (e, print_digits) (print_digits-Leads n (n / 10) _ (ground arith))
]

read_int-Leads : (s : Text) → Leads s → read_int s ≡ read_positive (read_digits 0 s)
unfolding read_int
read_int-Leads [] h = absurd h
read_int-Leads (c ∷ rest) h = ground arith

-- An integer is read back from its decimal text.
pub read_int-print_int : (v : ℤ) → read_int (print_int v) ≡ some v
unfolding print_int read_int read_positive read_negative
read_int-print_int (pos n) = rw (read_int-Leads (print_ℕ n) (print_ℕ-Leads n), read-print_ℕ n) refl
read_int-print_int (negsuc n) = rw (read-print_ℕ (suc n)) refl
