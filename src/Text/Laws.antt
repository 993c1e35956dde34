-- ===== src/Text/Laws.antt =====
-- Laws of the text tests.
use Prim.Native.Nat.{ℕ}
use token_control.Common.{◌≡◌, ◌≢◌, ◌↔◌, refl, true, false, not, [], ◌∷◌, arith}
use token_control.Text.{Text, ◌==◌, before, to_lower, lower_byte}

==→eq : (s t : Text) → (s == t) ≡ true → s ≡ t
unfolding ◌==◌
==→eq [] [] h = refl
==→eq [] (d ∷ t) h = absurd (ground arith)
==→eq (c ∷ s) [] h = absurd (ground arith)
==→eq (c ∷ s) (d ∷ t) h = ground (arith, ==→eq s t)

pub ==_refl : (s : Text) → (s == s) ≡ true
unfolding ◌==◌
==_refl [] = refl
==_refl (c ∷ s) = ground (arith, ==_refl s)

pub eq_iff : (s t : Text) → ((s == t) ≡ true) ↔ (s ≡ t)
eq_iff s t = (==→eq s t, λ e. rw e (==_refl t))

pub before_trans : (s t u : Text) → before s t ≡ true → before t u ≡ true → before s u ≡ true
unfolding before
before_trans [] [] u h k = absurd (ground arith)
before_trans [] (d ∷ t) [] h k = absurd (ground arith)
before_trans [] (d ∷ t) (e ∷ u) h k = refl
before_trans (c ∷ s) [] u h k = absurd (ground arith)
before_trans (c ∷ s) (d ∷ t) [] h k = absurd (ground arith)
before_trans (c ∷ s) (d ∷ t) (e ∷ u) h k = ground (arith, before_trans s t u)

before_irrefl : (s : Text) → before s s ≡ false
unfolding before
before_irrefl [] = refl
before_irrefl (c ∷ s) = ground (arith, before_irrefl s)

-- Of two different texts exactly one comes first.
pub before_apart : (s t : Text) → s ≢ t → before s t ≡ not (before t s)
unfolding before
before_apart [] [] n = absurd (n refl)
before_apart [] (d ∷ t) n = refl
before_apart (c ∷ s) [] n = refl
before_apart (c ∷ s) (d ∷ t) n = ground (arith, before_apart s t)

lower_byte_idem : (c : ℕ) → lower_byte (lower_byte c) ≡ lower_byte c
lower_byte_idem c = ground arith

to_lower_idem : (s : Text) → to_lower (to_lower s) ≡ to_lower s
unfolding to_lower
to_lower_idem [] = refl
to_lower_idem (c ∷ s) = cc (lower_byte_idem c, to_lower_idem s)

abbrev pub OtherText : Text → Text → Type 0
OtherText s t = (s == t) ≡ false

pub before_asymm : (s t : Text) → before s t ≡ true → before t s ≡ false
unfolding before
before_asymm [] [] h = absurd (ground arith)
before_asymm [] (d ∷ t) h = refl
before_asymm (c ∷ s) [] h = absurd (ground arith)
before_asymm (c ∷ s) (d ∷ t) h = ground (arith, before_asymm s t)

before_nil : (s : Text) → before s [] ≡ false
unfolding before
before_nil [] = refl
before_nil (c ∷ s) = refl

pub before_negtrans : (s t u : Text) → before s t ≡ false → before t u ≡ false → before s u ≡ false
unfolding before
before_negtrans s t [] h k = before_nil s
before_negtrans [] [] (e ∷ u) h k = k
before_negtrans [] (d ∷ t) (e ∷ u) h k = absurd (ground arith)
before_negtrans (c ∷ s) [] (e ∷ u) h k = absurd (ground arith)
before_negtrans (c ∷ s) (d ∷ t) (e ∷ u) h k = ground (arith, before_negtrans s t u)
