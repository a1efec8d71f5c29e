-- ===== src/Text/Trim.antt =====
-- `trim` leaves a text alone that holds no white space.
use pivotal.Base.{◌≡◌, refl, ap, true, false, [], ◌∷◌, arith, ℕ, All}
use pivotal.Text.{Text, is_digit, is_space, trim_start, trim_end, trim}
use pivotal.Text.Digits.{Digits}

abbrev pub Printable : Text → Type 0
Printable = All (λ c. is_space c ≡ false)

trim_end_of_Printable : (s : Text) → Printable s → trim_end s ≡ s
unfolding trim_end
trim_end_of_Printable [] h = refl
trim_end_of_Printable (c ∷ s) (p, h) = rw (p, trim_end) (ap (◌∷◌ c) (trim_end_of_Printable s h))

pub trim_of_Printable : (s : Text) → Printable s → trim s ≡ s
unfolding trim trim_start
trim_of_Printable [] h = refl
trim_of_Printable (c ∷ s) (p, h) = rw (p, trim_start) (trim_end_of_Printable (c ∷ s) (p, h))

digit-not_space : (c : ℕ) → is_digit c ≡ true → is_space c ≡ false
digit-not_space c h = ground arith

pub Digits-Printable : (s : Text) → Digits s → Printable s
Digits-Printable [] h = tt
Digits-Printable (c ∷ s) (p, h) = (digit-not_space c p, Digits-Printable s h)
