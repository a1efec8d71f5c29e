-- ===== src/Ulid/Texts.antt =====
-- How texts compare.
use pivotal.Base.{
  ◌≡◌, refl, Bool, true, false, ◌&&◌, ◌||◌, [], ◌∷◌, ◌++◌, ltb, ◌==◌, length, inl, inr, Bool-cases,
  arith,
}
use pivotal.Text.{Text}
use pivotal.Responses.Subjects.{text_eq}

-- Comparing texts by their units, as `<` does.
abbrev pub precedes : Text → Text → Bool
precedes [] [] = false
precedes [] (d ∷ t) = true
precedes (c ∷ s) [] = false
precedes (c ∷ s) (d ∷ t) = ltb c d || (c == d && precedes s t)

-- Of two texts joined from parts of the same lengths the first parts count first.
pub precedes-append :
    (s t u v : Text)
    → length s ≡ length t
    → precedes (s ++ u) (t ++ v) ≡ (precedes s t || (text_eq s t && precedes u v))
precedes-append [] [] u v h = refl
precedes-append [] (d ∷ t) u v h = absurd (omega arith)
precedes-append (c ∷ s) [] u v h = absurd (omega arith)
precedes-append (c ∷ s) (d ∷ t) u v h = elim (Bool-cases (ltb c d)) [
  | inl less ↦ rw less refl
  | inr more ↦ elim (Bool-cases (c == d)) [
    | inl same ↦ rw (more, same) (precedes-append s t u v (omega arith))
    | inr apart ↦ rw (more, apart) refl
  ]
]

pub text_eq-append :
    (s t u v : Text)
    → length s ≡ length t
    → text_eq (s ++ u) (t ++ v) ≡ (text_eq s t && text_eq u v)
text_eq-append [] [] u v h = refl
text_eq-append [] (d ∷ t) u v h = absurd (omega arith)
text_eq-append (c ∷ s) [] u v h = absurd (omega arith)
text_eq-append (c ∷ s) (d ∷ t) u v h = elim (Bool-cases (c == d)) [
  | inl same ↦ rw same (text_eq-append s t u v (omega arith))
  | inr apart ↦ rw apart refl
]
