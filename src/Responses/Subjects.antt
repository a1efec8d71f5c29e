-- ===== src/Responses/Subjects.antt =====
-- packages/shared/fspiop/component/fspiop-pub-sub-subjects.ts: the subjects of callbacks.
use pivotal.Base.{
  ℕ, ◌≡◌, refl, Bool, true, false, ◌&&◌, Option, none, some, List, [], ◌∷◌, ◌++◌, ◌==◌, ==_iff, ltb,
  if◌then◌else◌, length, drop, inl, inr, Bool-cases, arith,
}
use pivotal.Text.{Text, codes}

abbrev pub text_eq : Text → Text → Bool
text_eq [] [] = true
text_eq [] (c ∷ t) = false
text_eq (c ∷ s) [] = false
text_eq (c ∷ s) (d ∷ t) = c == d && text_eq s t

pub eq_of_text_eq : (s t : Text) → text_eq s t ≡ true → s ≡ t
eq_of_text_eq [] [] h = refl
eq_of_text_eq [] (c ∷ t) h = cc h
eq_of_text_eq (c ∷ s) [] h = cc h
eq_of_text_eq (c ∷ s) (d ∷ t) h = elim (Bool-cases (c == d)) [
  | inl same ↦
      let rest = eq_of_text_eq s t (rw same at h) in
      let first : c ≡ d = (==_iff c d).0 same in rw (first, rest) refl
  | inr other ↦ cc (rw other at h)
]

pub text_eq_refl : (s : Text) → text_eq s s ≡ true
text_eq_refl [] = refl
text_eq_refl (c ∷ s) = ground (arith, text_eq_refl s)

-- `startsWith`
abbrev pub starts_with : Text → Text → Bool
starts_with prefix [] = text_eq prefix []
starts_with [] (c ∷ s) = true
starts_with (p ∷ prefix) (c ∷ s) = p == c && starts_with prefix s

-- `split(':')`: a text without the separator is one token.
abbrev pub add_to_first : ℕ → List Text → List Text
add_to_first c [] = (c ∷ []) ∷ []
add_to_first c (token ∷ tokens) = (c ∷ token) ∷ tokens

abbrev pub split : ℕ → Text → List Text
split separator [] = [] ∷ []
split separator (c ∷ s) =
    let rest = split separator s in if c == separator then [] ∷ rest else add_to_first c rest

-- `join(':')`
abbrev pub join : ℕ → List Text → Text
join separator [] = []
join separator (token ∷ []) = token
join separator (token ∷ next ∷ tokens) = token ++ separator ∷ join separator (next ∷ tokens)

abbrev pub success_prefix : Text
success_prefix = codes "pivotal.fspiop.response.parties:"

abbrev pub error_prefix : Text
error_prefix = codes "pivotal.fspiop.response.parties-error:"

abbrev pub any_payee : Text
any_payee = codes "_any_"

-- `tokens[1] = ANY_PAYEE`, where there are tokens enough.
abbrev pub set_payee : List Text → List Text
set_payee [] = []
set_payee (payer ∷ []) = payer ∷ any_payee ∷ []
set_payee (payer ∷ payee ∷ rest) = payer ∷ any_payee ∷ rest

abbrev pub with_any_payee : Text → List Text → Option Text
with_any_payee prefix tokens =
    if ltb (length tokens) 4 then none else some (prefix ++ join b':' (set_payee tokens))

unfoldable pub to_any_payee_subject : Text → Option Text
to_any_payee_subject subject =
    if starts_with success_prefix subject
    then with_any_payee success_prefix (split b':' (drop (length success_prefix) subject))
    else if starts_with error_prefix subject
    then with_any_payee error_prefix (split b':' (drop (length error_prefix) subject))
    else none
