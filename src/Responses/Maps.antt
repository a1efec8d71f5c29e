-- ===== src/Responses/Maps.antt =====
-- A Map of JavaScript with texts for keys: the entries in the order in which their keys came.
use pivotal.Base.{
  suc, ◌≡◌, ◌≤◌, refl, Bool, not, Option, none, some, List, [], ◌∷◌, if◌then◌else◌, filter, length,
  inl, inr, Bool-cases, arith,
}
use pivotal.Text.{Text}
use pivotal.Responses.Subjects.{text_eq, text_eq_refl, eq_of_text_eq}

abbrev pub Map {ℓ} : Type ℓ → Type ℓ
Map A = List (Text × A)

module _ {ℓ} {A : Type ℓ} where
  abbrev pub get : Text → Map A → Option A
  get key [] = none
  get key ((k, a) ∷ m) = let rest = get key m in if text_eq k key then some a else rest

  -- An entry that is there keeps its place.
  abbrev pub set : Text → A → Map A → Map A
  set key a [] = (key, a) ∷ []
  set key a ((k, b) ∷ m) =
      let rest = set key a m in if text_eq k key then (key, a) ∷ m else (k, b) ∷ rest

  abbrev pub delete : Text → Map A → Map A
  delete key = filter (λ kv. not (text_eq kv.0 key))

  abbrev pub keys : Map A → List Text
  keys [] = []
  keys ((k, a) ∷ m) = k ∷ keys m

  pub get-delete_same : (key : Text) (m : Map A) → get key (delete key m) ≡ none
  get-delete_same key [] = refl
  get-delete_same key ((k, a) ∷ m) = ground (arith, get-delete_same key m)

  pub get-delete-none :
      (key other : Text) (m : Map A) → get key m ≡ none → get key (delete other m) ≡ none
  get-delete-none key other [] h = refl
  get-delete-none key other ((k, a) ∷ m) h = ground (arith, get-delete-none key other m)

  pub get-set_same : (key : Text) (a : A) (m : Map A) → get key (set key a m) ≡ some a
  get-set_same key a [] = rw (text_eq_refl key) refl
  get-set_same key a ((k, b) ∷ m) = ground (arith, get-set_same key a m, text_eq_refl key)

  pub get-set_keeps :
      (key other : Text) (a : A) (m : Map A) → get key m ≡ some a → get key (set other a m) ≡ some a
  get-set_keeps key other a [] h = cc h
  get-set_keeps key other a ((k, b) ∷ m) h = elim (Bool-cases (text_eq k other)) [
    | inl same ↦
        let it : k ≡ other = eq_of_text_eq k other same in
        elim (Bool-cases (text_eq other key)) [
          | inl hit ↦ rw (same, hit) refl
          | inr miss ↦ rw (same, miss) (rw (it, miss) at h)
        ]
    | inr apart ↦ elim (Bool-cases (text_eq k key)) [
      | inl hit ↦ rw (apart, hit) (rw hit at h)
      | inr miss ↦ rw (apart, miss) (get-set_keeps key other a m (rw miss at h))
    ]
  ]

  pub length-set_le : (key : Text) (a : A) (m : Map A) → length (set key a m) ≤ suc (length m)
  length-set_le key a [] = omega arith
  length-set_le key a ((k, b) ∷ m) = ground (arith, length-set_le key a m)

  pub length-filter_le : (p : Text × A → Bool) (m : Map A) → length (filter p m) ≤ length m
  length-filter_le p [] = omega arith
  length-filter_le p (x ∷ m) = ground (arith, length-filter_le p m)
