-- ===== src/Base/Lists.antt =====
-- Lists measured and cut by native numbers, under the library's names, and predicates over lists.
use Prim.Native.Nat.{ℕ, zero, suc, ◌+◌, ◌-◌, ◌≤◌}
use mathlib.Core.Path.{◌≡◌, refl, ap}
use mathlib.Core.Bool.{Bool, true, false, ◌&&◌, ◌||◌}
use mathlib.Core.Option.{Option, none, some}
use mathlib.Core.Logic.{inl, inr}
use pivotal.Base.Tests.{if◌then◌else◌, Bool-cases, eq_of_some}
use mathlib.Core.List.{List, [], ◌∷◌, ◌++◌}
use native.Mathlib.Omega.{arith}

module _ {ℓ} {A : Type ℓ} where
  abbrev pub length : List A → ℕ
  length [] = 0
  length (x ∷ xs) = suc (length xs)

  abbrev pub take : ℕ → List A → List A
  take zero xs = []
  take (suc n) [] = []
  take (suc n) (x ∷ xs) = x ∷ take n xs

  abbrev pub drop : ℕ → List A → List A
  drop zero xs = xs
  drop (suc n) [] = []
  drop (suc n) (x ∷ xs) = drop n xs

  abbrev pub replicate : ℕ → A → List A
  replicate zero a = []
  replicate (suc n) a = a ∷ replicate n a

  abbrev pub all : (A → Bool) → List A → Bool
  all p [] = true
  all p (x ∷ xs) = p x && all p xs

  abbrev pub All {κ} : (A → Type κ) → List A → Type κ
  All P [] = Unit
  All P (x ∷ xs) = P x × All P xs

  pub length-append : (xs ys : List A) → length (xs ++ ys) ≡ length xs + length ys
  length-append [] ys = omega arith
  length-append (x ∷ xs) ys = omega (arith, length-append xs ys)

  pub length-replicate : (n : ℕ) (a : A) → length (replicate n a) ≡ n
  length-replicate zero a = refl
  length-replicate (suc n) a = ap suc (length-replicate n a)

  pub length-drop : (n : ℕ) (xs : List A) → length (drop n xs) ≡ length xs - n
  length-drop zero xs = omega arith
  length-drop (suc n) [] = omega arith
  length-drop (suc n) (x ∷ xs) = omega (arith, length-drop n xs)

  pub length-take_le : (n : ℕ) (xs : List A) → n ≤ length xs → length (take n xs) ≡ n
  length-take_le zero xs h = refl
  length-take_le (suc n) [] h = absurd (omega arith)
  length-take_le (suc n) (x ∷ xs) h = ap suc (length-take_le n xs (omega arith))

  pub take-append-drop : (n : ℕ) (xs : List A) → take n xs ++ drop n xs ≡ xs
  take-append-drop zero xs = refl
  take-append-drop (suc n) [] = refl
  take-append-drop (suc n) (x ∷ xs) = ap (◌∷◌ x) (take-append-drop n xs)

  -- A cut at or past the end keeps everything.
  pub take_all : (n : ℕ) (xs : List A) → length xs ≤ n → take n xs ≡ xs
  take_all zero [] h = refl
  take_all zero (x ∷ xs) h = absurd (omega arith)
  take_all (suc n) [] h = refl
  take_all (suc n) (x ∷ xs) h = ap (◌∷◌ x) (take_all n xs (omega arith))

  pub drop_all : (n : ℕ) (xs : List A) → length xs ≤ n → drop n xs ≡ []
  drop_all zero [] h = refl
  drop_all zero (x ∷ xs) h = absurd (omega arith)
  drop_all (suc n) [] h = refl
  drop_all (suc n) (x ∷ xs) h = drop_all n xs (omega arith)

module _ {ℓ κ} {A : Type ℓ} (P : A → Type κ) where
  pub All-append : (xs ys : List A) → All P xs → All P ys → All P (xs ++ ys)
  All-append [] ys h k = k
  All-append (x ∷ xs) ys (p, h) k = (p, All-append xs ys h k)

  pub All-take : (n : ℕ) (xs : List A) → All P xs → All P (take n xs)
  All-take zero xs h = tt
  All-take (suc n) [] h = tt
  All-take (suc n) (x ∷ xs) (p, h) = (p, All-take n xs h)

  pub All-drop : (n : ℕ) (xs : List A) → All P xs → All P (drop n xs)
  All-drop zero xs h = h
  All-drop (suc n) [] h = tt
  All-drop (suc n) (x ∷ xs) (p, h) = All-drop n xs h

  pub All-replicate : (n : ℕ) (a : A) → P a → All P (replicate n a)
  All-replicate zero a p = tt
  All-replicate (suc n) a p = (p, All-replicate n a p)

module _ {ℓ} {A : Type ℓ} where
  abbrev pub any : (A → Bool) → List A → Bool
  any p [] = false
  any p (x ∷ xs) = p x || any p xs

  abbrev pub find : (A → Bool) → List A → Option A
  find p [] = none
  find p (x ∷ xs) = let rest = find p xs in if p x then some x else rest

  abbrev pub count : (A → Bool) → List A → ℕ
  count p [] = 0
  count p (x ∷ xs) = let rest = count p xs in if p x then suc rest else rest

  abbrev pub filter : (A → Bool) → List A → List A
  filter p [] = []
  filter p (x ∷ xs) = let rest = filter p xs in if p x then x ∷ rest else rest

  -- `UPDATE … WHERE p`: the rows that satisfy `p` are replaced.
  abbrev pub update_where : (A → Bool) → (A → A) → List A → List A
  update_where p f [] = []
  update_where p f (x ∷ xs) = (if p x then f x else x) ∷ update_where p f xs

-- Looking up and counting rows in a table after an update.
module _ {ℓ} {A : Type ℓ} (p q : A → Bool) (f : A → A) where
  pub find-update_other :
      ((x : A) → q x ≡ true → (p x ≡ false) × (p (f x) ≡ false))
      → (xs : List A) → find p (update_where q f xs) ≡ find p xs
  find-update_other h [] = refl
  find-update_other h (x ∷ xs) = ground (arith, h x, find-update_other h xs)

  pub find-update_same :
      ((x : A) → p (f x) ≡ p x)
      → (xs : List A) {t : A} → find p xs ≡ some t
      → q t ≡ true
      → find p (update_where q f xs) ≡ some (f t)
  find-update_same h [] e k = cc
  find-update_same h (x ∷ xs) {t} e k = elim (Bool-cases (p x)) [
    | inl here ↦ let it : x ≡ t = eq_of_some (rw here at e) in rw (it, k, h t, ← it, here)
    | inr later ↦
        let skip : p (if q x then f x else x) ≡ false = ground (arith, h x) in
        rw (skip, find-update_same h xs (rw later at e) k)
  ]

  pub count-update_le :
      ((x : A) → q x ≡ true → p x ≡ false → p (f x) ≡ false)
      → (xs : List A) → count p (update_where q f xs) ≤ count p xs
  count-update_le h [] = omega arith
  count-update_le h (x ∷ xs) = ground (arith, h x, count-update_le h xs)

module _ {ℓ} {A : Type ℓ} (p : A → Bool) where
  pub count-append : (xs ys : List A) → count p (xs ++ ys) ≡ count p xs + count p ys
  count-append [] ys = omega arith
  count-append (x ∷ xs) ys = ground (arith, count-append xs ys)

  -- All rows that are counted are updated to rows that are not.
  pub count-update_none :
      (q : A → Bool) (f : A → A)
      → ((x : A) → p x ≡ true → (q x ≡ true) × (p (f x) ≡ false))
      → ((x : A) → p x ≡ false → q x ≡ true → p (f x) ≡ false)
      → (xs : List A) → count p (update_where q f xs) ≡ 0
  count-update_none q f h k [] = refl
  count-update_none q f h k (x ∷ xs) = ground (arith, h x, k x, count-update_none q f h k xs)

  pub find-append : (xs ys : List A) {t : A} → find p xs ≡ some t → find p (xs ++ ys) ≡ some t
  find-append [] ys e = cc
  find-append (x ∷ xs) ys e = elim (Bool-cases (p x)) [
    | inl here ↦ rw here (rw here at e)
    | inr later ↦ rw (later, find-append xs ys (rw later at e))
  ]

  pub find-satisfies : (xs : List A) {t : A} → find p xs ≡ some t → p t ≡ true
  find-satisfies [] e = cc
  find-satisfies (x ∷ xs) e = elim (Bool-cases (p x)) [
    | inl here ↦ rw (← eq_of_some (rw here at e)) here
    | inr later ↦ find-satisfies xs (rw later at e)
  ]

  -- A row found that is counted and is updated to one that is not lowers the count.
  pub count-update_lt :
      (q r : A → Bool) (f : A → A)
      → ((x : A) → q x ≡ true → p (f x) ≡ false)
      → (xs : List A) {t : A} → find r xs ≡ some t
      → p t ≡ true
      → q t ≡ true
      → suc (count p (update_where q f xs)) ≤ count p xs
  count-update_lt q r f h [] e pt qt = cc
  count-update_lt q r f h (x ∷ xs) {t} e pt qt = elim (Bool-cases (r x)) [
    | inl here ↦
        let it : x ≡ t = eq_of_some (rw here at e) in
        let le = count-update_le p q f (λ y hit _. h y hit) xs in
        let off = h t qt in rw (it, pt, qt, off) (omega (arith, le))
    | inr later ↦ let rest = count-update_lt q r f h xs (rw later at e) pt qt in ground (arith, h x)
  ]
