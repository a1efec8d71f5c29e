-- ===== src/Outbound/Memory.antt =====
-- A Redis in memory, which shows that what is assumed of Redis can hold.
use pivotal.Base.{
  suc, ◌≡◌, refl, ap, ◌∙◌, Bool, true, false, Option, none, some, [], ◌∷◌, inl, inr, if◌then◌else◌,
  Bool-cases, subst, sym, ℕ,
}
use pivotal.Text.{Text}
use pivotal.Responses.Subjects.{text_eq, text_eq_refl, eq_of_text_eq}
use pivotal.Responses.Maps.{Map, get, delete}
use pivotal.Outbound.Redis.{Redis, IsRedis, Value, counter, cached, token, Counts}

abbrev put : Text → Value → Map Value → Map Value
put key v m = (key, v) ∷ delete key m

abbrev put_new_in : Option Value → Text → Value → Map Value → Map Value × Bool
put_new_in none key v m = (put key v m, true)
put_new_in (some w) key v m = (m, false)

abbrev count_in : Option Value → ℕ
count_in none = 0
count_in (some (counter n)) = n
count_in (some (cached t)) = 0
count_in (some (token t)) = 0

count_in-Counts : (o : Option Value) (n : ℕ) → Counts o n → count_in o ≡ n
count_in-Counts o n (inl (gone, zero_it)) = ap count_in gone ∙ sym zero_it
count_in-Counts o n (inr there) = ap count_in there

abbrev pub memory : Redis
memory = record {
  Store = Map Value;
  get = get;
  put = put;
  del = delete;
  put_new = λ key v m. put_new_in (get key m) key v m;
  incr = λ key m. (put key (counter (suc (count_in (get key m)))) m, suc (count_in (get key m)));
}

apart_from : (i j k : Text) → text_eq i j ≡ true → text_eq i k ≡ false → text_eq k j ≡ false
apart_from i j k here other = elim (Bool-cases (text_eq k j)) [
  | inr apart ↦ apart
  | inl same ↦
      let same_k : k ≡ j = eq_of_text_eq k j same in
      let miss : text_eq i j ≡ false = subst (λ x. text_eq i x ≡ false) same_k other in
      cc (here, miss)
]

get-delete :
    (j k : Text) (m : Map Value) → get j (delete k m) ≡ (if text_eq k j then none else get j m)
get-delete j k [] = elim (Bool-cases (text_eq k j)) [
  | inl same ↦ rw same refl
  | inr apart ↦ rw apart refl
]
get-delete j k ((i, v) ∷ m) = elim (Bool-cases (text_eq i k)) [
  | inl gone ↦ elim (Bool-cases (text_eq k j)) [
    | inl same ↦ rw (gone, same) (get-delete j k m ∙ ap (λ b. if b then none else get j m) same)
    | inr apart ↦
        let skip : text_eq i j ≡ false = ap (λ x. text_eq x j) (eq_of_text_eq i k gone) ∙ apart in
        rw (gone, apart, skip) (get-delete j k m ∙ ap (λ b. if b then none else get j m) apart)
  ]
  | inr stays ↦ elim (Bool-cases (text_eq i j)) [
    | inl here ↦
        let apart : text_eq k j ≡ false = apart_from i j k here stays in
        rw (stays, here, apart) refl
    | inr miss ↦ rw (stays, miss) (get-delete j k m)
  ]
]

get-put :
    (j k : Text) (v : Value) (m : Map Value)
    → get j (put k v m) ≡ (if text_eq k j then some v else get j m)
get-put j k v m = elim (Bool-cases (text_eq k j)) [
  | inl same ↦ rw same refl
  | inr apart ↦ rw apart (get-delete j k m ∙ ap (λ b. if b then none else get j m) apart)
]

pub memory-IsRedis : IsRedis memory
memory-IsRedis = record {
  get-put = get-put;
  get-del = get-delete;
  put_new-free = λ k v s h. ap (λ x. put_new_in x k v s) h;
  put_new-taken = λ k v w s h. ap (λ x. put_new_in x k v s) h;
  get-incr = λ j k s h.
      get-put j k _ s
      ∙ ap (λ b. if b then some (counter (suc (count_in (get k s)))) else get j s) h;
  incr-count = λ k n s h. (
    ap suc (count_in-Counts (get k s) n h),
    get-put k k _ s
        ∙ ap (λ b. if b then some (counter (suc (count_in (get k s)))) else get k s)
            (text_eq_refl k)
        ∙ ap (λ m. some (counter (suc m))) (count_in-Counts (get k s) n h),
  );
}
