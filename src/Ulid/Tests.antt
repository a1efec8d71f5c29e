-- ===== src/Ulid/Tests.antt =====
-- Ids, run.
use pivotal.Base.{ℕ, ◌^◌, ◌≡◌, refl, List, [], ◌∷◌, length, ok, err, ltb, ◌==◌, ◌&&◌, ◌||◌, arith}
use pivotal.Text.{Text, codes}
use pivotal.Responses.Subjects.{text_eq}
use pivotal.Ulid.{to_base32, random_value, value_of_bytes, generate, timestamp_overflow}
use pivotal.Ulid.Texts.{precedes}
use pivotal.Ulid.Order.{generate_order}

abbrev first_bytes : List ℕ
first_bytes = 0 ∷ 1 ∷ 2 ∷ 3 ∷ 4 ∷ 5 ∷ 6 ∷ 7 ∷ 8 ∷ 9 ∷ []

abbrev other_bytes : List ℕ
other_bytes = 255 ∷ 1 ∷ 2 ∷ 3 ∷ 4 ∷ 5 ∷ 6 ∷ 7 ∷ 8 ∷ 255 ∷ []

abbrev a_time : ℕ
a_time = 1732550000123

generate_test : generate a_time first_bytes ≡ ok (codes "01JDJ0DZFV000G40R40M30E209")
unfolding generate to_base32 random_value value_of_bytes
generate_test = refl

overflow_test : generate (2 ^ 48) first_bytes ≡ err timestamp_overflow
unfolding generate to_base32 random_value value_of_bytes
overflow_test = refl

generate_order_example :
    (id1 : Text) × (id2 : Text) × (generate a_time first_bytes ≡ ok id1)
    × (generate a_time other_bytes ≡ ok id2)
    × (length id1 ≡ 26)
    × (precedes id1 id2 ≡ (
        ltb a_time a_time
        || ((a_time == a_time) && ltb (random_value first_bytes) (random_value other_bytes))))
    × (text_eq id1 id2
        ≡ ((a_time == a_time) && (random_value first_bytes == random_value other_bytes)))
generate_order_example =
    generate_order a_time a_time first_bytes other_bytes (omega arith) (omega arith) (ground arith)
      (ground arith) refl refl
