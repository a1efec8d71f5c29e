-- ===== src/Snowflake/Tests.antt =====
-- A generator on a clock that stands still, goes on and goes back.
use pivotal.Base.{◌≡◌, ◌/◌, ◌%◌, refl, List, [], ◌∷◌, arith, ◌≢◌, ℤ, pos, negsuc}
use pivotal.Snowflake.{Generator, new_generator, id_of, next_id, waits}
use pivotal.Snowflake.Order.{IsSound, IsAscending, ids, ids-IsAscending, as_uint_64, next_id-node}
use pivotal.Snowflake.Waiting.{next_id-returns}

abbrev readings : List (List ℤ)
readings =
    (pos 10 ∷ []) ∷ (pos 10 ∷ []) ∷ (pos 12 ∷ []) ∷ (pos 11 ∷ negsuc 4 ∷ pos 12 ∷ pos 13 ∷ []) ∷ []

abbrev generator : Generator
generator = new_generator 5

sound : IsSound generator
sound = (omega arith, omega arith, omega arith)

ids_test :
    ids readings generator
    ≡ id_of (pos 10) 5 0 ∷ id_of (pos 10) 5 1 ∷ id_of (pos 12) 5 0 ∷ id_of (pos 13) 5 0 ∷ []
unfolding ids next_id
ids_test = refl

ids-IsAscending_example : IsAscending (ids readings generator)
ids-IsAscending_example =
    ids-IsAscending readings generator sound
      ((refl, tt), ((refl, tt), ((refl, tt), ((refl, (refl, (refl, (refl, tt)))), tt))))

-- A time beyond the 42 bits: the call throws, but has set the sequence to 0. When the clock is back
-- at the time of the last id, the numbers of that time are given again.
repeated_id_test :
    ids ((pos 10 ∷ []) ∷ (pos 10 ∷ []) ∷ (pos 4398046511104 ∷ []) ∷ (pos 10 ∷ []) ∷ []) generator
    ≡ id_of (pos 10) 5 0 ∷ id_of (pos 10) 5 1 ∷ id_of (pos 10) 5 1 ∷ []
unfolding ids next_id
repeated_id_test = refl

-- Before the first time the first call waits; at -1 itself it gives a negative id.
early_test : next_id (negsuc 1 ∷ negsuc 0 ∷ []) generator ≡ waits
unfolding next_id
early_test = refl

negative_test : ids ((negsuc 0 ∷ []) ∷ []) generator ≡ negsuc 4173822 ∷ []
unfolding ids next_id
negative_test = refl

next_id-node_example : as_uint_64 (id_of (pos 10) 5 0) / 4096 % 1024 ≡ 5
unfolding next_id
next_id-node_example =
    next_id-node (pos 10 ∷ []) generator (id_of (pos 10) 5 0)
      (record { node_id = 5; last_timestamp = pos 10; sequence = 0 }) sound refl

-- The clock went back by one before it moved on.
next_id-returns_example :
    next_id
      (pos 4 ∷ pos 5 ∷ pos 6 ∷ [])
      (record { node_id = 1; last_timestamp = pos 5; sequence = 0 })
    ≢ waits
next_id-returns_example =
    next_id-returns (pos 4 ∷ pos 5 ∷ pos 6 ∷ [])
      (record { node_id = 1; last_timestamp = pos 5; sequence = 0 }) refl
