-- ===== src/Money/Tests.antt =====
-- The amount routines at concrete inputs.
use pivotal.Base.{◌+◌, ◌*◌, ◌≤◌, ◌≡◌, refl, arith, ok, err, pos, negsuc}
use pivotal.Text.{Text, codes, value, strip_zeros, to_string, trim}
use pivotal.Money.{
  whole, not_integer, unsigned, half_up, half_down, half_even, ceiling, unnecessary, bad_scale,
  amount_negative, amount_not_decimal, amount_above_uint64, rounding_necessary, render, serialize,
  deserialize, normalize_amount, match_decimal, scale_amount, should_round_up,
}
use pivotal.Money.Exact.{exact, unit, rounded, serialize-rounded}
use pivotal.Money.RoundTrip.{serialize-deserialize}
use pivotal.Money.Nearest.{serialize-nearest, serialize-half_even_odd, to_even}

serialize_tests :
    (serialize (codes " 12.50") (whole 2) half_up ≡ ok 1250)
    × (serialize (codes "12.345") (whole 2) half_up ≡ ok 1235)
    × (serialize (codes "12.345") (whole 2) half_even ≡ ok 1234)
    × (serialize (codes "12.345") (whole 2) half_down ≡ ok 1234)
    × (serialize (codes "12.341") (whole 2) ceiling ≡ ok 1235)
    × (serialize (codes "12.341") (whole 2) unnecessary ≡ err rounding_necessary)
    × (serialize (codes "-0.01") (whole 2) half_up ≡ err amount_negative)
    × (serialize (codes "18446744073709551616") (whole 0) half_up ≡ err amount_above_uint64)
    × (serialize (codes "1e3") (whole 2) half_up ≡ err amount_not_decimal)
    × (serialize (codes "1") not_integer half_up ≡ err bad_scale)
unfolding serialize scale_amount normalize_amount match_decimal trim strip_zeros value
    should_round_up
serialize_tests = (refl, refl, refl, refl, refl, refl, refl, refl, refl, refl)

deserialize_tests :
    (deserialize (pos 1250) (whole 2) ≡ ok (codes "12.5"))
    × (deserialize (pos 5) (whole 3) ≡ ok (codes "0.005"))
    × (deserialize (pos 700) (whole 0) ≡ ok (codes "700"))
    × (deserialize (negsuc 0) (whole 2) ≡ err amount_negative)
unfolding deserialize to_string normalize_amount match_decimal trim strip_zeros
deserialize_tests = (refl, refl, refl, refl)

serialize-deserialize_example :
    (text : Text) × (deserialize (pos 1250) (whole 2) ≡ ok text)
    × (serialize text (whole 2) half_up ≡ ok 1250)
serialize-deserialize_example = serialize-deserialize 1250 2 half_up (omega arith)

serialize-rounded_example :
    serialize (render unsigned (codes "12") (codes "345")) (whole 2) half_even
    ≡ rounded half_even unsigned
        (exact (codes "12") (strip_zeros (codes "345")) 2)
        (unit (strip_zeros (codes "345")) 2)
serialize-rounded_example =
    serialize-rounded unsigned b'1' (codes "2") (codes "345") 2 half_even (refl, (refl, tt))
      (refl, (refl, (refl, tt))) (λ h. omega arith)

serialize-nearest_example : (2 * (1234 * 10) ≤ 2 * 12345 + 10) × (2 * 12345 ≤ 2 * (1234 * 10) + 10)
unfolding strip_zeros value
serialize-nearest_example =
    serialize-nearest unsigned b'1' (codes "2") (codes "345") 2 1234 to_even refl (refl, (refl, tt))
      (refl, (refl, (refl, tt))) serialize_tests.2

serialize-half_even_odd_example : serialize (codes "13.5") (whole 0) half_even ≡ ok 13
unfolding value
serialize-half_even_odd_example =
    serialize-half_even_odd b'1' (codes "3") (refl, (refl, tt)) refl (omega arith)
