-- ===== src/Snowflake/Pods.antt =====
-- The numbers of the pods of a stateful set, which are in their names.
use pivotal.Base.{
  ℕ, ◌%◌, ◌^◌, ◌≡◌, ◌≤◌, ◌<◌, refl, ap, ◌∙◌, true, false, Option, none, some, List, [], ◌∷◌, ◌++◌,
  ltb, ◌==◌, length, All-append, ok, arith, pos,
}
use pivotal.Base.Bits.{bit_and_mask}
use pivotal.Text.{Text, is_digit, is_space, trim_start, value, to_string}
use pivotal.Text.Digits.{Digits, value-to_string, to_string-Digits, length-to_string_pos}
use pivotal.Text.Trim.{Printable, trim_of_Printable, Digits-Printable}
use pivotal.Snowflake.{max_node_id}
use pivotal.Snowflake.NodeId.{
  leading_digits, parse_int, after_last_dash, ordinal_of, configured_number, or_from_mac,
  resolve_node_id, Host,
}

leading_digits-Digits : (s : Text) → Digits s → leading_digits s ≡ s
leading_digits-Digits [] h = refl
leading_digits-Digits (c ∷ s) (p, h) = rw p (ap (◌∷◌ c) (leading_digits-Digits s h))

parse_int-Digits : (s : Text) → Digits s → 0 < length s → parse_int s ≡ some (pos (value s))
unfolding parse_int trim_start
parse_int-Digits [] h long = absurd (omega arith)
parse_int-Digits (c ∷ s) (p, h) long =
    let solid : is_space c ≡ false = ground arith in
    let no_minus : (c == b'-') ≡ false = ground arith in
    let no_plus : (c == b'+') ≡ false = ground arith in
    rw (solid, no_minus, no_plus, p, leading_digits-Digits s h) refl

parse_int-letter : (c : ℕ) (s : Text) → b'a' ≤ c → c ≤ b'z' → parse_int (c ∷ s) ≡ none
unfolding parse_int trim_start
parse_int-letter c s low high =
    let solid : is_space c ≡ false = ground arith in
    let no_minus : (c == b'-') ≡ false = ground arith in
    let no_plus : (c == b'+') ≡ false = ground arith in
    let no_digit : is_digit c ≡ false = ground arith in rw (solid, no_minus, no_plus, no_digit) refl

after_last_dash-Digits : (s : Text) → Digits s → after_last_dash s ≡ none
after_last_dash-Digits [] h = refl
after_last_dash-Digits (c ∷ s) (p, h) =
    let no_minus : (c == b'-') ≡ false = ground arith in
    rw (after_last_dash-Digits s h, no_minus) refl

after_last_dash-append :
    (s t : Text) → after_last_dash t ≡ none → after_last_dash (s ++ b'-' ∷ t) ≡ some t
after_last_dash-append [] t h = rw h refl
after_last_dash-append (c ∷ s) t h = rw (after_last_dash-append s t h) refl

ordinal_of-Digits :
    (s : Text) → Digits s → 0 < length s → ordinal_of (some s) ≡ some (pos (value s))
ordinal_of-Digits [] h long = absurd (omega arith)
ordinal_of-Digits (c ∷ s) h long = parse_int-Digits (c ∷ s) h long

configured_number-pod :
    (c : ℕ) (name s : Text)
    → b'a' ≤ c
    → c ≤ b'z'
    → Printable name
    → Digits s
    → 0 < length s
    → configured_number (some (c ∷ name ++ b'-' ∷ s)) ≡ some (pos (value s))
configured_number-pod c name s low high printable digits long =
    let solid : is_space c ≡ false = ground arith in
    let whole : Printable (c ∷ name ++ b'-' ∷ s) =
      (solid, All-append _ name _ printable (refl, Digits-Printable s digits)) in
    let filled : ltb 0 (length (c ∷ name ++ b'-' ∷ s)) ≡ true = ground arith in
    rw
      (
        trim_of_Printable (c ∷ name ++ b'-' ∷ s) whole,
        parse_int-letter c (name ++ b'-' ∷ s) low high,
        filled,
      )
      (ap ordinal_of (after_last_dash-append (c ∷ name) s (after_last_dash-Digits s digits))
        ∙ ordinal_of-Digits s digits long)

-- Pod k of a stateful set, for k below 1,024, has the node number k, where SNOWFLAKE_NODE_ID is the
-- name of the pod: a name that begins with a lower-case letter and holds no white space, a dash and
-- the digits of k. It is so whatever else the host has, as long as the runtime takes numbers up to
-- 2 ^ 53 as they are.
pub resolve_node_id-pod :
    (nearest : ℕ → ℕ)
    → ((n : ℕ) → n ≤ 2 ^ 53 → nearest n ≡ n)
    → (table : Option (List ℕ)) (host : Host) (random c : ℕ) (name : Text) (k : ℕ) → b'a' ≤ c
    → c ≤ b'z'
    → Printable name
    → k < 1024
    → host.snowflake_node_id ≡ some (c ∷ name ++ b'-' ∷ to_string k)
    → resolve_node_id nearest table host random ≡ ok k
unfolding resolve_node_id
resolve_node_id-pod nearest exact table host random c name k low high printable small set =
    let number : configured_number (some (c ∷ name ++ b'-' ∷ to_string k)) ≡ some (pos k) =
      configured_number-pod c name (to_string k) low high printable (to_string-Digits k)
        (length-to_string_pos k)
      ∙ ap (λ n. some (pos n)) (value-to_string k) in
    let kept : nearest k % 2 ^ 32 ≡ k = omega (arith, exact k (omega arith)) in
    ap (λ v. or_from_mac nearest table host random (configured_number v)) set
    ∙ ap (or_from_mac nearest table host random) number
    ∙ ap ok (rw kept (bit_and_mask 10 k max_node_id refl small))
