-- ===== src/Outbound/Triples.antt =====
-- Reasoning about the handlers: from a view with one property, an action comes to views with others,
-- one where it returns and one where it throws.
use pivotal.Base.{◌≡◌, refl, Option, none, some, ◌∷◌, Result, ok, err, Option}
use pivotal.Text.{Text}
use pivotal.Outbound.Errors.{Thrown}
use pivotal.Outbound.Redis.{Redis}
use pivotal.Outbound.Effects.{
  OutboundCall, World, Action, go_on, ◌>>=◌, ◌>>◌, lift, handled, catching, closed, after_all,
  ensuring, reply, calling,
}
use pivotal.Outbound.Views.{View, view_of}

module _ {R : Redis} (id : Text) where
  abbrev pub Post :
      {A : Type 0} → (A → View → Type 0) → (View → Type 0) → World R × Result Thrown A → Type 0
  Post Q E (w, ok a) = Q a (view_of id w)
  Post Q E (w, err e) = E (view_of id w)

  pub record Triple {A : Type 0} (P : View → Type 0) (m : Action R A) (Q : A → View → Type 0)
      (E : View → Type 0) : Type 0 where
    pub run : (w : World R) → P (view_of id w) → Post Q E (m w)

module _ {R : Redis} (id : Text) (P E : View → Type 0) where
  lift-Post :
      {A : Type 0} (Q : A → View → Type 0) (r : Result Thrown A)
      → ((v : View) → P v → E v)
      → ((a : A) (v : View) → r ≡ ok a → P v → Q a v)
      → (w : World R) → P (view_of id w)
      → Post id Q E (w, r)
  lift-Post Q (ok a) fails holds w p = holds a (view_of id w) refl p
  lift-Post Q (err e) fails holds w p = fails (view_of id w) p

  call-Post :
      (Q : View → Type 0) (c : OutboundCall) (answer : Option Thrown)
      → ((w : World R) → P (view_of id w) → Q (view_of id (record w { calls = c ∷ w.calls })))
      → ((v : View) → Q v → E v)
      → (w : World R) → P (view_of id w)
      → Post id {A = Unit {0}} (λ u v. Q v) E (record w { calls = c ∷ w.calls }, reply answer)
  call-Post Q c none moves fails w p = moves w p
  call-Post Q c (some e) moves fails w p =
      fails (view_of id (record w { calls = c ∷ w.calls })) (moves w p)

module _ {R : Redis} {id : Text} where
  go_on-Post :
      {A B : Type 0} (Q : A → View → Type 0) (S : B → View → Type 0) (E : View → Type 0)
      (next : A → Action R B)
      → ((a : A) → Triple id (Q a) (next a) S E)
      → (r : World R × Result Thrown A) → Post id Q E r
      → Post id S E (go_on r next)
  go_on-Post Q S E next h (w, ok a) p = (h a).run w p
  go_on-Post Q S E next h (w, err e) p = p

  handled-Post :
      {A : Type 0} (Q : A → View → Type 0) (F E : View → Type 0) (handler : Thrown → Action R A)
      → ((e : Thrown) → Triple id F (handler e) Q E)
      → (r : World R × Result Thrown A) → Post id Q F r
      → Post id Q E (handled r handler)
  handled-Post Q F E handler h (w, ok a) p = p
  handled-Post Q F E handler h (w, err e) p = (h e).run w p

  closed-Post :
      {A : Type 0} (Q : A → View → Type 0) (E : View → Type 0)
      (r : World R × Result Thrown (Unit {0})) (result : Result Thrown A) (G : View → Type 0)
      → Post id (λ u. G) E r
      → ((w : World R) → G (view_of id w) → Post id Q E (w, result))
      → Post id Q E (closed r result)
  closed-Post Q E (w, ok u) result G p h = h w p
  closed-Post Q E (w, err e) result G p h = p

  after_all-Post :
      {A : Type 0} (Q S : A → View → Type 0) (F E : View → Type 0) (last : Action R (Unit {0}))
      → ((a : A) → Triple id (Q a) last (λ u. S a) E)
      → Triple id F last (λ u. E) E
      → (r : World R × Result Thrown A) → Post id Q F r
      → Post id S E (after_all r last)
  after_all-Post Q S F E last good bad (w, ok a) p =
      closed-Post S E (last w) (ok a) (S a) ((good a).run w p) (λ w q. q)
  after_all-Post Q S F E last good bad (w, err e) p =
      closed-Post S E (last w) (err e) E (bad.run w p) (λ w q. q)

  module _ {P E : View → Type 0} where
    -- `try … finally …`
    pub ensured :
        {A : Type 0} (Q : A → View → Type 0) (F : View → Type 0) {S : A → View → Type 0}
        {m : Action R A} {last : Action R (Unit {0})}
        → Triple id P m Q F
        → ((a : A) → Triple id (Q a) last (λ u. S a) E)
        → Triple id F last (λ u. E) E
        → Triple id P (ensuring m last) S E
    unfolding ensuring
    ensured Q F {S} {m} {last} body good bad = record {
      run = λ w p. after_all-Post Q S F E last good bad (m w) (body.run w p);
    }

    pub after :
        {A B : Type 0} (Q : A → View → Type 0) {S : B → View → Type 0} {m : Action R A}
        {next : A → Action R B}
        → Triple id P m Q E
        → ((a : A) → Triple id (Q a) (next a) S E)
        → Triple id P (m >>= next) S E
    unfolding ◌>>=◌
    after Q {S} {m} {next} first rest = record {
      run = λ w p. go_on-Post Q S E next rest (m w) (first.run w p);
    }

    pub catches :
        {A : Type 0} {Q : A → View → Type 0} (F : View → Type 0) {m : Action R A}
        {handler : Thrown → Action R A}
        → Triple id P m Q F
        → ((e : Thrown) → Triple id F (handler e) Q E)
        → Triple id P (catching m handler) Q E
    unfolding catching
    catches {Q} F {m} {handler} body rescue = record {
      run = λ w p. handled-Post Q F E handler rescue (m w) (body.run w p);
    }

    -- The last value or check of an action.
    pub returned :
        {A : Type 0} {Q : A → View → Type 0} (r : Result Thrown A)
        → ((v : View) → P v → E v)
        → ((a : A) (v : View) → r ≡ ok a → P v → Q a v)
        → Triple {R = R} id P (lift r) Q E
    unfolding lift
    returned {Q} r fails holds = record { run = lift-Post id P E Q r fails holds }

    -- A value computed or a check: on with the same view and with what the value is.
    pub lifted :
        {A B : Type 0} {S : B → View → Type 0} (r : Result Thrown A) {next : A → Action R B}
        → ((v : View) → P v → E v)
        → ((a : A) → r ≡ ok a → Triple id P (next a) S E)
        → Triple id P (lift r >>= next) S E
    lifted r fails rest =
        after (λ a v. P v × (r ≡ ok a)) (returned r fails λ a v e p. (p, e))
          (λ a. record { run = λ w p. (rest a p.1).run w p.0 })

    -- A call of another system, which counts whether or not it succeeds.
    pub made :
        (Q : View → Type 0) (c : OutboundCall) (answer : Option Thrown)
        → ((w : World R) → P (view_of id w) → Q (view_of id (record w { calls = c ∷ w.calls })))
        → ((v : View) → Q v → E v)
        → Triple {R = R} id P (calling c answer) (λ u v. Q v) E
    unfolding calling
    made Q c answer moves fails = record { run = call-Post id P E Q c answer moves fails }

    pub called :
        {B : Type 0} {S : B → View → Type 0} (Q : View → Type 0) (c : OutboundCall)
        (answer : Option Thrown) {next : Action R B}
        → ((w : World R) → P (view_of id w) → Q (view_of id (record w { calls = c ∷ w.calls })))
        → ((v : View) → Q v → E v)
        → Triple id Q next S E
        → Triple id P (calling c answer >> next) S E
    called Q c answer moves fails rest =
        after (λ u v. Q v) (made Q c answer moves fails) (λ u. rest)

module _ {R : Redis} (id : Text) {A : Type 0} (Q S : A → View → Type 0) (E F : View → Type 0) where
  map-Post :
      ((a : A) (v : View) → Q a v → S a v)
      → ((v : View) → E v → F v)
      → (r : World R × Result Thrown A) → Post id Q E r
      → Post id S F r
  map-Post good bad (w, ok a) p = good a (view_of id w) p
  map-Post good bad (w, err e) p = bad (view_of id w) p

module _ {R : Redis} {id : Text} {A : Type 0} {P E : View → Type 0} {Q : A → View → Type 0} where
  -- What holds of every view that an action may start from may be used to reason about the action.
  pub knowing :
      {X : Type 0} {m : Action R A}
      → ((v : View) → P v → X)
      → (X → Triple id P m Q E)
      → Triple id P m Q E
  knowing fact rest = record { run = λ w p. (rest (fact (view_of id w) p)).run w p }

  pub starting :
      {N : View → Type 0} {m : Action R A}
      → ((v : View) → N v → P v)
      → Triple id P m Q E
      → Triple id N m Q E
  starting before inner = record { run = λ w p. inner.run w (before (view_of id w) p) }

  pub ending :
      {S : A → View → Type 0} {F : View → Type 0} {m : Action R A}
      → ((a : A) (v : View) → Q a v → S a v)
      → ((v : View) → E v → F v)
      → Triple id P m Q E
      → Triple id P m S F
  ending {S} {F} {m} good bad inner = record {
    run = λ w p. map-Post id Q S E F good bad (m w) (inner.run w p);
  }

  pub impossible : {m : Action R A} → ((v : View) → P v → ⊥) → Triple id P m Q E
  impossible none_such = record { run = λ w p. absurd (none_such (view_of id w) p) }
