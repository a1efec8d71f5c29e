-- ===== src/Outbound/Storing.antt =====
-- Reasoning about what the handlers do with Redis: the cached request, the counter of the monitor
-- and the lock.
use pivotal.Base.{
  ◌≡◌, refl, sym, ap, subst, ◌∙◌, false, Option, none, some, ◌++◌, if◌then◌else◌, Result, ok, err,
  Option, count,
}
use pivotal.Text.{Text}
use pivotal.Responses.Subjects.{text_eq, text_eq_refl}
use pivotal.Outbound.Errors.{Thrown, fspiop_exception, to_fspiop_exception}
use pivotal.Outbound.Parties.{TransferRequest}
use pivotal.Outbound.Redis.{Redis, IsRedis, Value, cached, token, counter, lock_key}
use pivotal.Outbound.Effects.{Phase, Replies, World, Action, ◌>>=◌, ◌>>◌, lift, ensuring, command}
use pivotal.Outbound.Steps.{
  get_transfer_request, set_transfer, delete_transfer, transfer_of, key_prefix, report,
}
use pivotal.Outbound.Views.{View, view, view_of, absent, stage_of, asks_quote, asks_transfer}
use pivotal.Outbound.Triples.{Post, Triple, after, made, ensured, returned}

-- A transfer's id is no key of a lock or a counter.
pub record IsPlain (id : Text) : Type 0 where
  pub no_lock : (key : Text) → text_eq (lock_key key) id ≡ false
  pub no_counter : (rest : Text) → text_eq (key_prefix ++ rest) id ≡ false

module _ {R : Redis} {id : Text} where
  pub same_view :
      (w : World R) (s : R.Store)
      → R.get id s ≡ R.get id w.store
      → view_of id (record w { store = s }) ≡ view_of id w
  same_view w s h =
      ap (λ x. view (stage_of x) (count (asks_quote id) w.calls) (count (asks_transfer id) w.calls))
        h

  pub staged :
      (w : World R) (s : R.Store) (x : Option Value)
      → R.get id s ≡ x
      → view_of id (record w { store = s }) ≡ record (view_of id w) { stage = stage_of x }
  staged w s x h =
      ap (λ x. view (stage_of x) (count (asks_quote id) w.calls) (count (asks_transfer id) w.calls))
        h

  module _ {P E : View → Type 0} where
    got-Post :
        (reading : Option Thrown) (w : World R) (x : Option Value)
        → R.get id w.store ≡ x
        → ((v : View) → P v → E v)
        → P (view_of id w)
        → Post id
            (λ t v. P v × (stage_of (some (cached t)) ≡ v.stage))
            E
            (w, elim reading [ none ↦ transfer_of x id | some e ↦ err e ])
    got-Post (some e) w x h fails p = fails (view_of id w) p
    got-Post none w none h fails p = fails (view_of id w) p
    got-Post none w (some (cached t)) h fails p = (p, sym (ap stage_of h))
    got-Post none w (some (token t)) h fails p = fails (view_of id w) p
    got-Post none w (some (counter n)) h fails p = fails (view_of id w) p

    -- The cached request is read: its quotes tell the stage.
    pub got :
        {B : Type 0} {S : B → View → Type 0} (reading : Option Thrown)
        {next : TransferRequest → Action R B}
        → ((v : View) → P v → E v)
        → ((t : TransferRequest)
            → Triple id (λ v. P v × (stage_of (some (cached t)) ≡ v.stage)) (next t) S E)
        → Triple id P (get_transfer_request reading id >>= next) S E
    unfolding get_transfer_request
    got reading fails rest =
        after (λ t v. P v × (stage_of (some (cached t)) ≡ v.stage))
          (record { run = λ w p. got-Post reading w (R.get id w.store) refl fails p }) rest

module _ {R : Redis} (id : Text) (P E : View → Type 0) where
  command-Post :
      (Q : View → Type 0) (answer : Option Thrown) (f : R.Store → R.Store) (x : Option Value)
      → ((s : R.Store) → R.get id (f s) ≡ x)
      → ((v : View) → P v → Q (record v { stage = stage_of x }))
      → ((v : View) → P v → E v)
      → (w : World R) → P (view_of id w)
      → Post id (λ u v. Q v) E (command answer f w)
  unfolding command
  command-Post Q none f x h moves fails w p =
      subst Q (sym (staged w (f w.store) x (h w.store))) (moves (view_of id w) p)
  command-Post Q (some e) f x h moves fails w p = fails (view_of id w) p

  pub done-Post :
      {A : Type 0} (Q : A → View → Type 0) (w : World R) (s : R.Store) (r : Result Thrown A)
      → R.get id s ≡ R.get id w.store
      → ((v : View) → P v → E v)
      → ((a : A) (v : View) → P v → Q a v)
      → P (view_of id w)
      → Post id Q E (record w { store = s }, r)
  done-Post Q w s (ok a) h fails holds p =
      subst (Q a) (sym (same_view w s h)) (holds a (view_of id w) p)
  done-Post Q w s (err e) h fails holds p = subst E (sym (same_view w s h)) (fails (view_of id w) p)

module _ {R : Redis} (law : IsRedis R) (id : Text) where
  open law use {get-put, get-del, put_new-free, put_new-taken, get-incr}

  get-put_same : (x : Value) (s : R.Store) → R.get id (R.put id x s) ≡ some x
  get-put_same x s =
      get-put id id x s ∙ ap (λ b. if b then some x else R.get id s) (text_eq_refl id)

  pub get-del_same : (s : R.Store) → R.get id (R.del id s) ≡ none
  get-del_same s = get-del id id s ∙ ap (λ b. if b then none else R.get id s) (text_eq_refl id)

  pub get-put_other :
      (k : Text) (x : Value) (s : R.Store)
      → text_eq k id ≡ false
      → R.get id (R.put k x s) ≡ R.get id s
  get-put_other k x s h = get-put id k x s ∙ ap (λ b. if b then some x else R.get id s) h

  pub get-del_other :
      (k : Text) (s : R.Store) → text_eq k id ≡ false → R.get id (R.del k s) ≡ R.get id s
  get-del_other k s h = get-del id k s ∙ ap (λ b. if b then none else R.get id s) h

  module _ {P E : View → Type 0} where
    pub kept :
        (Q : View → Type 0) (answer : Option Thrown) (t : TransferRequest)
        → ((v : View) → P v → Q (record v { stage = stage_of (some (cached t)) }))
        → ((v : View) → P v → E v)
        → Triple {R = R} id P (set_transfer answer id t) (λ u v. Q v) E
    unfolding set_transfer
    kept Q answer t moves fails = record {
      run =
          command-Post id P E Q answer (R.put id (cached t)) (some (cached t))
            (get-put_same (cached t)) moves fails;
    }

    pub stored :
        {B : Type 0} {S : B → View → Type 0} (Q : View → Type 0) (answer : Option Thrown)
        (t : TransferRequest) {next : Action R B}
        → ((v : View) → P v → Q (record v { stage = stage_of (some (cached t)) }))
        → ((v : View) → P v → E v)
        → Triple id Q next S E
        → Triple id P (set_transfer answer id t >> next) S E
    stored Q answer t moves fails rest =
        after (λ u v. Q v) (kept Q answer t moves fails) (λ u. rest)

    pub deleted :
        {Q : View → Type 0} (answer : Option Thrown)
        → ((v : View) → P v → Q (record v { stage = absent }))
        → ((v : View) → P v → E v)
        → Triple id P (delete_transfer {R = R} answer id) (λ u v. Q v) E
    unfolding delete_transfer
    deleted {Q} answer moves fails = record {
      run = command-Post id P E Q answer (R.del id) none get-del_same moves fails;
    }

  wiped-Post :
      (P Q E : View → Type 0) (answer : Option Thrown)
      → answer ≡ none
      → ((v : View) → P v → Q (record v { stage = absent }))
      → (w : World R) → P (view_of id w)
      → Post id {A = Unit {0}} (λ u v. Q v) E (delete_transfer {R = R} answer id w)
  unfolding delete_transfer command
  wiped-Post P Q E none h moves w p =
      subst Q (sym (staged w (R.del id w.store) none (get-del_same w.store)))
        (moves (view_of id w) p)
  wiped-Post P Q E (some e) h moves w p = absurd (cc)

  -- A failure is reported: where the deletion succeeds, nothing is cached any more.
  pub reported :
      {A C : Type 0} {Q : A → View → Type 0} {F E : View → Type 0} (replies : Replies C)
      (phase : Phase) (source destination : Text) (thrown : Thrown)
      → replies.deleting ≡ none
      → ((v : View) → F v → E (record v { stage = absent }))
      → Triple {R = R} id F (report replies phase id source destination thrown) Q E
  unfolding report
  reported {F} {E} replies phase source destination thrown h moves =
      after (λ u. E)
        (ensured (λ u. F) F (made F _ replies.error_audit (λ w p. p) (λ v p. p)) (λ u. wipe) wipe)
        (λ u. returned _ (λ v p. p) (λ a v e p. absurd (cc)))
    where
      wipe :
          Triple {R = R} id F
            (ensuring
              (delete_transfer replies.deleting id)
              (lift (err (fspiop_exception (to_fspiop_exception thrown)))))
            (λ u. E)
            E
      wipe =
          ensured (λ u. E) E (record { run = wiped-Post F E E replies.deleting h moves })
            (λ u. returned _ (λ v p. p) (λ a v e p. absurd (cc)))
            (returned _ (λ v p. p) (λ a v e p. absurd (cc)))
