-- ===== src/Outbound/Exclusion.antt =====
-- packages/core/outbound/domain/component/redis-client.ts: who holds the lock of a transfer, and what
-- a handler does where another one holds it.
use pivotal.Base.{
  ◌≡◌, refl, sym, ap, subst, ◌∙◌, true, false, Option, none, some, List, [], ◌∷◌, ◌++◌, All, inl,
  inr, if◌then◌else◌, Bool-cases, Option-cases, ok, err,
}
use pivotal.Text.{Text, codes}
use pivotal.Responses.Subjects.{text_eq, text_eq_refl, eq_of_text_eq}
use pivotal.Outbound.Codes.{generic_client_error}
use pivotal.Outbound.Errors.{Thrown, fspiop_error}
use pivotal.Outbound.Parties.{QuotesIdPutResponse, TransfersIdPutResponse}
use pivotal.Outbound.Redis.{
  Redis, IsRedis, Value, cached, token, counter, lock_key, acquire_lock, release_lock, delete_if,
  if_set,
}
use pivotal.Outbound.Effects.{Replies, World, Action, ◌>>=◌, lift, go_on, ensuring}
use pivotal.Outbound.Handlers.{AcceptPartyInput, AcceptQuoteInput, accept_party, accept_quote}
use pivotal.Outbound.Steps.{OutboundSettings, lock, with_lock, locked_world, token_or_busy, unlock}

-- Another handler tries to take a lock, or gives one up, with its own token.
pub data Attempt : Type 0 where
  takes gives_up : Text → Text → Attempt

abbrev pub token_of : Attempt → Text
token_of (takes key own) = own
token_of (gives_up key own) = own

module _ (R : Redis) where
  abbrev pub attempt : Attempt → R.Store → R.Store
  attempt (takes key own) s = (acquire_lock R key own s).0
  attempt (gives_up key own) s = release_lock R key own s

  abbrev pub attempts : List Attempt → R.Store → R.Store
  attempts [] s = s
  attempts (a ∷ more) s = attempts more (attempt a s)

abbrev pub busy_error : Text → Thrown
busy_error id =
    fspiop_error generic_client_error
      (codes "Transfer " ++ id ++ codes " is already being processed; ignoring duplicate request.")

none_or_some : {A : Type 0} {o : Option A} {a : A} → o ≡ none → o ≡ some a → ⊥
none_or_some h k = cc

module _ {R : Redis} (law : IsRedis R) where
  open law use {get-put, get-del, put_new-free, put_new-taken}

  acquire-other :
      (j key own : Text) (s : R.Store) {v : Value}
      → R.get j s ≡ some v
      → R.get j (acquire_lock R key own s).0 ≡ some v
  unfolding acquire_lock
  acquire-other j key own s {v} h = elim (Option-cases (R.get (lock_key key) s)) [
    | inl free ↦ elim (Bool-cases (text_eq (lock_key key) j)) [
      | inl same ↦
          let gone : R.get j s ≡ none =
            subst (λ k. R.get k s ≡ none) (eq_of_text_eq (lock_key key) j same) free in
          absurd (none_or_some gone h)
      | inr apart ↦
          ap (λ r. R.get j r.0) (put_new-free (lock_key key) (token own) s free)
          ∙ get-put j (lock_key key) (token own) s
          ∙ ap (λ b. if b then some (token own) else R.get j s) apart
          ∙ h
    ]
    | inr (w, taken) ↦
        ap (λ r. R.get j r.0) (put_new-taken (lock_key key) (token own) w s taken) ∙ h
  ]

  delete_if-apart :
      (j key own : Text) (s : R.Store) (x : Option Value)
      → text_eq key j ≡ false
      → R.get j (delete_if R key own x s) ≡ R.get j s
  delete_if-apart j key own s none h = refl
  delete_if-apart j key own s (some (cached t)) h = refl
  delete_if-apart j key own s (some (counter n)) h = refl
  delete_if-apart j key own s (some (token held)) h = elim (Bool-cases (text_eq held own)) [
    | inl mine ↦ rw mine (get-del j key s ∙ ap (λ b. if b then none else R.get j s) h)
    | inr other ↦ rw other refl
  ]

  release-other :
      (j key own : Text) (s : R.Store) {held : Text}
      → R.get j s ≡ some (token held)
      → text_eq held own ≡ false
      → R.get j (release_lock R key own s) ≡ some (token held)
  unfolding release_lock
  release-other j key own s {held} h apart = elim (Bool-cases (text_eq (lock_key key) j)) [
    | inl same ↦
        let mine : R.get (lock_key key) s ≡ some (token held) =
          subst (λ k. R.get k s ≡ some (token held)) (sym (eq_of_text_eq _ _ same)) h in
        ap (λ x. R.get j (delete_if R (lock_key key) own x s)) mine
        ∙ ap (λ b. R.get j (if b then R.del (lock_key key) s else s)) apart
        ∙ h
    | inr away ↦ delete_if-apart j (lock_key key) own s _ away ∙ h
  ]

  release-own :
      (key own : Text) (s : R.Store)
      → R.get (lock_key key) s ≡ some (token own)
      → R.get (lock_key key) (release_lock R key own s) ≡ none
  unfolding release_lock
  release-own key own s h =
      ap (λ x. R.get (lock_key key) (delete_if R (lock_key key) own x s)) h
      ∙ ap (λ b. R.get (lock_key key) (if b then R.del (lock_key key) s else s)) (text_eq_refl own)
      ∙ get-del (lock_key key) (lock_key key) s
      ∙ ap (λ b. if b then none else R.get (lock_key key) s) (text_eq_refl (lock_key key))

  -- While one holds a lock, whatever others take and give up with tokens of their own, of this lock
  -- or of others, the lock stays with its holder.
  attempts-holder :
      (key own : Text) (others : List Attempt)
      → All (λ a. text_eq own (token_of a) ≡ false) others
      → (s : R.Store) → R.get (lock_key key) s ≡ some (token own)
      → R.get (lock_key key) (attempts R others s) ≡ some (token own)
  attempts-holder key own [] h s held = held
  attempts-holder key own (takes other_key other ∷ more) (h, hs) s held =
      attempts-holder key own more hs _ (acquire-other (lock_key key) other_key other s held)
  attempts-holder key own (gives_up other_key other ∷ more) (h, hs) s held =
      attempts-holder key own more hs _ (release-other (lock_key key) other_key other s held h)

  -- A lock that is free is taken with one's own token. Whatever locks others then take and give up
  -- with tokens of their own, as long as its time does not run out, nobody takes it, and when its
  -- holder gives it up it is free again.
  pub lock_lem :
      (key own : Text) (others : List Attempt) (rival : Text)
      → All (λ a. text_eq own (token_of a) ≡ false) others
      → (s : R.Store) → R.get (lock_key key) s ≡ none
      → let during = attempts R others (acquire_lock R key own s).0 in
        ((acquire_lock R key own s).1 ≡ some own)
        × ((acquire_lock R key rival during).1 ≡ none)
        × (R.get (lock_key key) (release_lock R key own during) ≡ none)
  unfolding acquire_lock
  lock_lem key own others rival h s free = (
    ap (λ r. if_set r.1 own) start,
    ap (λ r. if_set r.1 rival) (put_new-taken _ _ _ _ during),
    release-own key own _ during,
  )
    where
      start : R.put_new (lock_key key) (token own) s ≡ (R.put (lock_key key) (token own) s, true)
      start = put_new-free (lock_key key) (token own) s free

      held : R.get (lock_key key) (acquire_lock R key own s).0 ≡ some (token own)
      held =
          ap (λ r. R.get (lock_key key) r.0) start
          ∙ get-put _ _ _ s
          ∙ ap (λ b. if b then some (token own) else R.get (lock_key key) s)
              (text_eq_refl (lock_key key))

      during :
          R.get (lock_key key) (attempts R others (acquire_lock R key own s).0) ≡ some (token own)
      during = attempts-holder key own others h _ held

  lock-busy :
      (answer : Option Thrown) (id own : Text) (w : World R) {v : Value}
      → answer ≡ none
      → R.get (lock_key id) w.store ≡ some v
      → lock answer id own w ≡ (w, ok none)
  unfolding lock acquire_lock
  lock-busy none id own w {v} h held =
      ap (λ r. locked_world (r.0, if_set r.1 own) w)
        (put_new-taken (lock_key id) (token own) v w.store held)
  lock-busy (some e) id own w h held = absurd (cc)

  with_lock-busy :
      {A C : Type 0} (replies : Replies C) (id : Text) (body : Action R A) (w : World R) {v : Value}
      → replies.locking ≡ none
      → R.get (lock_key id) w.store ≡ some v
      → with_lock replies id body w ≡ (w, err (busy_error id))
  unfolding with_lock ◌>>=◌ lift
  with_lock-busy replies id body w h held =
      ap
        (λ r. go_on r (λ taken.
          lift (token_or_busy taken id) >>= λ own. ensuring body (unlock replies.releasing id own)))
        (lock-busy replies.locking id replies.own_token w h held)

  -- Where somebody holds the lock of the transfer, whatever is cached and whatever others would
  -- answer, accepting the party and accepting the quote are refused as a duplicate, and neither
  -- writes to Redis nor calls anybody.
  pub handlers-busy :
      (settings : OutboundSettings) (w : World R) (v : Value)
      (party_replies : Replies QuotesIdPutResponse) (party : AcceptPartyInput)
      (quote_replies : Replies TransfersIdPutResponse) (quote : AcceptQuoteInput)
      → party_replies.locking ≡ none
      → quote_replies.locking ≡ none
      → party.transfer_id ≡ quote.transfer_id
      → R.get (lock_key party.transfer_id) w.store ≡ some v
      → (accept_party settings party_replies party w ≡ (w, err (busy_error party.transfer_id)))
        × (accept_quote settings quote_replies quote w ≡ (w, err (busy_error party.transfer_id)))
  unfolding accept_party accept_quote
  handlers-busy settings w v party_replies party quote_replies quote h k same held = (
    with_lock-busy party_replies party.transfer_id _ w h held,
    with_lock-busy quote_replies quote.transfer_id _ w k
          (subst (λ id. R.get (lock_key id) w.store ≡ some v) same held)
        ∙ ap (λ id. (w, err (busy_error id))) (sym same),
  )
