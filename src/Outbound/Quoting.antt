-- ===== src/Outbound/Quoting.antt =====
-- What the handler of an accepted party does to the view of the transfer that it is about.
use pivotal.Base.{
  ℕ, suc, ◌≡◌, ◌⊎◌, refl, sym, ap, subst, ◌∙◌, Bool, true, false, none, ◌∷◌, inl, inr,
  if◌then◌else◌, ok_of_throw_if, count, ◌≢◌,
}
use pivotal.Text.{Text}
use pivotal.Responses.Subjects.{text_eq, text_eq_refl}
use pivotal.Outbound.Errors.{Thrown}
use pivotal.Outbound.Parties.{QuotesIdPutResponse, TransferRequest}
use pivotal.Outbound.Redis.{Redis, IsRedis}
use pivotal.Outbound.Effects.{
  Phase, OutboundCall, Replies, World, QuotesPostRequest, quotes, posted_quotes,
}
use pivotal.Outbound.Messages.{to_quotes_post_request}
use pivotal.Outbound.Handlers.{
  AcceptPartyInput, quote_phase, accept_party_locked, accept_party, is_there,
}
use pivotal.Outbound.Steps.{OutboundSettings, ask_hub}
use pivotal.Outbound.Views.{
  View, view, view_of, Stage, found, quoted, absent, stage_of, stage_if, Step, stays, quote_fails,
  quote_refused, gets_quote, asks_quote, asks_transfer,
}
use pivotal.Outbound.Triples.{
  Triple, after, made, called, lifted, returned, catches, starting, ending, impossible,
}
use pivotal.Outbound.Storing.{IsPlain, got, stored, reported}
use pivotal.Outbound.Locking.{monitored, locked}
use pivotal.Money.{normalize_amount}

abbrev pub At : View → View → Type 0
At v u = u ≡ v

abbrev pub Moved : Bool → View → View → Type 0
Moved fresh v u = Step fresh v u

pub stays-At : (fresh : Bool) (v : View) (u : View) → At v u → Moved fresh v u
stays-At fresh v u h = subst (Step fresh v) (sym h) (stays fresh v)

-- Where a phase may have thrown: it has asked the hub or not, and has cached or not.
abbrev pub AskedQuote : ℕ → ℕ → View → Type 0
AskedQuote q t v = (v.transfers_asked ≡ t) × ((v.quotes_asked ≡ q) ⊎ (v.quotes_asked ≡ suc q))

module _ {R : Redis} {id : Text} where
  -- Asking the hub.
  pub asked :
      {C : Type 0} {P Q E : View → Type 0} (replies : Replies C) (phase : Phase) (key : Text)
      (call : OutboundCall) (convert : Thrown → Thrown)
      → ((v : View) → P v → E v)
      → ((v : View) → Q v → E v)
      → ((w : World R) → P (view_of id w) → Q (view_of id (record w { calls = call ∷ w.calls })))
      → Triple {R = R} id P (ask_hub replies phase key call convert) (λ c v. Q v) E
  unfolding ask_hub
  asked {P} {Q} {E} replies phase key call convert before fails moves =
      called P _ none (λ w p. p) before
        (after (λ u. Q)
          (catches Q (made Q call replies.hub moves (λ v p. p))
            (λ e. called Q _ none (λ w p. p) fails (returned _ fails (λ a v e p. absurd (cc)))))
          (λ u. returned _ fails (λ a v e p. p)))

  quote_counts :
      (source destination : Text) (body : QuotesPostRequest) (same : body.quote_id ≡ id) (s : Stage)
      (q t : ℕ) (w : World R)
      → view_of id w ≡ view s q t
      → view_of id (record w { calls = posted_quotes source destination body ∷ w.calls })
        ≡ view s (suc q) t
  quote_counts source destination body same s q t w h =
      let yes_it : text_eq body.quote_id id ≡ true =
        ap (λ x. text_eq x id) same ∙ text_eq_refl id in
      ap
        (λ b.
          view (stage_of (R.get id w.store))
            (if b then suc (count (asks_quote id) w.calls) else count (asks_quote id) w.calls)
            (count (asks_transfer id) w.calls))
        yes_it
      ∙ ap (λ v. view v.stage (suc v.quotes_asked) v.transfers_asked) h

module _ {R : Redis} (law : IsRedis R) (settings : OutboundSettings) where
  quote_phase-Triple :
      (replies : Replies QuotesIdPutResponse) (input : AcceptPartyInput)
      (plain : IsPlain input.transfer_id) (x : TransferRequest) (source destination : Text)
      (body : QuotesPostRequest) (same : body.quote_id ≡ input.transfer_id) (q t : ℕ)
      → Triple {R = R} input.transfer_id
          (At (view found q t))
          (quote_phase settings replies input x source destination body)
          (λ a. At (view quoted (suc q) t))
          (AskedQuote q t)
  unfolding quote_phase
  quote_phase-Triple replies input plain x source destination body same q t = lifted _ asking λ a e.
      after (λ u. At (view found q t)) (monitored law _ plain asking _ _ _)
        λ u.
          after (λ c. At (view found (suc q) t))
            (asked replies quotes _ _ _ asking asked_once
              (quote_counts source destination body same found q t))
            λ c. lifted _ asked_once λ fee e.
              stored law _ (At (view quoted (suc q) t)) _ _
                (λ v h. ap (λ v. view quoted v.quotes_asked v.transfers_asked) h) asked_once
                (called (At (view quoted (suc q) t)) _ _ (λ w p. p) asked_and_cached
                  (returned _ asked_and_cached (λ a v e p. p)))
    where
      asking : (v : View) → At (view found q t) v → AskedQuote q t v
      asking v h = (ap (λ v. v.transfers_asked) h, inl (ap (λ v. v.quotes_asked) h))

      asked_once : (v : View) → At (view found (suc q) t) v → AskedQuote q t v
      asked_once v h = (ap (λ v. v.transfers_asked) h, inr (ap (λ v. v.quotes_asked) h))

      asked_and_cached : (v : View) → At (view quoted (suc q) t) v → AskedQuote q t v
      asked_and_cached v h = (ap (λ v. v.transfers_asked) h, inr (ap (λ v. v.quotes_asked) h))

  refuses_quote :
      (q t : ℕ) (v : View)
      → AskedQuote q t v
      → Moved false (view found q t) (record v { stage = absent })
  refuses_quote q t v (same_t, inl same_q) = rw (same_q, same_t) (quote_refused q t)
  refuses_quote q t v (same_t, inr next_q) = rw (next_q, same_t) (quote_fails q t)

  not_absent : (b : Bool) → stage_if b ≢ absent
  not_absent true = λ h. cc h
  not_absent false = λ h. cc h

  not_quoted : (b : Bool) → b ≡ false → stage_if b ≢ quoted
  not_quoted true h = λ k. cc h
  not_quoted false h = λ k. cc k

  pub accept_party-Moved :
      (replies : Replies QuotesIdPutResponse) (input : AcceptPartyInput)
      (plain : IsPlain input.transfer_id)
      → replies.deleting ≡ none
      → (s : Stage) (q t : ℕ)
      → Triple {R = R} input.transfer_id
          (At (view s q t))
          (accept_party settings replies input)
          (λ a. Moved false (view s q t))
          (Moved false (view s q t))
  unfolding accept_party accept_party_locked to_quotes_post_request
  accept_party-Moved replies input plain h absent q t =
      locked law _ plain replies _ (stays-At false _) (λ a u m. m)
        (got _ (stays-At false _)
          λ x. impossible (λ u k. not_absent (is_there x.quotes) (k.1 ∙ ap (λ v. v.stage) k.0)))
  accept_party-Moved replies input plain h quoted q t =
      locked law _ plain replies _ (stays-At false _) (λ a u m. m)
        (got _ (stays-At false _) λ x.
          lifted _ (λ u k. stays-At false _ u k.0)
            λ a e. impossible (λ u k.
              not_quoted (is_there x.quotes) (ok_of_throw_if _ _ e) (k.1 ∙ ap (λ v. v.stage) k.0)))
  accept_party-Moved replies input plain h found q t =
      locked law _ plain replies _ (stays-At false _) (λ a u m. m)
        (got _ (stays-At false _) λ x.
          starting (λ u k. k.0)
            (lifted _ (stays-At false _) λ a e. lifted _ (stays-At false _) λ source e.
              lifted _ (stays-At false _) λ a e. lifted _ (stays-At false _) λ extensions e.
                lifted _ (stays-At false _) λ a e. lifted _ (stays-At false _) λ destination e.
                  called (At (view found q t)) _ _ (λ w p. p) (stays-At false _)
                    (catches (AskedQuote q t)
                      (ending
                        (λ a u k. subst (Step false (view found q t)) (sym k) (gets_quote q t))
                        (λ u k. k)
                        (quote_phase-Triple replies input plain
                          (record x { amount = normalize_amount input.amount }) source destination _
                          refl q t))
                      (λ e.
                        reported law _ replies quotes source destination e h (refuses_quote q t)))))
