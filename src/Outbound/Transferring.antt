-- ===== src/Outbound/Transferring.antt =====
-- What the handlers of a new transfer and of an accepted quote do to the view of the transfer that
-- they are about.
use pivotal.Base.{
  ℕ, suc, ◌≡◌, ◌⊎◌, refl, sym, ap, subst, ◌∙◌, true, false, Option, none, some, ◌∷◌, inl, inr,
  if◌then◌else◌, ok, count, on_ok, ok_of_or_throw, eq_of_ok,
}
use pivotal.Text.{Text, codes}
use pivotal.Responses.Subjects.{text_eq, text_eq_refl}
use pivotal.Outbound.Errors.{Thrown}
use pivotal.Outbound.Parties.{TransfersIdPutResponse, TransferRequest, Party, to_transfer_request}
use pivotal.Outbound.Redis.{Redis, IsRedis}
use pivotal.Outbound.Effects.{
  Replies, World, Action, transfers, parties, posted_transfers, TransfersPostRequest,
}
use pivotal.Outbound.Messages.{to_transfers_post_request, quote_or_throw, transfer_routing}
use pivotal.Outbound.Handlers.{
  AcceptQuoteInput, SendMoneyInput, is_there, with_home_id, save_home_id, transfer_phase,
  accept_quote_locked, accept_quote, lookup_phase, send_money,
}
use pivotal.Outbound.Steps.{OutboundSettings}
use pivotal.Outbound.Views.{
  View, view, view_of, Stage, found, quoted, absent, stage_of, stage_if, Step, asks_quote,
  asks_transfer, ends, transfer_refused, starts, start_fails,
}
use pivotal.Outbound.Triples.{
  Triple, after, called, lifted, returned, catches, knowing, starting, ending,
}
use pivotal.Outbound.Storing.{IsPlain, got, stored, reported, deleted, kept}
use pivotal.Outbound.Locking.{locked}
use pivotal.Outbound.Checks.{get_fsp_id}
use pivotal.Outbound.Quoting.{At, Moved, stays-At, asked}

module _ {R : Redis} {id : Text} where
  transfer_counts :
      (source destination : Text) (body : TransfersPostRequest) (same : body.transfer_id ≡ id)
      (s : Stage) (q t : ℕ) (w : World R)
      → view_of id w ≡ view s q t
      → view_of id (record w { calls = posted_transfers source destination body ∷ w.calls })
        ≡ view s q (suc t)
  transfer_counts source destination body same s q t w h =
      let yes_it : text_eq body.transfer_id id ≡ true =
        ap (λ x. text_eq x id) same ∙ text_eq_refl id in
      ap
        (λ b.
          view (stage_of (R.get id w.store)) (count (asks_quote id) w.calls) (
            if b then suc (count (asks_transfer id) w.calls) else count (asks_transfer id) w.calls))
        yes_it
      ∙ ap (λ v. view v.stage v.quotes_asked (suc v.transfers_asked)) h

abbrev AskedTransfer : ℕ → ℕ → View → Type 0
AskedTransfer q t v = (v.quotes_asked ≡ q) × ((v.transfers_asked ≡ t) ⊎ (v.transfers_asked ≡ suc t))

abbrev LookedUp : ℕ → ℕ → View → Type 0
LookedUp q t v = (v.quotes_asked ≡ q) × (v.transfers_asked ≡ t)

home_id-quotes :
    (home : Option Text) (x : TransferRequest) → (with_home_id home x).quotes ≡ x.quotes
unfolding with_home_id
home_id-quotes none x = refl
home_id-quotes (some home) x = refl

At-quoted :
    {R : Redis} {id : Text} {A : Type 0} {m : Action R A} (s : Stage) (q t : ℕ)
    → s ≡ quoted
    → Triple id
        (At (view quoted q t))
        m
        (λ a. Moved false (view quoted q t))
        (Moved false (view quoted q t))
    → Triple id (At (view s q t)) m (λ a. Moved false (view s q t)) (Moved false (view s q t))
At-quoted quoted q t h inner = inner
At-quoted found q t h inner = absurd (cc)
At-quoted absent q t h inner = absurd (cc)

pub body-quotes :
    (id : Text) (x : TransferRequest) {body : TransfersPostRequest}
    → to_transfers_post_request id x ≡ ok body
    → (is_there x.quotes ≡ true) × (body.transfer_id ≡ id)
unfolding to_transfers_post_request
body-quotes id x h = on_ok (quote_or_throw x.quotes id) _ h λ quote e h.
    on_ok (get_fsp_id x.payer (codes "payer") transfer_routing) _ h λ payer f h.
      on_ok (get_fsp_id x.payee (codes "payee") transfer_routing) _ h λ payee g h.
        (rw (ok_of_or_throw x.quotes _ e) refl, sym (ap (λ b. b.transfer_id) (eq_of_ok h)))

module _ {R : Redis} (law : IsRedis R) (settings : OutboundSettings) where
  transfer_phase-Triple :
      (replies : Replies TransfersIdPutResponse) (input : AcceptQuoteInput) (x : TransferRequest)
      (source destination : Text) (body : TransfersPostRequest)
      (same : body.transfer_id ≡ input.transfer_id) (q t : ℕ)
      → Triple {R = R} input.transfer_id
          (At (view quoted q t))
          (transfer_phase settings replies input x source destination body)
          (λ a. At (view absent q (suc t)))
          (AskedTransfer q t)
  unfolding transfer_phase
  transfer_phase-Triple replies input x source destination body same q t = lifted _ asking λ a e.
      after (λ c. At (view quoted q (suc t)))
        (asked replies transfers _ _ _ asking asked_once
          (transfer_counts source destination body same quoted q t))
        λ c.
          called (At (view quoted q (suc t))) _ _ (λ w p. p) asked_once
            (after (λ u. At (view absent q (suc t)))
              (deleted law _ replies.deleting
                (λ v h. ap (λ v. view absent v.quotes_asked v.transfers_asked) h) asked_once)
              (λ u. returned _ asked_and_deleted (λ a v e p. p)))
    where
      asking : (v : View) → At (view quoted q t) v → AskedTransfer q t v
      asking v h = (ap (λ v. v.quotes_asked) h, inl (ap (λ v. v.transfers_asked) h))

      asked_once : (v : View) → At (view quoted q (suc t)) v → AskedTransfer q t v
      asked_once v h = (ap (λ v. v.quotes_asked) h, inr (ap (λ v. v.transfers_asked) h))

      asked_and_deleted : (v : View) → At (view absent q (suc t)) v → AskedTransfer q t v
      asked_and_deleted v h = (ap (λ v. v.quotes_asked) h, inr (ap (λ v. v.transfers_asked) h))

  refuses_transfer :
      (q t : ℕ) (v : View)
      → AskedTransfer q t v
      → Moved false (view quoted q t) (record v { stage = absent })
  refuses_transfer q t v (same_q, inl same_t) = rw (same_q, same_t) (transfer_refused q t)
  refuses_transfer q t v (same_q, inr next_t) = rw (same_q, next_t) (ends q t)

  save_home_id-At :
      (answer : Option Thrown) (home : Option Text) (id : Text) (x : TransferRequest) (s : Stage)
      (q t : ℕ)
      → stage_if (is_there x.quotes) ≡ s
      → Triple {R = R} id
          (At (view s q t))
          (save_home_id settings answer home id (with_home_id home x))
          (λ u. At (view s q t))
          (Moved false (view s q t))
  unfolding save_home_id
  save_home_id-At answer none id x s q t h = returned _ (stays-At false _) (λ a v e p. p)
  save_home_id-At answer (some home) id x s q t h =
      kept law _ (At (view s q t)) answer _
        (λ v k.
          ap (λ s'. view s' v.quotes_asked v.transfers_asked) same
          ∙ ap (λ v. view s v.quotes_asked v.transfers_asked) k)
        (stays-At false _)
    where
      same : stage_if (is_there (with_home_id (some home) x).quotes) ≡ s
      same = ap (λ o. stage_if (is_there o)) (home_id-quotes (some home) x) ∙ h

  pub accept_quote-Moved :
      (replies : Replies TransfersIdPutResponse) (input : AcceptQuoteInput)
      (plain : IsPlain input.transfer_id)
      → replies.deleting ≡ none
      → (s : Stage) (q t : ℕ)
      → Triple {R = R} input.transfer_id
          (At (view s q t))
          (accept_quote settings replies input)
          (λ a. Moved false (view s q t))
          (Moved false (view s q t))
  unfolding accept_quote accept_quote_locked
  accept_quote-Moved replies input plain h s q t =
      locked law _ plain replies _ (stays-At false _) (λ a u m. m)
        (got _ (stays-At false _) λ x.
          knowing {X = stage_if (is_there x.quotes) ≡ s} (λ u k. k.1 ∙ ap (λ v. v.stage) k.0)
            λ known.
              starting (λ u k. k.0)
                (lifted _ (stays-At false _) λ a e. lifted _ (stays-At false _) λ source e.
                  lifted _ (stays-At false _) λ a e.
                    after (λ u. At (view s q t)) (save_home_id-At _ _ _ x s q t known)
                      λ u. lifted _ (stays-At false _) λ destination e.
                        lifted _ (stays-At false _) λ body made_body.
                          lifted _ (stays-At false _) λ a e.
                            let found_quote = body-quotes input.transfer_id _ made_body in
                            At-quoted s q t
                              (sym known
                                ∙ ap (λ o. stage_if (is_there o))
                                    (sym (home_id-quotes input.home_transaction_id x))
                                ∙ ap stage_if found_quote.0)
                              (called (At (view quoted q t)) _ _ (λ w p. p) (stays-At false _)
                                (catches (AskedTransfer q t)
                                  (ending
                                    (λ a u k.
                                      subst (Step false (view quoted q t)) (sym k) (ends q t))
                                    (λ u k. k)
                                    (transfer_phase-Triple replies input
                                      (with_home_id input.home_transaction_id x) source destination
                                      body found_quote.1 q t))
                                  (λ e.
                                    reported law _ replies transfers source destination e h
                                      (refuses_transfer q t))))))

  lookup_phase-Triple :
      (replies : Replies Party) (input : SendMoneyInput) (s : Stage) (q t : ℕ)
      → Triple {R = R} input.correlation_id
          (At (view s q t))
          (lookup_phase settings replies input)
          (λ a. At (view found q t))
          (LookedUp q t)
  unfolding lookup_phase to_transfer_request
  lookup_phase-Triple replies input s q t =
      called (At (view s q t)) _ _ (λ w p. p) looked
        (after (λ c. At (view s q t)) (asked replies parties _ _ _ looked looked (λ w p. p))
          λ c. lifted _ looked λ found_one e.
            stored law _ (At (view found q t)) _
              (to_transfer_request input.request found_one.0 input.correlation_id input.created_at)
              (λ v k. ap (λ v. view found v.quotes_asked v.transfers_asked) k) looked
              (called (At (view found q t)) _ _ (λ w p. p) cached_it
                (returned _ cached_it (λ a v e p. p))))
    where
      looked : (v : View) → At (view s q t) v → LookedUp q t v
      looked v h = (ap (λ v. v.quotes_asked) h, ap (λ v. v.transfers_asked) h)

      cached_it : (v : View) → At (view found q t) v → LookedUp q t v
      cached_it v h = (ap (λ v. v.quotes_asked) h, ap (λ v. v.transfers_asked) h)

  lookup_fails :
      (s : Stage) (q t : ℕ) (v : View)
      → LookedUp q t v
      → Moved true (view s q t) (record v { stage = absent })
  lookup_fails s q t v (same_q, same_t) = rw (same_q, same_t) (start_fails s q t)

  pub send_money-Moved :
      (replies : Replies Party) (input : SendMoneyInput)
      → replies.deleting ≡ none
      → (s : Stage) (q t : ℕ)
      → Triple {R = R} input.correlation_id
          (At (view s q t))
          (send_money settings replies input)
          (λ a. Moved true (view s q t))
          (Moved true (view s q t))
  unfolding send_money
  send_money-Moved replies input h s q t = lifted _ (stays-At true _) λ a e.
      catches (LookedUp q t)
        (ending (λ a u k. subst (Step true (view s q t)) (sym k) (starts s q t)) (λ u k. k)
          (lookup_phase-Triple replies input s q t))
        (λ e. reported law _ replies parties input.source _ e h (lookup_fails s q t))
