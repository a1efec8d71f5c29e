-- ===== src/Outbound/Others.antt =====
-- What the handlers do to the view of a transfer that they are not about.
use pivotal.Base.{
  suc, ◌≡◌, sym, ap, subst, ◌∙◌, false, Option, none, some, ◌∷◌, if◌then◌else◌, Result, ok, err,
  count,
}
use pivotal.Text.{Text}
use pivotal.Responses.Subjects.{text_eq}
use pivotal.Outbound.Errors.{Thrown, fspiop_exception, to_fspiop_exception}
use pivotal.Outbound.Parties.{QuotesIdPutResponse, TransfersIdPutResponse, TransferRequest, Party}
use pivotal.Outbound.Redis.{Redis, IsRedis, cached}
use pivotal.Outbound.Effects.{
  Phase, parties, quotes, transfers, posted_quotes, posted_transfers, Replies, World, Action, lift,
  ensuring, command, QuotesPostRequest, TransfersPostRequest,
}
use pivotal.Outbound.Messages.{to_quotes_post_request}
use pivotal.Outbound.Handlers.{
  AcceptPartyInput, AcceptQuoteInput, SendMoneyInput, quote_phase, accept_party_locked,
  accept_party, transfer_phase, save_home_id, accept_quote_locked, accept_quote, lookup_phase,
  send_money,
}
use pivotal.Outbound.Steps.{
  OutboundSettings, get_transfer_request, set_transfer, delete_transfer, report,
}
use pivotal.Outbound.Views.{View, view, view_of, stage_of, asks_quote, asks_transfer}
use pivotal.Outbound.Triples.{Post, Triple, after, made, called, lifted, returned, catches, ensured}
use pivotal.Outbound.Storing.{IsPlain, same_view, get-put_other, get-del_other}
use pivotal.Outbound.Locking.{monitored, locked}
use pivotal.Outbound.Quoting.{asked}
use pivotal.Outbound.Transferring.{body-quotes}
use pivotal.Money.{normalize_amount}

module _ {R : Redis} (id : Text) (P : View → Type 0) where
  abbrev pub Keeps : {A : Type 0} → Action R A → Type 0
  Keeps m = Triple {R = R} id P m (λ a. P) P

  command-Keeps :
      (answer : Option Thrown) (f : R.Store → R.Store)
      → ((s : R.Store) → R.get id (f s) ≡ R.get id s)
      → Keeps (command answer f)
  unfolding command
  command-Keeps none f h = record {
    run = λ w p. subst P (sym (same_view w (f w.store) (h w.store))) p;
  }
  command-Keeps (some e) f h = record { run = λ w p. p }

  read-Post :
      (w : World R) (r : Result Thrown TransferRequest)
      → P (view_of id w)
      → Post id (λ t. P) P (w, r)
  read-Post w (ok t) p = p
  read-Post w (err e) p = p

  get_transfer_request-Keeps :
      (reading : Option Thrown) (other : Text) → Keeps (get_transfer_request reading other)
  unfolding get_transfer_request
  get_transfer_request-Keeps reading other = record { run = λ w p. read-Post w _ p }

module _ {R : Redis} (law : IsRedis R) (id : Text) (plain : IsPlain id) (P : View → Type 0)
    (settings : OutboundSettings) where
  kept_as_is : (v : View) → P v → P v
  kept_as_is v p = p

  module _ (other : Text) (apart : text_eq other id ≡ false) where
    set_transfer-Keeps :
        (answer : Option Thrown) (t : TransferRequest)
        → Keeps {R = R} id P (set_transfer answer other t)
    unfolding set_transfer
    set_transfer-Keeps answer t =
        command-Keeps id P answer _ (λ s. get-put_other law id other (cached t) s apart)

    delete_transfer-Keeps :
        (answer : Option Thrown) → Keeps {R = R} id P (delete_transfer answer other)
    unfolding delete_transfer
    delete_transfer-Keeps answer =
        command-Keeps id P answer _ (λ s. get-del_other law id other s apart)

    report-Keeps :
        {A C : Type 0} (replies : Replies C) (phase : Phase) (source destination : Text)
        (thrown : Thrown)
        → Keeps {R = R} id P {A = A} (report replies phase other source destination thrown)
    unfolding report
    report-Keeps replies phase source destination thrown =
        after (λ u. P)
          (ensured (λ u. P) P (made P _ replies.error_audit (λ w p. p) kept_as_is) (λ u. wipe) wipe)
          (λ u. returned _ kept_as_is (λ a v e p. p))
      where
        wipe : Keeps {R = R} id P (
            ensuring
              (delete_transfer replies.deleting other)
              (lift (err (fspiop_exception (to_fspiop_exception thrown)))))
        wipe =
            ensured (λ u. P) P (delete_transfer-Keeps replies.deleting)
              (λ u. returned _ kept_as_is (λ a v e p. p)) (returned _ kept_as_is (λ a v e p. p))

  quote_silent :
      (source destination : Text) (body : QuotesPostRequest)
      → text_eq body.quote_id id ≡ false
      → (w : World R) → P (view_of id w)
      → P (view_of id (record w { calls = posted_quotes source destination body ∷ w.calls }))
  quote_silent source destination body apart w p =
      subst P
        (ap
          (λ b.
            view (stage_of (R.get id w.store))
              (if b then suc (count (asks_quote id) w.calls) else count (asks_quote id) w.calls)
              (count (asks_transfer id) w.calls))
          (sym apart))
        p

  transfer_silent :
      (source destination : Text) (body : TransfersPostRequest)
      → text_eq body.transfer_id id ≡ false
      → (w : World R) → P (view_of id w)
      → P (view_of id (record w { calls = posted_transfers source destination body ∷ w.calls }))
  transfer_silent source destination body apart w p =
      subst P
        (ap
          (λ b. view (stage_of (R.get id w.store)) (count (asks_quote id) w.calls) (
            if b then suc (count (asks_transfer id) w.calls) else count (asks_transfer id) w.calls))
          (sym apart))
        p

  pub accept_party-Keeps :
      (replies : Replies QuotesIdPutResponse) (input : AcceptPartyInput)
      → text_eq input.transfer_id id ≡ false
      → Keeps {R = R} id P (accept_party settings replies input)
  unfolding accept_party accept_party_locked quote_phase to_quotes_post_request
  accept_party-Keeps replies input apart =
      locked law id plain replies _ kept_as_is (λ a. kept_as_is)
        (after (λ t. P) (get_transfer_request-Keeps id P _ _)
          λ x. lifted _ kept_as_is λ a e. lifted _ kept_as_is λ source e. lifted _ kept_as_is λ a e.
            lifted _ kept_as_is λ extensions e. lifted _ kept_as_is λ a e.
              lifted _ kept_as_is λ destination e.
                called P _ _ (λ w p. p) kept_as_is
                  (catches P
                    (lifted _ kept_as_is λ a e.
                      after (λ u. P) (monitored law id plain kept_as_is _ _ _)
                        λ u.
                          after (λ c. P)
                            (asked replies quotes _ _ _ kept_as_is kept_as_is (
                              quote_silent source destination
                                (to_quotes_post_request input.transfer_id
                                  (record x { amount = normalize_amount input.amount }) extensions)
                                apart))
                            λ c. lifted _ kept_as_is λ fee e.
                              after (λ u. P) (set_transfer-Keeps _ apart _ _)
                                λ u.
                                  called P _ _ (λ w p. p) kept_as_is
                                    (returned _ kept_as_is (λ a v e p. p)))
                    (λ e. report-Keeps _ apart replies quotes source destination e)))

  save_home_id-Keeps :
      (answer : Option Thrown) (home : Option Text) (other : Text) (x : TransferRequest)
      → text_eq other id ≡ false
      → Keeps {R = R} id P (save_home_id settings answer home other x)
  unfolding save_home_id
  save_home_id-Keeps answer none other x apart = returned _ kept_as_is (λ a v e p. p)
  save_home_id-Keeps answer (some home) other x apart = set_transfer-Keeps other apart answer x

  pub accept_quote-Keeps :
      (replies : Replies TransfersIdPutResponse) (input : AcceptQuoteInput)
      → text_eq input.transfer_id id ≡ false
      → Keeps {R = R} id P (accept_quote settings replies input)
  unfolding accept_quote accept_quote_locked transfer_phase
  accept_quote-Keeps replies input apart =
      locked law id plain replies _ kept_as_is (λ a. kept_as_is)
        (after (λ t. P) (get_transfer_request-Keeps id P _ _)
          λ x. lifted _ kept_as_is λ a e. lifted _ kept_as_is λ source e. lifted _ kept_as_is λ a e.
            after (λ u. P) (save_home_id-Keeps _ _ _ _ apart)
              λ u. lifted _ kept_as_is λ destination e. lifted _ kept_as_is λ body made_body.
                lifted _ kept_as_is λ a e.
                  called P _ _ (λ w p. p) kept_as_is
                    (catches P
                      (lifted _ kept_as_is λ a e.
                        after (λ c. P)
                          (asked replies transfers _ _ _ kept_as_is kept_as_is (
                            transfer_silent source destination body (
                              ap (λ t. text_eq t id) (body-quotes input.transfer_id _ made_body).1
                              ∙ apart)))
                          λ c.
                            called P _ _ (λ w p. p) kept_as_is
                              (after (λ u. P) (delete_transfer-Keeps _ apart _)
                                λ u. returned _ kept_as_is (λ a v e p. p)))
                      (λ e. report-Keeps _ apart replies transfers source destination e)))

  pub send_money-Keeps :
      (replies : Replies Party) (input : SendMoneyInput)
      → text_eq input.correlation_id id ≡ false
      → Keeps {R = R} id P (send_money settings replies input)
  unfolding send_money lookup_phase
  send_money-Keeps replies input apart = lifted _ kept_as_is λ a e.
      catches P
        (called P _ _ (λ w p. p) kept_as_is
          (after (λ c. P) (asked replies parties _ _ _ kept_as_is kept_as_is (λ w p. p))
            λ c. lifted _ kept_as_is λ found_one e.
              after (λ u. P) (set_transfer-Keeps _ apart _ _)
                λ u. called P _ _ (λ w p. p) kept_as_is (returned _ kept_as_is (λ a v e p. p))))
        (λ e. report-Keeps _ apart replies parties input.source _ e)
