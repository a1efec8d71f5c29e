-- ===== src/Outbound/Runs.antt =====
-- Requests on any transfers, served one after the other, with cached requests that expire.
use pivotal.Base.{
  ℕ, suc, ◌≡◌, refl, sym, subst, Bool, true, false, ◌&&◌, none, List, [], ◌∷◌, All, count,
  if◌then◌else◌, inl, inr, Bool-cases, Result, ok, err,
}
use pivotal.Text.{Text}
use pivotal.Responses.Subjects.{text_eq, eq_of_text_eq}
use pivotal.Outbound.Errors.{Thrown}
use pivotal.Outbound.Parties.{QuotesIdPutResponse, TransfersIdPutResponse, Party}
use pivotal.Outbound.Redis.{Redis, IsRedis}
use pivotal.Outbound.Effects.{Replies, World, Action}
use pivotal.Outbound.Handlers.{
  AcceptPartyInput, AcceptQuoteInput, SendMoneyInput, accept_party, accept_quote, send_money,
}
use pivotal.Outbound.Steps.{OutboundSettings}
use pivotal.Outbound.Views.{Step, expires, View, view_of}
use pivotal.Outbound.Triples.{Post, Triple}
use pivotal.Outbound.Storing.{IsPlain, same_view, staged, get-del_other, get-del_same}
use pivotal.Outbound.Quoting.{At, accept_party-Moved}
use pivotal.Outbound.Transferring.{accept_quote-Moved, send_money-Moved}
use pivotal.Outbound.Others.{accept_party-Keeps, accept_quote-Keeps, send_money-Keeps}

-- A request with what others answer while it is served, or a key whose time in Redis runs out.
pub data Event : Type 0 where
  sends : Replies Party → SendMoneyInput → Event
  accepts_party : Replies QuotesIdPutResponse → AcceptPartyInput → Event
  accepts_quote : Replies TransfersIdPutResponse → AcceptQuoteInput → Event
  evicts : Text → Event

abbrev pub is_about : Text → Event → Bool
is_about id (sends r i) = text_eq i.correlation_id id
is_about id (accepts_party r i) = text_eq i.transfer_id id
is_about id (accepts_quote r i) = text_eq i.transfer_id id
is_about id (evicts key) = text_eq key id

abbrev pub is_start : Event → Bool
is_start (sends r i) = true
is_start (accepts_party r i) = false
is_start (accepts_quote r i) = false
is_start (evicts key) = false

-- The new transfers under an id.
abbrev pub starts_of : Text → List Event → ℕ
starts_of id = count (λ e. is_about id e && is_start e)

-- Redis deletes the request where the handler asks it to.
abbrev pub Deletes : Event → Type 0
Deletes (sends r i) = r.deleting ≡ none
Deletes (accepts_party r i) = r.deleting ≡ none
Deletes (accepts_quote r i) = r.deleting ≡ none
Deletes (evicts key) = Unit

module _ {R : Redis} (settings : OutboundSettings) where
  abbrev pub serve : Event → World R → World R
  serve (sends r i) w = (send_money settings r i w).0
  serve (accepts_party r i) w = (accept_party settings r i w).0
  serve (accepts_quote r i) w = (accept_quote settings r i w).0
  serve (evicts key) w = record w { store = R.del key w.store }

  abbrev pub serve_all : List Event → World R → World R
  serve_all [] w = w
  serve_all (e ∷ es) w = serve_all es (serve e w)

-- Steps of the abstract transfer, of which so many are fresh.
pub data Steps : ℕ → View → View → Type 0 where
  done : (v : View) → Steps 0 v v
  fresh_step : {n : ℕ} (v u x : View) → Step true v u → Steps n u x → Steps (suc n) v x
  next_step : {n : ℕ} (v u x : View) → Step false v u → Steps n u x → Steps n v x

end_of :
    {R : Redis} {A : Type 0} (id : Text) (S : View → Type 0) (r : World R × Result Thrown A)
    → Post id (λ a. S) S r
    → S (view_of id r.0)
end_of id S (w, ok a) p = p
end_of id S (w, err e) p = p

take_step :
    (b : Bool) {n : ℕ} {v u x : View}
    → Step b v u
    → Steps n u x
    → Steps (if b then suc n else n) v x
take_step true step rest = fresh_step _ _ _ step rest
take_step false step rest = next_step _ _ _ step rest

-- An action leads to a view of one kind whether it returns or throws.
ends_in :
    {R : Redis} {A : Type 0} {id : Text} {P S : View → Type 0} {m : Action R A}
    → Triple id P m (λ a. S) S
    → (w : World R) → P (view_of id w)
    → S (view_of id (m w).0)
ends_in {id} {S} {m} triple w p = end_of id S (m w) (triple.run w p)

module _ {R : Redis} (law : IsRedis R) (settings : OutboundSettings) (id : Text)
    (plain : IsPlain id) where
  same_id : (other : Text) → text_eq other id ≡ true → IsPlain other
  same_id other about = subst IsPlain (sym (eq_of_text_eq other id about)) plain

  -- A request about the transfer takes a step of it.
  own_step :
      (e : Event)
      → Deletes e
      → is_about id e ≡ true
      → (w : World R) → Step (is_start e) (view_of id w) (view_of id (serve settings e w))
  own_step (sends r i) h about w =
      subst (λ k. Step true (view_of k w) (view_of k (serve settings (sends r i) w)))
        (eq_of_text_eq _ _ about) (ends_in (send_money-Moved law settings r i h _ _ _) w refl)
  own_step (accepts_party r i) h about w =
      subst (λ k. Step false (view_of k w) (view_of k (serve settings (accepts_party r i) w)))
        (eq_of_text_eq _ _ about)
        (ends_in (accept_party-Moved law settings r i (same_id _ about) h _ _ _) w refl)
  own_step (accepts_quote r i) h about w =
      subst (λ k. Step false (view_of k w) (view_of k (serve settings (accepts_quote r i) w)))
        (eq_of_text_eq _ _ about)
        (ends_in (accept_quote-Moved law settings r i (same_id _ about) h _ _ _) w refl)
  own_step (evicts key) h about w =
      subst (Step false (view_of id w))
        (sym (
          staged w (R.del key w.store) none (
            subst (λ k. R.get id (R.del k w.store) ≡ none) (sym (eq_of_text_eq key id about))
              (get-del_same law id w.store))))
        (expires _ _ _)

  other_step :
      (e : Event)
      → is_about id e ≡ false
      → (w : World R) → view_of id (serve settings e w) ≡ view_of id w
  other_step (sends r i) apart w =
      ends_in (send_money-Keeps law id plain (At (view_of id w)) settings r i apart) w refl
  other_step (accepts_party r i) apart w =
      ends_in (accept_party-Keeps law id plain (At (view_of id w)) settings r i apart) w refl
  other_step (accepts_quote r i) apart w =
      ends_in (accept_quote-Keeps law id plain (At (view_of id w)) settings r i apart) w refl
  other_step (evicts key) apart w =
      same_view w (R.del key w.store) (get-del_other law id key w.store apart)

  -- Requests served one after the other, on any transfers and with any answers of others, but for
  -- deletions that Redis refuses, and cached requests that expire: what becomes of one transfer, whose
  -- id is no key of a lock or a counter, is a run of steps of the abstract transfer, of which as many
  -- are fresh as there are new transfers under its id.
  pub serve_all-Steps :
      (events : List Event)
      → All Deletes events
      → (w : World R)
      → Steps (starts_of id events) (view_of id w) (view_of id (serve_all settings events w))
  serve_all-Steps [] h w = done (view_of id w)
  serve_all-Steps (e ∷ es) (h, hs) w = elim (Bool-cases (is_about id e)) [
    | inr apart ↦ rw apart (
        subst
          (λ v. Steps (starts_of id es) v (view_of id (serve_all settings es (serve settings e w))))
          (other_step e apart w) (serve_all-Steps es hs (serve settings e w)))
    | inl about ↦
        rw about (
          take_step (is_start e) (own_step e h about w)
            (serve_all-Steps es hs (serve settings e w)))
  ]
