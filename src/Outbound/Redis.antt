-- ===== src/Outbound/Redis.antt =====
-- packages/core/outbound/domain/component/redis-client.ts: locks, counters and cached requests.
-- The commands of Redis are an interface, with what its documentation says of them.
use pivotal.Base.{ℕ, suc, ◌≡◌, Bool, true, false, Option, none, some, ◌++◌, if◌then◌else◌, ◌⊎◌}
use pivotal.Text.{Text, codes}
use pivotal.Responses.Subjects.{text_eq}
use pivotal.Outbound.Parties.{TransferRequest}

-- What the program keeps under a key: a cached request, the token of a lock, a counter.
pub data Value : Type 0 where
  cached : TransferRequest → Value
  token : Text → Value
  counter : ℕ → Value

pub record Redis : Type 1 where
  pub Store : Type 0
  pub get : Text → Store → Option Value
  pub put : Text → Value → Store → Store
  pub del : Text → Store → Store
  -- `SET key value NX`, with whether it was set.
  pub put_new : Text → Value → Store → Store × Bool
  -- `INCR key`, with the new count.
  pub incr : Text → Store → Store × ℕ

-- A key that is missing counts as 0. `INCR` refuses any other value, of which nothing is assumed.
abbrev pub Counts : Option Value → ℕ → Type 0
Counts o n = ((o ≡ none) × (n ≡ 0)) ⊎ (o ≡ some (counter n))

pub record IsRedis (R : Redis) : Type 0 where
  pub get-put :
      (j k : Text) (v : Value) (s : R.Store)
      → R.get j (R.put k v s) ≡ (if text_eq k j then some v else R.get j s)
  pub get-del :
      (j k : Text) (s : R.Store) → R.get j (R.del k s) ≡ (if text_eq k j then none else R.get j s)
  pub put_new-free :
      (k : Text) (v : Value) (s : R.Store)
      → R.get k s ≡ none
      → R.put_new k v s ≡ (R.put k v s, true)
  pub put_new-taken :
      (k : Text) (v w : Value) (s : R.Store) → R.get k s ≡ some w → R.put_new k v s ≡ (s, false)
  pub get-incr :
      (j k : Text) (s : R.Store) → text_eq k j ≡ false → R.get j (R.incr k s).0 ≡ R.get j s
  pub incr-count :
      (k : Text) (n : ℕ) (s : R.Store)
      → Counts (R.get k s) n
      → ((R.incr k s).1 ≡ suc n) × (R.get k (R.incr k s).0 ≡ some (counter (suc n)))

abbrev pub lock_key : Text → Text
lock_key key = codes "lock:" ++ key

abbrev pub if_set : {A : Type 0} → Bool → A → Option A
if_set true a = some a
if_set false a = none

module _ (R : Redis) where
  -- The token is made by `randomUUID`.
  unfoldable pub acquire_lock : Text → Text → R.Store → R.Store × Option Text
  acquire_lock key own s = let r = R.put_new (lock_key key) (token own) s in (r.0, if_set r.1 own)

  abbrev pub delete_if : Text → Text → Option Value → R.Store → R.Store
  delete_if key own none s = s
  delete_if key own (some (token held)) s = if text_eq held own then R.del key s else s
  delete_if key own (some (cached t)) s = s
  delete_if key own (some (counter n)) s = s

  -- `RELEASE_LOCK_SCRIPT`, which Redis runs in one go.
  unfoldable pub release_lock : Text → Text → R.Store → R.Store
  release_lock key own s = delete_if (lock_key key) own (R.get (lock_key key) s) s
