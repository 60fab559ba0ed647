-- ===== src/Sync/Leases/Refines.antt =====
-- The leases in the table answer as those in the dictionary (app/services/ad_account_sync.py).
use Prim.Native.String.{String}
use client_dash_up.Base.{ℕ, ◌≡◌, refl, arith, Option, none, some, List, [], ◌∷◌, first}
use client_dash_up.Sync.Leases.Calls.{
  lasts_until, Call, acquires, releases, renews, Answer, answers, after,
}
use client_dash_up.Sync.Leases.Memory.{Leases, put, is_live, is_held_by}
use client_dash_up.Sync.Leases.Memory
use client_dash_up.Sync.Leases.Sqlite.{Row, has_key, is_current, is_lease}
use client_dash_up.Sync.Leases.Sqlite
use client_dash_up.Sync.Leases.Rows.{
  lease_of?, find, HasUniqueKeys, find-upsert, find-extend, find-select, length-select,
  upsert-HasUniqueKeys, extend-HasUniqueKeys, select-HasUniqueKeys,
}

-- The table shows the dictionary.
pub record Represents (rows : List Row) (m : Leases) : Type 0 where
  pub unique : HasUniqueKeys rows
  pub same : (k : String) → find rows k ≡ m k

-- One call on both.
pub record Agrees (r : Answer × List Row) (q : Answer × Leases) : Type 0 where
  pub answer : r.0 ≡ q.0
  pub represents : Represents r.1 q.1

is_current-is_live : (o : Option Row) (now : ℕ) → is_current o now ≡ is_live (lease_of? o) now
is_current-is_live none now = refl
is_current-is_live (some row) now = refl

module _ (rows : List Row) (m : Leases) (h : Represents rows m) where
  pub acquires-Agrees :
      (key : String) (token now ttl_seconds : ℕ)
      → Agrees
          (Sqlite.step (acquires key token now ttl_seconds) rows)
          (Memory.step (acquires key token now ttl_seconds) m)
  unfolding Sqlite.step Memory.step Sqlite.acquire_lease Memory.acquire_lease put
  acquires-Agrees key token now ttl_seconds =
      let live = is_current-is_live (first (has_key key) rows) now in
      let same = h.same key in
      let row : Row = record {
        lease_key = key;
        lease_token = token;
        lease_until = lasts_until now ttl_seconds;
        updated_at = now;
      } in
      record {
        answer = ground arith;
        represents = record {
          unique = ground (arith, h.unique, upsert-HasUniqueKeys row rows h.unique);
          same = λ k. ground (arith, h.same k, find-upsert k row rows);
        };
      }

  releases-Agrees :
      (key : String) (token : ℕ)
      → Agrees (Sqlite.step (releases key token) rows) (Memory.step (releases key token) m)
  unfolding Sqlite.step Memory.step Sqlite.release_lease Memory.release_lease put
  releases-Agrees key token = record {
    answer = refl;
    represents = record {
      unique = select-HasUniqueKeys key token rows h.unique;
      same = λ k.
          let same = h.same key in ground (arith, h.same k, find-select k key token rows h.unique);
    };
  }

  renews-Agrees :
      (key : String) (token now ttl_seconds : ℕ)
      → Agrees
          (Sqlite.step (renews key token now ttl_seconds) rows)
          (Memory.step (renews key token now ttl_seconds) m)
  unfolding Sqlite.step Memory.step Sqlite.renew_lease Memory.renew_lease put
  renews-Agrees key token now ttl_seconds =
      let same = h.same key in
      let until = lasts_until now ttl_seconds in
      record {
        answer = ground (arith, length-select key token rows h.unique);
        represents = record {
          unique = extend-HasUniqueKeys key token until now rows h.unique;
          same = λ k. ground (arith, h.same k, find-extend k key token until now rows);
        };
      }

  pub step-Agrees : (c : Call) → Agrees (Sqlite.step c rows) (Memory.step c m)
  step-Agrees (acquires key token now ttl_seconds) = acquires-Agrees key token now ttl_seconds
  step-Agrees (releases key token) = releases-Agrees key token
  step-Agrees (renews key token now ttl_seconds) = renews-Agrees key token now ttl_seconds

pub answers-Represents :
    (cs : List Call) (rows : List Row) (m : Leases)
    → Represents rows m
    → (answers Sqlite.step cs rows ≡ answers Memory.step cs m)
      × Represents (after Sqlite.step cs rows) (after Memory.step cs m)
answers-Represents [] rows m h = (refl, h)
answers-Represents (c ∷ cs) rows m h =
    let one = step-Agrees rows m h c in
    let (rest, last) =
      answers-Represents cs (Sqlite.step c rows).1 (Memory.step c m).1 one.represents in
    (cc (one.answer, rest), last)

-- From no lease on, the table gives every sequence of calls the answers that the dictionary gives,
-- and shows the same leases at the end, one for a key at most.
pub sqlite-refines_memory :
    (cs : List Call)
    → (answers Sqlite.step cs [] ≡ answers Memory.step cs (λ _. none))
      × Represents (after Sqlite.step cs []) (after Memory.step cs (λ _. none))
sqlite-refines_memory cs =
    answers-Represents cs [] (λ _. none) (record { unique = tt; same = λ k. refl })
