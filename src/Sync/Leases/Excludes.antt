-- ===== src/Sync/Leases/Excludes.antt =====
-- While a lease lasts, no one else gets it (app/services/ad_account_sync.py).
use Prim.Native.String.{String}
use text.Mathlib.TextEquality.{eq_iff}
use client_dash_up.Base.{
  ℕ, ◌≤◌, ◌<◌, ◌≡◌, refl, sym, subst, arith, true, false, ◌&&◌, none, some, List, [], ◌∷◌, ◌==◌,
  All, Bool-cases, inl, inr, ==_iff-eq,
}
use client_dash_up.Base.Text.{str_eq}
use client_dash_up.Sync.Leases.Calls.{
  lasts_until, Call, acquires, releases, renews, Answer, acquired, answers,
}
use client_dash_up.Sync.Leases.Memory.{Leases, put}
use client_dash_up.Sync.Leases.Memory
use client_dash_up.Sync.Leases.Sqlite.{Row}
use client_dash_up.Sync.Leases.Sqlite
use client_dash_up.Sync.Leases.Rows.{find, HasUniqueKeys}
use client_dash_up.Sync.Leases.Refines.{acquires-Agrees, answers-Represents}

==_comm : (a b : ℕ) → (a == b) ≡ (b == a)
==_comm a b = ground arith

-- A call that is made before the instant `end` and does not give up the lease of `key` under
-- `token`: it draws another token, releases another lease, and renews this one past `end`.
abbrev pub Leaves : String → ℕ → ℕ → Call → Type 0
Leaves key token end (acquires k t now ttl_seconds) = (now < end) × ((t == token) ≡ false)
Leaves key token end (releases k t) = (str_eq k key && t == token) ≡ false
Leaves key token end (renews k t now ttl_seconds) =
    (str_eq k key && t == token) ≡ true → end ≤ lasts_until now ttl_seconds

-- The answer to a call, where it asks for the lease of `key`, is a refusal.
abbrev pub Refuses : String → Call → Answer → Type 0
Refuses key (acquires k t now ttl_seconds) (acquired o) = str_eq k key ≡ true → o ≡ none
Refuses key (acquires k t now ttl_seconds) _ = ⊥
Refuses key (releases k t) _ = Unit
Refuses key (renews k t now ttl_seconds) _ = Unit

abbrev pub RefusesAll : String → List Call → List Answer → Type 0
RefusesAll key [] _ = Unit
RefusesAll key (c ∷ cs) [] = ⊥
RefusesAll key (c ∷ cs) (a ∷ as') = Refuses key c a × RefusesAll key cs as'

-- The lease of `key` is held under `token` up to `end` at least.
record Holds (key : String) (token end : ℕ) (m : Leases) : Type 0 where
  until : ℕ
  lease : m key ≡ some (record { token = token; until = until })
  lasts : end ≤ until

module _ (key : String) (token end : ℕ) (m : Leases) (h : Holds key token end m) where
  step-Holds :
      (c : Call)
      → Leaves key token end c
      → Refuses key c (Memory.step c m).0 × Holds key token end (Memory.step c m).1
  unfolding Memory.step Memory.acquire_lease Memory.release_lease Memory.renew_lease put
  step-Holds (acquires k t now ttl_seconds) (early, fresh) =
      let lease = h.lease in
      let lasts = h.lasts in
      (
        (λ e. ground (arith, eq_iff k key)),
        record {
          until = h.until;
          lease = ground (arith, eq_iff k key, eq_iff key k);
          lasts = lasts;
        },
      )
  step-Holds (releases k t) other =
      let lease = h.lease in
      (
        tt,
        record {
          until = h.until;
          lease = ground (arith, eq_iff k key, eq_iff key k, ==_comm t token);
          lasts = h.lasts;
        },
      )
  step-Holds (renews k t now ttl_seconds) later = elim (Bool-cases (str_eq k key && t == token)) [
    | inl own ↦
        let lease = h.lease in
        (
          tt,
          record {
            until = lasts_until now ttl_seconds;
            lease = ground (arith, eq_iff k key, eq_iff key k, ==_iff-eq t token);
            lasts = later own;
          },
        )
    | inr other ↦
        let lease = h.lease in
        (
          tt,
          record {
            until = h.until;
            lease = ground (arith, eq_iff k key, eq_iff key k, ==_comm t token);
            lasts = h.lasts;
          },
        )
  ]

RefusesAll-Holds :
    (key : String) (token end : ℕ) (cs : List Call) (m : Leases)
    → Holds key token end m
    → All (Leaves key token end) cs
    → RefusesAll key cs (answers Memory.step cs m)
RefusesAll-Holds key token end [] m h l = tt
RefusesAll-Holds key token end (c ∷ cs) m h (leaves, rest) =
    let (refuses, h') = step-Holds key token end m h c leaves in
    (refuses, RefusesAll-Holds key token end cs (Memory.step c m).1 h' rest)

acquire-Holds :
    (key : String) (token now ttl_seconds : ℕ) (m : Leases)
    → (Memory.acquire_lease key token now ttl_seconds m).0 ≡ some token
    → Holds key token
        (lasts_until now ttl_seconds)
        (Memory.acquire_lease key token now ttl_seconds m).1
unfolding Memory.acquire_lease put
acquire-Holds key token now ttl_seconds m got = record {
  until = lasts_until now ttl_seconds;
  lease = ground (arith, eq_iff key key);
  lasts = omega arith;
}

-- Once `acquire_lease` of the SQLite store has given the lease of a key under a token, every call that
-- asks for this lease before the time to live is over is refused, in any sequence of calls, whatever
-- the table held before. The calls are made before that end and draw other tokens, the holder does not
-- release the lease in between, and its renewals do not end earlier.
pub acquire-excludes :
    (key : String) (token now ttl_seconds : ℕ) (rows : List Row) (cs : List Call)
    → HasUniqueKeys rows
    → (Sqlite.acquire_lease key token now ttl_seconds rows).0 ≡ some token
    → All (Leaves key token (lasts_until now ttl_seconds)) cs
    → RefusesAll key cs
        (answers Sqlite.step cs (Sqlite.acquire_lease key token now ttl_seconds rows).1)
unfolding Sqlite.step Memory.step
acquire-excludes key token now ttl_seconds rows cs unique got leaves =
    let m = find rows in
    let agrees =
      acquires-Agrees rows m (record { unique = unique; same = λ k. refl }) key token now
        ttl_seconds in
    let got_too : (Memory.acquire_lease key token now ttl_seconds m).0 ≡ some token =
      cc (agrees.answer, got) in
    let holds = acquire-Holds key token now ttl_seconds m got_too in
    subst (RefusesAll key cs) (sym (answers-Represents cs _ _ agrees.represents).0)
      (RefusesAll-Holds key token (lasts_until now ttl_seconds) cs _ holds leaves)
