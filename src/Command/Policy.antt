-- ===== src/Command/Policy.antt =====
-- Who may change a budget at the provider: what `authorize_budget_write` of
-- app/services/provider_budget_commands.py lets pass, said without its order of checks.
pub mod Decides
use Prim.Native.String.{String}
use text.Mathlib.TextEquality.{eq_iff}
use client_dash_up.Base.{
  ℕ, ◌≡◌, ◌≢◌, ◌↔◌, ◌⊎◌, inl, inr, refl, sym, ap, ◌∙◌, subst, true, false, Bool, Bool-cases, not,
  ◌&&◌, ◌||◌, Option, none, some, List, [], ◌∷◌, arith, ◌==◌, ==_iff-eq, ==_self, opt_eq, is_some,
  In, here, there, any,
}
use client_dash_up.Base.Text.{str_eq}
use client_dash_up.Base.Outcome.{Outcome, ok, err, ◌>>=◌, ◌>>◌, raise_if}
use client_dash_up.Command.Types.{
  BudgetField, ActorRole, CredentialScope, AgencyMemberRole, Fallible, Failure, policy_error,
  BudgetChangeRequest, BudgetActorContext, BudgetTenantContext, BudgetCredentialContext,
}
use client_dash_up.Command.Authorize.{
  is_spend_cap, is_admin, is_agency_scope, is_client_scope, is_global_scope, may_manage, has_id,
  authorize_solo, authorize_agency, authorize_admin, authorize_role, authorize_budget_write,
}

-- A solo owner: in the own client, with the own credential, and not the spend cap.
pub record SoloMay (q : BudgetChangeRequest) (a : BudgetActorContext) (c : BudgetCredentialContext)
    : Type 0 where
  pub access : In q.client_id a.accessible_client_ids
  pub owner : a.solo_owner_client_id ≡ some q.client_id
  pub no_agency : q.agency_id ≡ none
  pub scope : c.scope_type ≡ CredentialScope.client
  pub scope_id : c.scope_id ≡ some q.client_id
  pub own_credential : c.created_by ≡ some a.user_id
  pub no_spend_cap : q.field ≢ BudgetField.spend_cap

-- An owner or manager of the active agency that the request selects, which the client is bound to,
-- with the agency's credential.
pub record AgencyMay (q : BudgetChangeRequest) (a : BudgetActorContext)
    (c : BudgetCredentialContext) : Type 0 where
  pub access : In q.client_id a.accessible_client_ids
  pub agency : ℕ
  pub requested : q.agency_id ≡ some agency
  pub selected : a.selected_agency_id ≡ some agency
  pub agency_active : a.agency_active ≡ true
  pub bound : In q.client_id a.agency_bound_client_ids
  pub manages :
      (a.agency_member_role ≡ some AgencyMemberRole.owner)
      ⊎ (a.agency_member_role ≡ some AgencyMemberRole.manager)
  pub scope : c.scope_type ≡ CredentialScope.agency
  pub scope_id : c.scope_id ≡ some agency
  pub spend_cap : q.field ≡ BudgetField.spend_cap → a.can_manage_spend_cap ≡ true

-- An admin to whom writes are delegated, with the platform's credential.
pub record AdminMay (q : BudgetChangeRequest) (a : BudgetActorContext) (c : BudgetCredentialContext)
    : Type 0 where
  pub delegated : a.can_admin_provider_write ≡ true
  pub scope : c.scope_type ≡ CredentialScope.global
  pub scope_id : c.scope_id ≡ none
  pub spend_cap : q.field ≡ BudgetField.spend_cap → a.can_manage_spend_cap ≡ true

abbrev pub RoleMay :
    ActorRole → BudgetChangeRequest → BudgetActorContext → BudgetCredentialContext → Type 0
RoleMay ActorRole.admin q a c = AdminMay q a c
RoleMay ActorRole.agency q a c = AgencyMay q a c
RoleMay ActorRole.solo_client q a c = SoloMay q a c
RoleMay ActorRole.client q a c = ⊥

pub record MayWrite (q : BudgetChangeRequest) (a : BudgetActorContext) (t : BudgetTenantContext)
    (c : BudgetCredentialContext) : Type 0 where
  pub client : t.client_id ≡ q.client_id
  pub account_client : t.account_client_id ≡ q.client_id
  pub account : t.ad_account_id ≡ q.ad_account_id
  pub client_active : t.client_active ≡ true
  pub account_active : t.account_active ≡ true
  pub platform : t.account_platform ≡ "meta"
  pub credential : c.id ≡ q.credential_id
  pub provider : c.provider ≡ "meta"
  pub status : c.status ≡ "active"
  pub current : c.expired ≡ false
  pub grants : c.has_ads_management ≡ true
  pub role : RoleMay a.role q a c

pub has_id-In : (x : ℕ) (xs : List ℕ) → has_id x xs ≡ true → In x xs
has_id-In x [] e = cc (e)
has_id-In x (y ∷ xs) e = elim (Bool-cases (y == x)) [
  | inl same ↦ subst (λ z. In x (z ∷ xs)) (sym (==_iff-eq y x same)) here
  | inr other ↦ there (has_id-In x xs (ground arith))
]

pub In-has_id : (x : ℕ) (xs : List ℕ) → In x xs → has_id x xs ≡ true
In-has_id x [] i = elim i [ ]
In-has_id x (y ∷ xs) here = let e = ==_self x in ground arith
In-has_id x (y ∷ xs) (there i) = let e = In-has_id x xs i in ground arith

pub str_eq-eq : (a b : String) → str_eq a b ≡ true → a ≡ b
str_eq-eq a b h = (eq_iff a b).0 h

pub str_eq_same : (a : String) → str_eq a a ≡ true
str_eq_same a = (eq_iff a a).1 refl

pub guard_split :
    (b : Bool) (e : Failure) (m : Fallible Unit)
    → (raise_if b e >> m) ≡ ok tt
    → (b ≡ false) × (m ≡ ok tt)
unfolding raise_if ◌>>=◌
guard_split true e m h = absurd (cc (h))
guard_split false e m h = (refl, h)

pub guard_join :
    (b : Bool) (e : Failure) (m : Fallible Unit)
    → b ≡ false
    → m ≡ ok tt
    → (raise_if b e >> m) ≡ ok tt
unfolding raise_if ◌>>=◌
guard_join b e m h k = rw h k

pub guard_last : (b : Bool) (e : Failure) → raise_if b e ≡ ok tt → b ≡ false
unfolding raise_if
guard_last true e h = absurd (cc (h))
guard_last false e h = refl

pub guard_end : (b : Bool) (e : Failure) → b ≡ false → raise_if b e ≡ ok tt
unfolding raise_if
guard_end b e h = rw h refl

pub solo-May :
    (q : BudgetChangeRequest) (a : BudgetActorContext) (c : BudgetCredentialContext)
    → has_id q.client_id a.accessible_client_ids ≡ true
    → authorize_solo q a c ≡ ok tt
    → SoloMay q a c
unfolding authorize_solo
solo-May q a c access h =
    let (g1, h1) = guard_split _ _ _ h in
    let (g2, h2) = guard_split _ _ _ h1 in
    let (g3, h3) = guard_split _ _ _ h2 in
    let g4 = guard_last _ _ h3 in
    record {
      access = has_id-In q.client_id a.accessible_client_ids access;
      owner = ground arith;
      no_agency = ground arith;
      scope = ground arith;
      scope_id = ground arith;
      own_credential = ground arith;
      no_spend_cap = λ e. ground arith;
    }

pub May-solo :
    (q : BudgetChangeRequest) (a : BudgetActorContext) (c : BudgetCredentialContext)
    → SoloMay q a c
    → authorize_solo q a c ≡ ok tt
unfolding authorize_solo
May-solo q a c m =
    let e1 = ==_self q.client_id in
    let e2 = ==_self a.user_id in
    let p1 = m.owner in
    let p2 = m.no_agency in
    let p3 = m.scope in
    let p4 = m.scope_id in
    let p5 = m.own_credential in
    let p6 = m.no_spend_cap in
    guard_join _ _ _ (ground arith) (
      guard_join _ _ _ (ground arith)
        (guard_join _ _ _ (ground arith) (guard_end _ _ (ground arith))))
