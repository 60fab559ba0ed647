-- ===== src/Command/Policy/Decides.antt =====
-- `authorize_budget_write` (app/services/provider_budget_commands.py) decides the policy.
use client_dash_up.Base.{
  ℕ, ◌≡◌, ◌↔◌, ◌⊎◌, inl, inr, refl, ap, ◌∙◌, true, false, not, ◌&&◌, Option, none, some, arith,
  ==_self, opt_eq, is_some,
}
use client_dash_up.Base.Text.{str_eq}
use client_dash_up.Base.Outcome.{ok}
use client_dash_up.Command.Types.{
  ActorRole, AgencyMemberRole, BudgetChangeRequest, BudgetActorContext, BudgetTenantContext,
  BudgetCredentialContext,
}
use client_dash_up.Command.Authorize.{
  is_admin, may_manage, has_id, authorize_agency, authorize_admin, authorize_role,
  authorize_budget_write,
}
use client_dash_up.Command.Policy.{
  AgencyMay, AdminMay, RoleMay, MayWrite, has_id-In, In-has_id, str_eq-eq, str_eq_same, guard_split,
  guard_join, guard_last, guard_end, solo-May, May-solo,
}

some_of : (o : Option ℕ) → is_some o ≡ true → (a : ℕ) × (o ≡ some a)
some_of none e = absurd (cc (e))
some_of (some a) e = (a, refl)

opt_eq-some : (o p : Option ℕ) (a : ℕ) → opt_eq o p ≡ true → p ≡ some a → o ≡ some a
opt_eq-some o p a e h = ground arith

may_manage-role :
    (r : Option AgencyMemberRole)
    → may_manage r ≡ true
    → (r ≡ some AgencyMemberRole.owner) ⊎ (r ≡ some AgencyMemberRole.manager)
may_manage-role none e = absurd (cc (e))
may_manage-role (some AgencyMemberRole.owner) e = inl refl
may_manage-role (some AgencyMemberRole.manager) e = inr refl
may_manage-role (some AgencyMemberRole.member) e = absurd (cc (e))

role-may_manage :
    (r : Option AgencyMemberRole)
    → (r ≡ some AgencyMemberRole.owner) ⊎ (r ≡ some AgencyMemberRole.manager)
    → may_manage r ≡ true
role-may_manage r (inl e) = rw e refl
role-may_manage r (inr e) = rw e refl

agency-May :
    (q : BudgetChangeRequest) (a : BudgetActorContext) (c : BudgetCredentialContext)
    → has_id q.client_id a.accessible_client_ids ≡ true
    → authorize_agency q a c ≡ ok tt
    → AgencyMay q a c
unfolding authorize_agency
agency-May q a c access h =
    let (g1, h1) = guard_split _ _ _ h in
    let (g2, h2) = guard_split _ _ _ h1 in
    let (g3, h3) = guard_split _ _ _ h2 in
    let (g4, h4) = guard_split _ _ _ h3 in
    let g5 = guard_last _ _ h4 in
    let (agency, requested) = some_of q.agency_id (ground arith) in
    record {
      access = has_id-In q.client_id a.accessible_client_ids access;
      agency = agency;
      requested = requested;
      selected = opt_eq-some a.selected_agency_id q.agency_id agency (ground arith) requested;
      agency_active = ground arith;
      bound = has_id-In q.client_id a.agency_bound_client_ids (ground arith);
      manages = may_manage-role a.agency_member_role (ground arith);
      scope = ground arith;
      scope_id = opt_eq-some c.scope_id q.agency_id agency (ground arith) requested;
      spend_cap = λ e. ground arith;
    }

May-agency :
    (q : BudgetChangeRequest) (a : BudgetActorContext) (c : BudgetCredentialContext)
    → AgencyMay q a c
    → authorize_agency q a c ≡ ok tt
unfolding authorize_agency
May-agency q a c m =
    let e1 = ==_self m.agency in
    let p1 = m.requested in
    let p2 = m.selected in
    let p3 = m.agency_active in
    let p4 = In-has_id q.client_id a.agency_bound_client_ids m.bound in
    let p5 = role-may_manage a.agency_member_role m.manages in
    let p6 = m.scope in
    let p7 = m.scope_id in
    let p8 = m.spend_cap in
    guard_join _ _ _ (ground arith) (
      guard_join _ _ _ (ground arith) (
        guard_join _ _ _ (ground arith)
          (guard_join _ _ _ (ground arith) (guard_end _ _ (ground arith)))))

admin-May :
    (q : BudgetChangeRequest) (a : BudgetActorContext) (c : BudgetCredentialContext)
    → authorize_admin q a c ≡ ok tt
    → AdminMay q a c
unfolding authorize_admin
admin-May q a c h =
    let (g1, h1) = guard_split _ _ _ h in
    let (g2, h2) = guard_split _ _ _ h1 in
    let g3 = guard_last _ _ h2 in
    record {
      delegated = ground arith;
      scope = ground arith;
      scope_id = ground arith;
      spend_cap = λ e. ground arith;
    }

May-admin :
    (q : BudgetChangeRequest) (a : BudgetActorContext) (c : BudgetCredentialContext)
    → AdminMay q a c
    → authorize_admin q a c ≡ ok tt
unfolding authorize_admin
May-admin q a c m =
    let p1 = m.delegated in
    let p2 = m.scope in
    let p3 = m.scope_id in
    let p4 = m.spend_cap in
    guard_join _ _ _ (ground arith) (guard_join _ _ _ (ground arith) (guard_end _ _ (ground arith)))

role-May :
    (r : ActorRole) (q : BudgetChangeRequest) (a : BudgetActorContext) (c : BudgetCredentialContext)
    → (is_admin r ≡ false → has_id q.client_id a.accessible_client_ids ≡ true)
    → authorize_role r q a c ≡ ok tt
    → RoleMay r q a c
unfolding authorize_role
role-May ActorRole.admin q a c access h = admin-May q a c h
role-May ActorRole.agency q a c access h = agency-May q a c (access refl) h
role-May ActorRole.solo_client q a c access h = solo-May q a c (access refl) h
role-May ActorRole.client q a c access h = cc (h)

May-role :
    (r : ActorRole) (q : BudgetChangeRequest) (a : BudgetActorContext) (c : BudgetCredentialContext)
    → RoleMay r q a c
    → (authorize_role r q a c ≡ ok tt)
      × ((not (is_admin r) && not (has_id q.client_id a.accessible_client_ids)) ≡ false)
unfolding authorize_role
May-role ActorRole.admin q a c m = (May-admin q a c m, refl)
May-role ActorRole.agency q a c m = (
  May-agency q a c m,
  let e = In-has_id q.client_id a.accessible_client_ids m.access in ground arith,
)
May-role ActorRole.solo_client q a c m = (
  May-solo q a c m,
  let e = In-has_id q.client_id a.accessible_client_ids m.access in ground arith,
)
May-role ActorRole.client q a c m = absurd m

authorize-May :
    (q : BudgetChangeRequest) (a : BudgetActorContext) (t : BudgetTenantContext)
    (c : BudgetCredentialContext)
    → authorize_budget_write q a t c ≡ ok tt
    → MayWrite q a t c
unfolding authorize_budget_write
authorize-May q a t c h =
    let (g1, h1) = guard_split _ _ _ h in
    let (g2, h2) = guard_split _ _ _ h1 in
    let (g3, h3) = guard_split _ _ _ h2 in
    let (g4, h4) = guard_split _ _ _ h3 in
    let (g5, h5) = guard_split _ _ _ h4 in
    let (g6, h6) = guard_split _ _ _ h5 in
    let (g7, h7) = guard_split _ _ _ h6 in
    let (g8, h8) = guard_split _ _ _ h7 in
    record {
      client = ground arith;
      account_client = ground arith;
      account = ground arith;
      client_active = ground arith;
      account_active = ground arith;
      platform = str_eq-eq _ _ (ground arith);
      credential = ground arith;
      provider = str_eq-eq _ _ (ground arith);
      status = str_eq-eq _ _ (ground arith);
      current = ground arith;
      grants = ground arith;
      role = role-May a.role q a c (λ e. ground arith) h8;
    }

May-authorize :
    (q : BudgetChangeRequest) (a : BudgetActorContext) (t : BudgetTenantContext)
    (c : BudgetCredentialContext)
    → MayWrite q a t c
    → authorize_budget_write q a t c ≡ ok tt
unfolding authorize_budget_write
May-authorize q a t c m =
    let (role, access) = May-role a.role q a c m.role in
    let p1 = m.client in
    let p2 = m.account_client in
    let p3 = m.account in
    let p4 = m.client_active in
    let p5 = m.account_active in
    let p6 = ap (λ s. str_eq s "meta") m.platform ∙ str_eq_same "meta" in
    let p7 = m.credential in
    let p8 = ap (λ s. str_eq s "meta") m.provider ∙ str_eq_same "meta" in
    let p9 = ap (λ s. str_eq s "active") m.status ∙ str_eq_same "active" in
    let p10 = m.current in
    let p11 = m.grants in
    guard_join _ _ _ (ground arith) (
      guard_join _ _ _ (ground arith) (
        guard_join _ _ _ (ground arith) (
          guard_join _ _ _ (ground arith) (
            guard_join _ _ _ (ground arith) (
              guard_join _ _ _ (ground arith)
                (guard_join _ _ _ (ground arith) (guard_join _ _ _ access role)))))))

-- A write is authorised exactly when the policy allows it: the tenant and the account are those of
-- the request and active on Meta, the credential is the request's, active, current and grants
-- ads_management, and the actor's role may: a client never, a solo owner in the own client with the
-- own credential and not the spend cap, an owner or manager of the selected active agency for a
-- bound client with the agency's credential, an admin to whom writes are delegated with a global
-- credential; the spend cap needs its own capability.
pub authorize_budget_write_iff :
    (q : BudgetChangeRequest) (a : BudgetActorContext) (t : BudgetTenantContext)
    (c : BudgetCredentialContext)
    → (authorize_budget_write q a t c ≡ ok tt) ↔ MayWrite q a t c
authorize_budget_write_iff q a t c = (authorize-May q a t c, May-authorize q a t c)
