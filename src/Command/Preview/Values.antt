-- ===== src/Command/Preview/Values.antt =====
-- The values of the documents of a preview (app/services/provider_budget_commands.py) are told apart by
-- how they are written.
use Prim.Native.String.{String}
use client_dash_up.Base.Text.{str_eq}
use client_dash_up.Base.{
  ◌∙◌, if◌then◌else◌, List, ◌≡◌, ◌≢◌, sym, refl, ap, Option, none, some, ◌∷◌, [],
}
use client_dash_up.Command.Types.{ActorRole, AgencyMemberRole, BudgetTargetType, BudgetField}
use client_dash_up.Command.Snapshots.{Json, or_null, actor_role_value, agency_member_role_value}
use client_dash_up.Command.Preview.Payloads.{target_type_value, field_value, nullable}

-- The value that a text names.
abbrev named : {A : Type 0} → List (String × A) → String → Option A
named [] s = none
named ((t, a) ∷ names) s = let rest = named names s in if str_eq s t then some a else rest

some_injective : {A : Type 0} {a b : A} → some a ≡ some b → a ≡ b
some_injective h = cc (h)

abbrev read_target_type_value : String → Option BudgetTargetType
read_target_type_value = named (
    ("campaign", BudgetTargetType.campaign)
    ∷ ("ad_set", BudgetTargetType.ad_set)
    ∷ ("account", BudgetTargetType.account)
    ∷ [])

target_type_value-read :
    (a : BudgetTargetType) → read_target_type_value (target_type_value a) ≡ some a
target_type_value-read BudgetTargetType.campaign = refl
target_type_value-read BudgetTargetType.ad_set = refl
target_type_value-read BudgetTargetType.account = refl

pub target_type_value-injective :
    (a b : BudgetTargetType) → target_type_value a ≡ target_type_value b → a ≡ b
target_type_value-injective a b h =
    some_injective
      (sym (target_type_value-read a) ∙ ap read_target_type_value h ∙ target_type_value-read b)

abbrev read_field_value : String → Option BudgetField
read_field_value = named (
    ("daily_budget", BudgetField.daily_budget)
    ∷ ("lifetime_budget", BudgetField.lifetime_budget)
    ∷ ("spend_cap", BudgetField.spend_cap)
    ∷ [])

field_value-read : (a : BudgetField) → read_field_value (field_value a) ≡ some a
field_value-read BudgetField.daily_budget = refl
field_value-read BudgetField.lifetime_budget = refl
field_value-read BudgetField.spend_cap = refl

pub field_value-injective : (a b : BudgetField) → field_value a ≡ field_value b → a ≡ b
field_value-injective a b h =
    some_injective (sym (field_value-read a) ∙ ap read_field_value h ∙ field_value-read b)

abbrev read_actor_role_value : String → Option ActorRole
read_actor_role_value = named (
    ("admin", ActorRole.admin)
    ∷ ("agency", ActorRole.agency)
    ∷ ("client", ActorRole.client)
    ∷ ("solo_client", ActorRole.solo_client)
    ∷ [])

actor_role_value-read : (a : ActorRole) → read_actor_role_value (actor_role_value a) ≡ some a
actor_role_value-read ActorRole.admin = refl
actor_role_value-read ActorRole.agency = refl
actor_role_value-read ActorRole.client = refl
actor_role_value-read ActorRole.solo_client = refl

actor_role_value-injective : (a b : ActorRole) → actor_role_value a ≡ actor_role_value b → a ≡ b
actor_role_value-injective a b h =
    some_injective
      (sym (actor_role_value-read a) ∙ ap read_actor_role_value h ∙ actor_role_value-read b)

abbrev read_agency_member_role_value : String → Option AgencyMemberRole
read_agency_member_role_value = named (
    ("owner", AgencyMemberRole.owner)
    ∷ ("manager", AgencyMemberRole.manager)
    ∷ ("member", AgencyMemberRole.member)
    ∷ [])

agency_member_role_value-read :
    (a : AgencyMemberRole) → read_agency_member_role_value (agency_member_role_value a) ≡ some a
agency_member_role_value-read AgencyMemberRole.owner = refl
agency_member_role_value-read AgencyMemberRole.manager = refl
agency_member_role_value-read AgencyMemberRole.member = refl

agency_member_role_value-injective :
    (a b : AgencyMemberRole) → agency_member_role_value a ≡ agency_member_role_value b → a ≡ b
agency_member_role_value-injective a b h = some_injective (
    sym (agency_member_role_value-read a)
    ∙ ap read_agency_member_role_value h
    ∙ agency_member_role_value-read b)

-- A way to write values that tells them apart and never writes `null`.
pub record Tells {A : Type 0} (f : A → Json) : Type 0 where
  pub apart : (a b : A) → f a ≡ f b → a ≡ b
  pub given : (a : A) → f a ≢ Json.null

pub or_null-injective :
    {A : Type 0} (f : A → Json) → Tells f → (a b : Option A) → or_null f a ≡ or_null f b → a ≡ b
or_null-injective f t none none h = refl
or_null-injective f t none (some b) h = absurd (t.given b (sym h))
or_null-injective f t (some a) none h = absurd (t.given a h)
or_null-injective f t (some a) (some b) h = ap some (t.apart a b h)

pub nullable-injective :
    {A : Type 0} (f : A → Json) → Tells f → (a b : Option A) → nullable f a ≡ nullable f b → a ≡ b
nullable-injective f t none none h = refl
nullable-injective f t none (some b) h = absurd (t.given b (sym h))
nullable-injective f t (some a) none h = absurd (t.given a h)
nullable-injective f t (some a) (some b) h = ap some (t.apart a b h)

pub uuid-Tells : Tells Json.uuid
uuid-Tells = record { apart = λ a b h. cc (h); given = λ a h. cc (h) }

pub bool-Tells : Tells Json.bool
bool-Tells = record { apart = λ a b h. cc (h); given = λ a h. cc (h) }

pub number-Tells : Tells Json.number
number-Tells = record { apart = λ a b h. cc (h); given = λ a h. cc (h) }

pub instant-Tells : Tells Json.instant
instant-Tells = record { apart = λ a b h. cc (h); given = λ a h. cc (h) }

pub text-Tells : Tells Json.text
text-Tells = record { apart = λ a b h. cc (h); given = λ a h. cc (h) }

pub actor_role-Tells : Tells (λ r. Json.text (actor_role_value r))
actor_role-Tells = record {
  apart = λ a b h. actor_role_value-injective a b (cc (h));
  given = λ a h. cc (h);
}

pub agency_member_role-Tells : Tells (λ r. Json.text (agency_member_role_value r))
agency_member_role-Tells = record {
  apart = λ a b h. agency_member_role_value-injective a b (cc (h));
  given = λ a h. cc (h);
}

pub texts-Tells : Tells Json.texts
texts-Tells = record { apart = λ a b h. cc (h); given = λ a h. cc (h) }
