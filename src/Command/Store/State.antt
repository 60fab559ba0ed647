-- ===== src/Command/Store/State.antt =====
-- The dictionaries of `InMemoryBudgetCommandStore` (app/services/provider_budget_commands.py).
use Prim.Native.String.{String}
use client_dash_up.Base.{ℕ, Bool, ◌&&◌, Option, none, some, ◌==◌, if◌then◌else◌}
use client_dash_up.Base.Text.{str_eq}
use client_dash_up.Command.Types.{
  BudgetTargetType, BudgetField, BudgetChangeRequest, ProviderBudgetCommand,
}
use client_dash_up.Command.Authorize.{target_type_eq, field_eq}

-- The key of a target in `_target_quarantines`; its provider is always "meta".
pub record TargetKey : Type 0 where
  pub target_type : BudgetTargetType
  pub provider_target_id : String
  pub field : BudgetField

abbrev pub target_key : BudgetChangeRequest → TargetKey
target_key request = record {
  target_type = request.target_type;
  provider_target_id = request.provider_target_id;
  field = request.field;
}

unfoldable pub same_target : TargetKey → TargetKey → Bool
same_target a b =
    target_type_eq a.target_type b.target_type
    && str_eq a.provider_target_id b.provider_target_id
    && field_eq a.field b.field

-- The four dictionaries of the store, as their lookups.
pub record CommandStore : Type 0 where
  pub items : ℕ → Option ProviderBudgetCommand
  pub idempotency : ℕ → String → Option ℕ
  pub preview_hashes : String → Option ℕ
  pub target_quarantines : TargetKey → Option ℕ

abbrev pub empty_store : CommandStore
empty_store = record {
  items = λ _. none;
  idempotency = λ _ _. none;
  preview_hashes = λ _. none;
  target_quarantines = λ _. none;
}

-- `self._items[id] = command`
unfoldable pub put_item : ℕ → ProviderBudgetCommand → CommandStore → CommandStore
put_item id command s = record s { items = λ i. if i == id then some command else s.items i }

-- `self._idempotency[key] = id` and `self._preview_hashes[preview_hash] = id`
unfoldable pub put_keys : ProviderBudgetCommand → CommandStore → CommandStore
put_keys command s = record s {
  idempotency = λ c k.
      if c == command.request.client_id && str_eq k command.idempotency_key
      then some command.id
      else s.idempotency c k;
  preview_hashes =
      λ h. if str_eq h command.preview_hash then some command.id else s.preview_hashes h;
}

-- `self._target_quarantines[key] = id`, or `.pop(key, None)`.
unfoldable pub put_quarantine : TargetKey → Option ℕ → CommandStore → CommandStore
put_quarantine key id s = record s {
  target_quarantines = λ k. if same_target k key then id else s.target_quarantines k;
}
