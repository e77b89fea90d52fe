-- ===== src/SessionRunner/Registry.antt =====
-- session_runner.py: the registry that `SessionRunner.__init__` makes of its argument.
pub mod Laws
use fireviewer_orchestrator.Common.{
  String, Bool, Option, none, some, List, [], ◌∷◌, if◌then◌else◌, not,
}
use fireviewer_orchestrator.Common.Order.{◌==◌, string_ord}
use fireviewer_orchestrator.Common.Dict.{put}
use fireviewer_orchestrator.Contracts.{ModelSpec, ModelGroupSpec, StageContract}
use fireviewer_orchestrator.SessionRunner.Patches.{PipelineModelRole, role_text}

-- A value of the registry: one model, or a group of candidates.
pub data RegistryValue : Type 0 where
  single : ModelSpec → RegistryValue
  grouped : ModelGroupSpec → RegistryValue

-- The refusals of `__init__`.
pub data RegistryError : Type 0 where
  role_mismatch invalid_group unbound_contract : RegistryError

pub data Normalized : Type 0 where
  normalized : List (String × ModelGroupSpec) → Normalized
  invalid : RegistryError → Normalized

-- The group of a value. `primary` fills a group of one model with the defaults of `ModelGroupSpec`.
unfoldable pub group_of :
    (String → ModelSpec → ModelGroupSpec) → String → RegistryValue → ModelGroupSpec
group_of primary role (single spec) = primary role spec
group_of primary role (grouped group) = group

module _ (primary : String → ModelSpec → ModelGroupSpec) (validate : ModelGroupSpec → Bool) where
  -- The loop over the registry.
  unfoldable pub normalize :
      List (String × ModelGroupSpec) → List (String × RegistryValue) → Normalized
  normalize d [] = normalized d
  normalize d ((role, value) ∷ registry) =
      let group = group_of primary role value in
      let rest = normalize (put role group d) registry in
      if not (group.role == role)
      then invalid role_mismatch
      else if not (validate group)
      then invalid invalid_group
      else rest

-- The loop over `ROLE_ORDER`: each contract is bound to its role.
unfoldable pub check_bindings :
    {Cap : Type 0}
    → (PipelineModelRole → StageContract Cap)
    → List PipelineModelRole
    → Option RegistryError
check_bindings contracts [] = none
check_bindings contracts (role ∷ roles) =
    let rest = check_bindings contracts roles in
    if (contracts role).model_binding == role_text role then rest else some unbound_contract
