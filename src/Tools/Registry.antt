-- ===== src/Tools/Registry.antt =====
-- src/xenopus/tools/registry.py: the catalog of tools and its quarantine. The dicts of contracts and
-- of handlers are written together, with the same keys, and are one dict of pairs here.
pub mod Catalog
use xenopus.Prelude.{
  Bool, true, false, not, ◌&&◌, Option, none, some, List, [], ◌∷◌, String, str_eq, Result, ok, err,
  any, if◌then◌else◌,
}
use xenopus.Prelude.Dict.{Dict, lookup, insert, has, empty}
use xenopus.Tools.Contracts.{ToolContract, ToolHandler}

-- `ToolQuarantine`: the set of blocked names
abbrev pub ToolQuarantine : Type 0
ToolQuarantine = List String

unfoldable pub is_quarantined : String → ToolQuarantine → Bool
is_quarantined name blocked = any (λ b. str_eq b name) blocked

unfoldable pub quarantine : String → ToolQuarantine → ToolQuarantine
unfolding is_quarantined
quarantine name blocked = if is_quarantined name blocked then blocked else name ∷ blocked

-- `set.discard`
unfoldable pub lift : String → ToolQuarantine → ToolQuarantine
lift name [] = []
lift name (b ∷ bs) = let rest = lift name bs in if str_eq b name then rest else b ∷ rest

pub record ToolRegistry (V : Type 0) (W : Type 0) : Type 0 where
  pub tools : Dict (ToolContract × ToolHandler V W)
  pub blocked : ToolQuarantine

pub data ToolRegistryError : Type 0 where
  already_registered unknown_tool is_blocked : ToolRegistryError

module _ {V : Type 0} {W : Type 0} where
  unfoldable pub new : ToolQuarantine → ToolRegistry V W
  new blocked = record { tools = empty; blocked = blocked }

  unfoldable pub register :
      ToolContract
      → ToolHandler V W
      → ToolRegistry V W
      → Result ToolRegistryError (Unit {0}) × ToolRegistry V W
  unfolding has insert
  register contract handler registry =
      if has contract.name registry.tools then (err already_registered, registry) else (
        ok tt,
        record registry { tools = insert contract.name (contract, handler) registry.tools },
      )

  abbrev pub or_unknown :
      Option (ToolContract × ToolHandler V W)
      → Result ToolRegistryError (ToolContract × ToolHandler V W)
  or_unknown none = err unknown_tool
  or_unknown (some tool) = ok tool

  unfoldable pub get :
      String → ToolRegistry V W → Result ToolRegistryError (ToolContract × ToolHandler V W)
  unfolding is_quarantined lookup
  get name registry =
      if is_quarantined name registry.blocked
      then err is_blocked
      else or_unknown (lookup name registry.tools)

  -- `ToolRegistry.has`
  unfoldable pub reachable : String → ToolRegistry V W → Bool
  unfolding is_quarantined has
  reachable name registry = has name registry.tools && not (is_quarantined name registry.blocked)
