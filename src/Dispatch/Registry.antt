-- ===== src/Dispatch/Registry.antt =====
-- `method` and `_REGISTRY`: the handlers by method name.
use jmap_bridge.Base.{String, Option, none, some, if◌then◌else◌}
use jmap_bridge.Base.{Eq, ◌==◌, string_eq}
use jmap_bridge.Base.Dict
use jmap_bridge.Base.Dict.{Dict}

module _ {ℓ} {H : Type ℓ} ⦃same : Eq H⦄ where
  -- `@method(name)` on a handler; `none` is the `RuntimeError` of a double registration.
  unfoldable pub register : String → H → Dict String H → Option (Dict String H)
  register name handler registry = elim (Dict.get name registry) [
    | none ↦ some (Dict.put name handler registry)
    | some old ↦ if old == handler then some (Dict.put name handler registry) else none
  ]
