-- ===== src/Compensators/Undo.antt =====
-- What the rollback of an action of the catalog does to the world.
use pherix.Base.{String, ◌≡◌, refl, ap, ◌∙◌, true, false, some, List, get, map, arith}
use pherix.Values.{Value}
use mathlib.Core.List.{Memᴰ}
use pherix.Effects.{Effect, EffectStatus, is_applied}
use pherix.Errors.{Result, ok, err}
use pherix.Adapter.{Adapter, ToolFn, ToolSpec}
use pherix.Runtime.State.{Env, State, resolve_adapter, save_effect}
use pherix.Runtime.Unwind.{
  carrier, fired, compensator_of, compensate, fire_compensator, unwind_effect, unwind_irreversible,
}
use pherix.Compensators.{Client, Pair, fits, argument, tool_of, catalog, registered_pairs}
use pherix.Compensators.Laws.{
  after, IsLeftInverse, bound-world, values_of, All-Memᴰ, IsUndone, catalog-IsUndone,
}

module _ {W : Type 0} (env : Env W) (a : Adapter W)
    (through : (c : Effect) (f : ToolFn W) (w : W) → (a.apply c f w).world ≡ (f c w).world) where
  fired-world : (e : Effect) (r : Result Value) (s : State W) → (fired env e r s).1.world ≡ s.world
  unfolding save_effect
  fired-world e (ok v) s = refl
  fired-world e (err x) s = refl

  compensator_of-some :
      (e : Effect) (name : String) (spec : ToolSpec W)
      → e.compensator ≡ some name
      → get name env.registry ≡ some spec
      → compensator_of env e ≡ some (name, spec)
  compensator_of-some e name spec names_it found = ground arith

  compensate-fires :
      (e : Effect) (name : String) (spec : ToolSpec W) (s : State W)
      → get spec.resource env.adapters ≡ some a
      → compensate env e (some (name, spec)) s ≡ fire_compensator env e name spec a s
  unfolding resolve_adapter
  compensate-fires e name spec s lane = rw (resolve_adapter, lane) refl

  unwind_effect-compensates :
      (e : Effect) (s : State W)
      → is_applied e.status ≡ true
      → e.reversible ≡ false
      → unwind_effect env e s ≡ compensate env e (compensator_of env e) s
  unfolding unwind_effect unwind_irreversible
  unwind_effect-compensates e s applied once = ground arith

  -- Rolling an applied effect back runs the tool that its compensator names, on its arguments.
  unwind_effect-world :
      (e : Effect) (s : State W) (name : String) (spec : ToolSpec W)
      → e.status ≡ EffectStatus.applied
      → e.reversible ≡ false
      → e.compensator ≡ some name
      → get name env.registry ≡ some spec
      → get spec.resource env.adapters ≡ some a
      → (unwind_effect env e s).1.world
        ≡ (spec.fn (carrier env s.txn.txn_id e name spec) s.world).world
  unwind_effect-world e s name spec applied once names_it found lane =
      let c = carrier env s.txn.txn_id e name spec in
      let r = a.apply c spec.fn s.world in
      ap (λ x. x.1.world)
        (unwind_effect-compensates e s (ap is_applied applied) once
          ∙ ap (λ o. compensate env e o s) (compensator_of-some e name spec names_it found)
          ∙ compensate-fires e name spec s lane)
      ∙ fired-world e r.result (record s { world = r.world })
      ∙ through c spec.fn s.world

module _ {W : Type 0} (client : Client W) (Ready : String → List Value → W → Type 0)
    (laws : IsLeftInverse client Ready) (env : Env W) (a : Adapter W)
    (through : (c : Effect) (f : ToolFn W) (w : W) → (a.apply c f w).world ≡ (f c w).world)
    (has : env.registry ≡ registered_pairs client catalog) (p : Pair) (known : Memᴰ p catalog)
    (lane : get p.inverse.resource env.adapters ≡ some a) where
  -- The methods of the client undo each other as the factories ask of it, the whole catalog is
  -- registered, and an adapter that runs a tool as it is serves the resource of the pair. Then the
  -- rollback of an applied effect of an action of the catalog, in the world that the action has made
  -- on the effect's arguments, gives back the world before it, in which the action was ready.
  pub catalog_undoes :
      (e : Effect) (s : State W) (w : W)
      → e.status ≡ EffectStatus.applied
      → e.reversible ≡ false
      → e.compensator ≡ p.action.compensator
      → fits p.action.params e.args ≡ true
      → Ready p.action.name (values_of p.action.params e.args) w
      → s.world ≡ ((tool_of client p.action).fn e w).world
      → (unwind_effect env e s).1.world ≡ w
  unfolding pherix.Effects.new_effect
  catalog_undoes e s w applied once names_it fit ready ran =
      let (named, same, tool, back) =
        All-Memᴰ (IsUndone client Ready) p catalog (catalog-IsUndone client Ready laws) known in
      let c = carrier env s.txn.txn_id e p.inverse.name (tool_of client p.inverse) in
      let binds : fits p.inverse.params e.args ≡ true = ap (λ ps. fits ps e.args) same ∙ fit in
      unwind_effect-world env a through e s p.inverse.name (tool_of client p.inverse) applied once
        (names_it ∙ named) (ap (get p.inverse.name) has ∙ tool) lane
      ∙ bound-world client p.inverse c s.world binds
      ∙ ap (after client p.inverse.method (map (argument p.inverse.params e.args) p.inverse.passes))
          (ran ∙ bound-world client p.action e w fit)
      ∙ back e.args w ready
