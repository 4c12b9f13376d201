-- ===== src/Replay/Rows.antt =====
-- The rows that a replay loads, against the rows of the journal.
use pherix.Base.{String, ◌≡◌, List, [], ◌∷◌, All, get, some, arith}
use pherix.Adapter.{Adapter, ToolSpec}
use pherix.Runtime.State.{Env}
use pherix.Replay.Walk.{lookup_tool, adapter_for}
use pherix.Errors.{ok, and_then-ok}
use pherix.Audit.{Audit, EffectRow}
use pherix.Replay.Source.{
  Codec, get_effects, decode_args, decode_result, load_source_effect, load_source_effects,
}
use pherix.Replay.{load_rows, source_rows}

pub load_source_effect-same :
    (codec : Codec) (row src : EffectRow)
    → load_source_effect codec row ≡ ok src
    → (src.tool ≡ row.tool) × (src.resource ≡ row.resource) × (src.reversible ≡ row.reversible)
unfolding load_source_effect
load_source_effect-same codec row src read =
    let (args, _, read') = and_then-ok (decode_args codec row.args) _ src read in
    let (result, _, done) = and_then-ok (decode_result codec row.result) _ src read' in (cc, cc, cc)

module _ {W : Type 0} (env : Env W) (src : EffectRow) where
  pub lookup_tool-ok :
      (spec : ToolSpec W)
      → lookup_tool env src.tool ≡ ok spec
      → get src.tool env.registry ≡ some spec
  unfolding lookup_tool
  lookup_tool-ok spec h = ground arith

  pub adapter_for-ok :
      (a : Adapter W) → adapter_for env src ≡ ok a → get src.resource env.adapters ≡ some a
  unfolding adapter_for
  adapter_for-ok a h = ground arith

module _ (codec : Codec) (P : EffectRow → Type 0)
    (loaded : (row src : EffectRow) → load_source_effect codec row ≡ ok src → P row → P src) where
  load-All :
      (rows effects : List EffectRow)
      → load_source_effects codec rows ≡ ok effects
      → All P rows
      → All P effects
  unfolding load_source_effects
  load-All [] effects read ps = let none_left : effects ≡ [] = cc in rw none_left tt
  load-All (row ∷ rows) effects read (p, ps) =
      let (src, first, read') = and_then-ok (load_source_effect codec row) _ effects read in
      let (rest, others, done) = and_then-ok (load_source_effects codec rows) _ effects read' in
      let parts : effects ≡ src ∷ rest = cc in
      rw parts (loaded row src first p, load-All rows rest others ps)

  pub rows-All :
      (txn_id : String) (source : Audit) (effects : List EffectRow)
      → source_rows codec txn_id source ≡ ok effects
      → All P (get_effects txn_id source)
      → All P effects
  rows-All txn_id source effects read ps = from (get_effects txn_id source) read ps
    where
      from :
          (rows : List EffectRow)
          → load_rows codec txn_id rows ≡ ok effects
          → All P rows
          → All P effects
      from [] read ps = cc
      from (row ∷ rows) read ps = load-All (row ∷ rows) effects read ps
