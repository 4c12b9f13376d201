-- ===== src/Replay/Lanes.antt =====
-- The walk of a replay and its rollback, with adapters that keep the promises of `Contract`.
use pherix.Base.{
  ◌≡◌, refl, sym, ap, subst, ◌∙◌, Bool, true, false, none, some, List, [], ◌∷◌, ◌++◌, All, get,
  reverse, pos, length, arith, Option-cases, inl, inr, if◌then◌else◌,
}
use pherix.Effects.{Effect, Outcome}
use pherix.Errors.{Result, ok, lift, modify, pure, ◌>>=◌, ◌>>◌, >>=-after, >>-run}
use pherix.Transaction.{TxnState, add_effect, is_open}
use pherix.Adapter.{Adapter, ToolSpec, unique}
use pherix.Audit.{EffectRow, record_effect}
use pherix.Runtime.State.{
  Env, State, on_world, on_txn, on_audit, set_effect, each_transactional, move_to,
}
use pherix.Runtime.Record.{run_live, journalled}
use pherix.Runtime.Keeps.{All-unique}
use pherix.Runtime.Restore.{
  Contract, Honours, Stays, Chain, Chain-Grows, Link, each-Stays, move_back, on_world-run,
}
use pherix.Runtime.Restore.Calls.{
  Live, Live-same, Longer, Longer-set, bare-Live, run_live-Live, reads-Live, journalled-Longer,
  open_state,
}
use pherix.Replay.Rows.{lookup_tool-ok, adapter_for-ok}
use pherix.Replay.Source.{Codec}
use pherix.Replay.Walk.{
  Mode, Replaying, EffectOutcome, on_run, effect_for, reused, reused_outcome, check, lookup_tool,
  handle_irreversible, run_reversible, judge, adapter_for, replay_reversible, replay_irreversible,
  replay_effect, walk_source, add_outcome, add_divergence,
}
use pherix.Replay.{restore_from, restore_through, restore_one, restore_all, finalise_rollback}

-- The tool of a row of the reversible lane works on the row's resource, which can be rolled back.
abbrev pub Matches : {W : Type 0} → Env W → EffectRow → Type 0
Matches env src =
    src.reversible ≡ true
    → (spec : ToolSpec _) (a : Adapter _) → get src.tool env.registry ≡ some spec
    → get src.resource env.adapters ≡ some a
    → (spec.resource ≡ src.resource) × (a.supports_rollback ≡ true)

run-outcome :
    {W : Type 0} (o : EffectOutcome) (s : Replaying W)
    → (add_outcome o (add_divergence o s)).run ≡ s.run
run-outcome o s = ground arith

module _ {W X : Type 0} (c : Contract W X) (start : X) (env : Env W)
    (honest : Honours c start env) where
  abbrev IsLive : State W → Type 0
  IsLive = Live c start env

  abbrev RunLive : Replaying W → Type 0
  RunLive s = IsLive s.run

  restore_through-back :
      (e : Effect) (es : List Effect) (y : X) (s : State W)
      → Chain c start env y s.world (e ∷ es)
      → c.At y s.world
      → (x : X) × (s' : State W) × (restore_one env e s ≡ (ok tt, s'))
        × c.At x s'.world
        × (s'.txn ≡ s.txn)
        × Chain c start env x s'.world es
  restore_through-back e es y s chain here = elim (Option-cases e.snapshot) [
    | inl bare ↦
        (y, s, ap (λ o. restore_from env e.resource o s) bare, here, refl, rw bare at chain)
    | inr (h, with_h) ↦
        let (x, a, found, held, before) : Link c start env (some h) e.resource y s.world
            (λ x. Chain c start env x s.world es) =
          rw with_h at chain in
        let (w', back, looks, grows) = honest.restore e.resource a x y s.world h found held here in
        (
          x,
          record s { world = w' },
          ap (λ o. restore_from env e.resource o s) with_h
              ∙ ap (λ o. restore_through env e.resource h o s) found
              ∙ on_world-run c start env (a.restore h) s w' tt back,
          looks,
          refl,
          Chain-Grows c start env x s.world w' es grows before,
        )
  ]

  restore_all-start :
      (es : List Effect) (y : X) (s : State W)
      → Chain c start env y s.world es
      → c.At y s.world
      → (s' : State W) × (restore_all env es s ≡ (ok tt, s'))
        × c.At start s'.world
        × (s'.txn ≡ s.txn)
  unfolding restore_all
  restore_all-start [] y s chain here = (s, refl, subst (λ x. c.At x s.world) chain here, refl)
  restore_all-start (e ∷ es) y s chain here =
      let (x, t, first, there, same, before) = restore_through-back e es y s chain here in
      let (s', rest, done, same') = restore_all-start es x t before there in
      (s', >>-run (restore_one env e) (restore_all env es) s t tt first ∙ rest, done, same' ∙ same)

  pub finalise_rollback-start :
      (s : State W)
      → IsLive s
      → (s' : State W) × (finalise_rollback env s ≡ (ok tt, s')) × c.At start s'.world
  unfolding finalise_rollback
  finalise_rollback-start s live =
      let u = live.undoable in
      let (t, restored, looks, same) =
        restore_all-start (reverse s.txn.effects) u.latest s u.chain u.looks in
      let (w', rolled, there) =
        each-Stays c start env (λ a. a.rollback_txn) (unique env.adapters)
          (All-unique (λ a. Stays c start a.rollback_txn) [] env.adapters honest.rolls_back) t.world
          looks in
      let v : State W = record t { world = w' } in
      let opened : is_open v.txn.state ≡ true =
        rw same (open_state c start env honest s live.opened) in
      let (s', moved, kept_world, state_is) = move_back c start env v opened in
      (
        s',
        >>-run (λ s. restore_all env (reverse s.txn.effects) s) _ s t tt restored
            ∙ >>-run (on_world (each_transactional (λ a. a.rollback_txn) (unique env.adapters)))
                (move_to TxnState.rolled_back) t v tt
                (on_world-run c start env
                  (each_transactional (λ a. a.rollback_txn) (unique env.adapters)) t w' tt rolled)
            ∙ moved,
        rw kept_world there,
      )

  -- The part of the irreversible lane before the row is written.
  added :
      (e : Effect) (s : State W)
      → e.index ≡ pos (length s.txn.effects)
      → IsLive s
      → (t : State W) × (on_txn (add_effect e) s ≡ (ok tt, t))
        × Longer c start env s t e
        × (t.world ≡ s.world)
  unfolding add_effect
  added e s at_end live =
      let opened : is_open s.txn.state ≡ true = open_state c start env honest s live.opened in
      let t : State W = record s { txn = record s.txn { effects = s.txn.effects ++ e ∷ [] } } in
      (
        t,
        rw (opened, add_effect) refl,
        record {
          at_end = at_end;
          effects_are = refl;
          same_state = refl;
          same_finished = refl;
          same_pending = refl;
        },
        refl,
      )

  reused-bare : (src : EffectRow) (e : Effect) → e.snapshot ≡ none → (reused src e).snapshot ≡ none
  reused-bare src e bare = ground arith

  reused-index : (src : EffectRow) (e : Effect) → (reused src e).index ≡ e.index
  reused-index src e = ground arith

  handle-Live :
      (src : EffectRow) (s : State W) → IsLive s → IsLive (handle_irreversible env src s).1
  unfolding handle_irreversible
  handle-Live src s live =
      let e = effect_for env src false none s in
      let (t, first, longer, same) = added e s refl live in
      let u = live.undoable in
      let v = set_effect (reused src e) t in
      let live_v =
        bare-Live c start env s v (reused src e) u.latest live
          (Longer-set c start env s t e (reused src e) live longer (reused-index src e))
          (reused-bare src e refl) (rw same u.looks) (rw same u.chain) in
      let live_r =
        Live-same c start env v (on_audit (record_effect (reused src e)) v) refl refl refl refl
          live_v in
      subst (λ (r : Result EffectOutcome × State W). IsLive r.1)
        (sym (
          >>-run (on_txn (add_effect e))
            (modify (set_effect (reused src e))
              >> (modify (on_audit (record_effect (reused src e))) >> pure (reused_outcome src e)))
            s t tt first))
        live_r

  reversible-Live :
      (a : Adapter W) (src : EffectRow) (s : State W)
      → get src.resource env.adapters ≡ some a
      → src.reversible ≡ true
      → Matches env src
      → IsLive s
      → IsLive (run_reversible env a src s).1
  unfolding run_reversible
  reversible-Live a src s found lane matched live =
      reads-Live c start env honest (lift (check env.policy src.tool)) _ s refl live λ _ _.
        reads-Live c start env honest (lift (lookup_tool env src.tool)) _ s refl live λ spec known.
          let (works, can) = matched lane spec a (lookup_tool-ok env src spec known) found in
          let e = effect_for env src true spec.compensator s in
          let (journal, longer, same) = journalled-Longer c start env honest s e refl live in
          let t = (journalled e s).1 in
          let u = live.undoable in
          let ran =
            run_live-Live c start env honest src.tool spec s t e a u.latest live longer (sym works)
              refl (lookup_tool-ok env src spec known) (rw works found) can (rw same u.looks)
              (rw same u.chain) in
          subst (λ (r : Result (Effect × Outcome) × State W). IsLive r.1)
            (sym (
              >>-run (journalled e) (run_live a spec e >>= λ result. pure (e, result)) s t tt
                journal))
            (>>=-after IsLive (run_live a spec e) (λ result. pure (e, result)) t ran (λ _ _. ran))

  effect-Live :
      (codec : Codec) (mode : Mode) (src : EffectRow) (s : Replaying W)
      → Matches env src
      → IsLive s.run
      → IsLive (replay_effect env codec mode src s).1.run
  unfolding replay_effect
  effect-Live codec mode src s matched live =
      >>=-after RunLive (lift (adapter_for env src)) _ s live
        λ a known. lane a (adapter_for-ok env src a known) src.reversible refl
    where
      lane :
          (a : Adapter W)
          → get src.resource env.adapters ≡ some a
          → (b : Bool) → src.reversible ≡ b
          → RunLive
              (if b
                then replay_reversible env codec mode a src s
                else replay_irreversible env codec src s).1
      lane a found true is_reversible =
          let ran = reversible-Live a src s.run found is_reversible matched live in
          >>=-after RunLive (on_run (run_reversible env a src)) _ s ran λ result _.
            >>=-after RunLive (lift (judge codec mode src result)) _
              (on_run (run_reversible env a src) s).1 ran
              λ o _. rw (run-outcome o (on_run (run_reversible env a src) s).1) ran
      lane a found false is_irreversible =
          let handled = handle-Live src s.run live in
          >>=-after RunLive (on_run (handle_irreversible env src)) _ s handled λ o _. handled

  pub walk-Live :
      (codec : Codec) (mode : Mode) (source : List EffectRow) (s : Replaying W)
      → All (Matches env) source
      → IsLive s.run
      → IsLive (walk_source env codec mode source s).1.run
  unfolding walk_source
  walk-Live codec mode [] s matched live = live
  walk-Live codec mode (src ∷ source) s (here, matched) live =
      let first = effect-Live codec mode src s here live in
      >>=-after RunLive (replay_effect env codec mode src) (λ _. walk_source env codec mode source)
        s first
        (λ _ _. walk-Live codec mode source (replay_effect env codec mode src s).1 matched first)
