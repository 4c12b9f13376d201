-- ===== src/Replay/Reuse.antt =====
-- What a replay does to the outside world: no tool runs for a row of the irreversible lane.
use pherix.Base.{
  String, ◌≡◌, refl, sym, ◌∙◌, Bool, true, false, Option, none, some, List, [], ◌∷◌, Dict, All, get,
  arith, reverse, if◌then◌else◌,
}
use pherix.Values.{Snapshot}
use pherix.Effects.{Effect}
use pherix.Errors.{Result, ok, err, Exec, Conflict, lift, gets, modify, pure, raise}
use pherix.Transaction.{TxnState, add_effect}
use pherix.Adapter.{Adapter, ToolSpec, Run, unique}
use pherix.Audit.{Audit, EffectRow}
use pherix.Runtime.State.{Env, State, save_effect, set_effect, on_world, each_transactional}
use pherix.Runtime.Record.{run_live, apply_effect, journalled, settle}
use pherix.Runtime.Keeps.{
  Keeps, InWorld, Keeps-bind, Keeps-then, Keeps-lift, Keeps-from, Keeps-gets, Keeps-modify,
  Keeps-on_world, Keeps-move_to, Keeps-each, All-get, All-unique,
}
use pherix.Isolation.{check_conflicts}
use pherix.Replay.Rows.{load_source_effect-same, rows-All, lookup_tool-ok, adapter_for-ok}
use pherix.Replay.Source.{get_effects, Codec, load_source_effect}
use pherix.Replay.Walk.{
  check, Mode, verify, reconstruct, Replaying, diverged, failure, EffectOutcome, on_run,
  add_outcome, add_divergence, handle_irreversible, run_reversible, lookup_tool, adapter_for, judge,
  replay_reversible, replay_irreversible, replay_effect, walk_source, effect_for,
}
use pherix.Replay.{
  restore_one, restore_from, restore_through, restore_all, note_conflicts, source_rows,
  report_divergence, finalise_commit, finalise_rollback, close_replay, catch_failure, replay_block,
  replay_bracket, replay,
}

-- The adapter's own actions keep `P`: it takes a run of a tool to break it.
pub record IsQuiet {W : Type 0} (P : W → Type 0) (a : Adapter W) : Type 0 where
  pub snapshot : (e : Effect) (w : W) → P w → P (a.snapshot e w).1
  pub restore : (h : Snapshot) (w : W) → P w → P (a.restore h w).1
  pub begins : (w : W) → P w → P (a.begin_txn w).1
  pub commits : (w : W) → P w → P (a.commit_txn w).1
  pub rolls_back : (w : W) → P w → P (a.rollback_txn w).1

-- If the row is of the reversible lane, a run of its tool keeps `P`.
abbrev pub RunKeeps : {W : Type 0} → (W → Type 0) → Env W → EffectRow → Type 0
RunKeeps P env src =
    src.reversible ≡ true
    → (spec : ToolSpec _) (a : Adapter _) (e : Effect) (w : _)
    → get src.tool env.registry ≡ some spec
    → get src.resource env.adapters ≡ some a
    → P w
    → P (a.apply e spec.fn w).world

abbrev InRun : {W : Type 0} → (W → Type 0) → Replaying W → Type 0
InRun P s = P s.run.world

module _ {W : Type 0} (P : W → Type 0) where
  Keeps-on_run :
      {A : Type 0} (m : Exec (State W) A) → Keeps (InWorld P) m → Keeps (InRun P) (on_run m)
  Keeps-on_run m k = record { at = λ s p. k.at s.run p }

module _ {W : Type 0} where
  world-settle : (e : Effect) (r : Run W) (s : State W) → (settle e r s).1.world ≡ s.world
  unfolding save_effect
  world-settle e r s = ground arith

  world-handle :
      (env : Env W) (src : EffectRow) (s : State W)
      → (handle_irreversible env src s).1.world ≡ s.world
  unfolding handle_irreversible
  world-handle env src s = ground arith

  world-outcome :
      (o : EffectOutcome) (s : Replaying W)
      → (add_outcome o (add_divergence o s)).run.world ≡ s.run.world
  world-outcome o s = ground arith

  world-note :
      (mode : Mode) (ks : List Conflict) (s : Replaying W)
      → (note_conflicts mode ks s).run.world ≡ s.run.world
  world-note verify [] s = refl
  world-note verify (k ∷ ks) s = refl
  world-note reconstruct ks s = refl

  world-journalled : (e : Effect) (s : State W) → (journalled e s).1.world ≡ s.world
  unfolding add_effect
  world-journalled e s = ground arith

module _ {W : Type 0} (P : W → Type 0) (env : Env W)
    (quiet : All (λ (e : String × Adapter W). IsQuiet P e.1) env.adapters) where
  Keeps-apply :
      (a : Adapter W) (spec : ToolSpec W) (e : Effect)
      → ((e : Effect) (w : W) → P w → P (a.apply e spec.fn w).world)
      → Keeps (InWorld P) (apply_effect a spec e)
  unfolding apply_effect
  Keeps-apply a spec e runs = record {
    at = λ s p.
        let r = a.apply e spec.fn s.world in
        rw (world-settle e r (record s { world = r.world })) (runs e s.world p);
  }

  Keeps-run_live :
      (a : Adapter W) (spec : ToolSpec W) (e : Effect)
      → IsQuiet P a
      → ((e : Effect) (w : W) → P w → P (a.apply e spec.fn w).world)
      → Keeps (InWorld P) (run_live a spec e)
  unfolding run_live
  Keeps-run_live a spec e q runs =
      Keeps-bind (on_world (a.snapshot e)) _
        (Keeps-on_world P (a.snapshot e) (record { at = q.snapshot e }))
        λ handle.
          Keeps-then (modify (set_effect (record e { snapshot = some handle }))) _
            (Keeps-modify P _ (λ s. refl)) (Keeps-apply a spec _ runs)

  Keeps-run_reversible :
      (a : Adapter W) (src : EffectRow)
      → IsQuiet P a
      → get src.resource env.adapters ≡ some a
      → src.reversible ≡ true
      → RunKeeps P env src
      → Keeps (InWorld P) (run_reversible env a src)
  unfolding run_reversible
  Keeps-run_reversible a src q found lane runs =
      Keeps-then (lift (check env.policy src.tool)) _ (Keeps-lift (check env.policy src.tool)) (
        Keeps-from (lookup_tool env src.tool) _ λ spec known.
          Keeps-bind (gets (effect_for env src true spec.compensator)) _
            (Keeps-gets (effect_for env src true spec.compensator))
            λ e.
              Keeps-then (journalled e) _ (record { at = λ s p. rw (world-journalled e s) p })
                (Keeps-bind (run_live a spec e) (λ result. pure (e, result))
                  (Keeps-run_live a spec e q
                    (λ e w p. runs lane spec a e w (lookup_tool-ok env src spec known) found p))
                  λ result. record { at = λ s p. p }))

  Keeps-effect :
      (codec : Codec) (mode : Mode) (src : EffectRow)
      → RunKeeps P env src
      → Keeps (InRun P) (replay_effect env codec mode src)
  unfolding replay_effect
  Keeps-effect codec mode src runs = Keeps-from (adapter_for env src) _ λ a known.
      let found = adapter_for-ok env src a known in
      if-Keeps src.reversible (replay_reversible env codec mode a src)
        (replay_irreversible env codec src)
        (λ lane.
          Keeps-bind (on_run (run_reversible env a src)) _
            (Keeps-on_run P (run_reversible env a src) (
              Keeps-run_reversible a src
                (All-get (IsQuiet P) env.adapters src.resource a quiet found) found lane runs))
            λ ran.
              Keeps-bind (lift (judge codec mode src ran)) _ (Keeps-lift (judge codec mode src ran))
                λ o. record { at = λ s p. rw (world-outcome o s) p })
        (λ _.
          Keeps-bind (on_run (handle_irreversible env src)) _
            (Keeps-on_run P (handle_irreversible env src)
              (record { at = λ s p. rw (world-handle env src s) p }))
            λ o. record { at = λ s p. p })
    where
      if-Keeps :
          (b : Bool) (m k : Exec (Replaying W) (Unit {0}))
          → (b ≡ true → Keeps (InRun P) m)
          → (b ≡ false → Keeps (InRun P) k)
          → Keeps (InRun P) (λ s. if b then m s else k s)
      if-Keeps true m k yes_case no_case = yes_case refl
      if-Keeps false m k yes_case no_case = no_case refl

  Keeps-walk :
      (codec : Codec) (mode : Mode) (source : List EffectRow)
      → All (RunKeeps P env) source
      → Keeps (InRun P) (walk_source env codec mode source)
  unfolding walk_source
  Keeps-walk codec mode [] runs = record { at = λ s p. p }
  Keeps-walk codec mode (src ∷ source) (run, runs) =
      Keeps-then (replay_effect env codec mode src) (walk_source env codec mode source)
        (Keeps-effect codec mode src run) (Keeps-walk codec mode source runs)

  Keeps-restore_one : (e : Effect) → Keeps (InWorld P) (restore_one env e)
  Keeps-restore_one e = from e.snapshot
    where
      through :
          (h : Snapshot) (o : Option (Adapter W))
          → get e.resource env.adapters ≡ o
          → Keeps (InWorld P) (restore_through env e.resource h o)
      through h none unknown = record { at = λ s p. p }
      through h (some a) found =
          let q = All-get (IsQuiet P) env.adapters e.resource a quiet found in
          Keeps-on_world P (a.restore h) (record { at = q.restore h })

      from : (o : Option Snapshot) → Keeps (InWorld P) (restore_from env e.resource o)
      from none = record { at = λ s p. p }
      from (some h) = through h (get e.resource env.adapters) refl

  Keeps-restore_all : (es : List Effect) → Keeps (InWorld P) (restore_all env es)
  unfolding restore_all
  Keeps-restore_all [] = record { at = λ s p. p }
  Keeps-restore_all (e ∷ es) =
      Keeps-then (restore_one env e) (restore_all env es) (Keeps-restore_one e)
        (Keeps-restore_all es)

  Keeps-bracket :
      (op : Adapter W → Exec W (Unit {0}))
      → ((a : Adapter W) → IsQuiet P a → Keeps P (op a))
      → Keeps (InWorld P) (on_world (each_transactional op (unique env.adapters)))
  Keeps-bracket op k = Keeps-on_world P (each_transactional op (unique env.adapters)) (
      Keeps-each P op (unique env.adapters)
        (All-unique (λ a. Keeps P (op a)) [] env.adapters (each env.adapters quiet)))
    where
      each :
          (adapters : Dict (Adapter W))
          → All (λ (e : String × Adapter W). IsQuiet P e.1) adapters
          → All (λ (e : String × Adapter W). Keeps P (op e.1)) adapters
      each [] q = tt
      each (e ∷ adapters) (q, qs) = (k e.1 q, each adapters qs)

  Keeps-finalise_rollback : Keeps (InWorld P) (finalise_rollback env)
  unfolding finalise_rollback
  Keeps-finalise_rollback =
      Keeps-then (λ s. restore_all env (reverse s.txn.effects) s) _
        (record { at = λ s p. (Keeps-restore_all (reverse s.txn.effects)).at s p })
        (Keeps-then (on_world (each_transactional (λ a. a.rollback_txn) (unique env.adapters))) _
          (Keeps-bracket (λ a. a.rollback_txn) (λ a q. record { at = q.rolls_back }))
          (Keeps-move_to P TxnState.rolled_back))

  Keeps-finalise_commit : Keeps (InWorld P) (finalise_commit env)
  unfolding finalise_commit
  Keeps-finalise_commit =
      Keeps-then (on_world (each_transactional (λ a. a.commit_txn) (unique env.adapters))) _
        (Keeps-bracket (λ a. a.commit_txn) (λ a q. record { at = q.commits }))
        (Keeps-move_to P TxnState.committed)

  Keeps-close : (divergences : List EffectOutcome) → Keeps (InRun P) (close_replay env divergences)
  Keeps-close [] = Keeps-on_run P (finalise_commit env) Keeps-finalise_commit
  Keeps-close (o ∷ os) =
      Keeps-then (modify (λ (s : Replaying W). record s { status = diverged })) _
        (record { at = λ s p. p }) (Keeps-on_run P (finalise_rollback env) Keeps-finalise_rollback)

  Keeps-catch : (r : Result (Unit {0})) → Keeps (InRun P) (catch_failure env r)
  Keeps-catch (ok _) = record { at = λ s p. p }
  Keeps-catch (err x) =
      Keeps-then (modify (λ (s : Replaying W). record s { status = failure })) _
        (record { at = λ s p. p })
        (Keeps-then (on_run (finalise_rollback env)) (raise x)
          (Keeps-on_run P (finalise_rollback env) Keeps-finalise_rollback)
          (record { at = λ s p. p }))

  Keeps-block :
      (codec : Codec) (mode : Mode) (source : List EffectRow)
      → All (RunKeeps P env) source
      → Keeps (InRun P) (replay_block env codec mode source)
  unfolding replay_block
  Keeps-block codec mode source runs =
      Keeps-then (walk_source env codec mode source) _ (Keeps-walk codec mode source runs) (
        Keeps-bind
          (λ (s : Replaying W). (check_conflicts s.run.txn.effects env.adapters s.run.world, s)) _
          (record { at = λ s p. p })
          λ conflicts.
            Keeps-then (modify (note_conflicts mode conflicts))
              (λ s. close_replay env s.divergences s)
              (record { at = λ s p. rw (world-note mode conflicts s) p })
              (record { at = λ s p. (Keeps-close s.divergences).at s p }))

  load-RunKeeps :
      (codec : Codec) (row src : EffectRow)
      → load_source_effect codec row ≡ ok src
      → RunKeeps P env row
      → RunKeeps P env src
  load-RunKeeps codec row src read runs lane spec a e w known found p =
      let (same_tool, same_resource, same_lane) = load_source_effect-same codec row src read in
      runs (sym same_lane ∙ lane) spec a e w (rw (← same_tool) known) (rw (← same_resource) found) p

  Keeps-report :
      (mode : Mode) (b : Bool) (os : List EffectOutcome)
      → Keeps (InRun P) (report_divergence {W = W} mode b os)
  Keeps-report verify true (o ∷ os) = record { at = λ s p. p }
  Keeps-report verify true [] = record { at = λ s p. p }
  Keeps-report verify false os = record { at = λ s p. p }
  Keeps-report reconstruct b os = record { at = λ s p. p }

  Keeps-replay :
      (codec : Codec) (mode : Mode) (raise_on_divergence : Bool) (txn_id : String) (source : Audit)
      → All (RunKeeps P env) (get_effects txn_id source)
      → Keeps (InRun P) (replay env codec mode raise_on_divergence txn_id source)
  unfolding replay replay_bracket
  Keeps-replay codec mode raise_on_divergence txn_id source runs =
      Keeps-from (source_rows codec txn_id source) _ λ effects read.
        Keeps-then (modify _) _ (record { at = λ s p. p })
          (Keeps-then
            (on_run (on_world (each_transactional (λ a. a.begin_txn) (unique env.adapters)))) _
            (Keeps-on_run P (on_world (each_transactional (λ a. a.begin_txn) (unique env.adapters)))
              (Keeps-bracket (λ a. a.begin_txn) (λ a q. record { at = q.begins })))
            (Keeps-then (replay_bracket env codec mode effects) _
              (record {
                at = λ s p. (Keeps-catch (replay_block env codec mode effects s).0).at _ (
                    (Keeps-block codec mode effects (
                        rows-All codec (RunKeeps P env) (load-RunKeeps codec) txn_id source effects
                          read runs)).at
                      s p);
              })
              (record {
                at = λ s p. (Keeps-report mode raise_on_divergence s.divergences).at s p;
              })))

  -- The adapters' own actions keep a property of the world, and so does a run of each tool that a
  -- row of the reversible lane names. Then it holds after a replay, in either mode and whether the
  -- replay returns or raises, whatever the tools of the irreversible rows do.
  pub replay_refires_nothing :
      (codec : Codec) (mode : Mode) (raise_on_divergence : Bool) (txn_id : String) (source : Audit)
      (s : Replaying W)
      → All (RunKeeps P env) (get_effects txn_id source)
      → P s.run.world
      → P (replay env codec mode raise_on_divergence txn_id source s).1.run.world
  replay_refires_nothing codec mode raise_on_divergence txn_id source s runs p =
      (Keeps-replay codec mode raise_on_divergence txn_id source runs).at s p
