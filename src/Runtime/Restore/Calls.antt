-- ===== src/Runtime/Restore/Calls.antt =====
-- `record_tool_call` under the promises of `Contract`.
use pherix.Base.{
  ℕ, suc, ◌<◌, ◌==ℤ◌, pos, String, ◌≡◌, refl, sym, any, ◌==◌, subst, ◌∙◌, Bool, true, false, none,
  some, List, [], reverse-append, ◌∷◌, ◌++◌, All, get, length, length-append, reverse, arith,
  Bool-cases, inl, inr, if◌then◌else◌,
}
use pherix.Values.{Args, Snapshot}
use pherix.Effects.{Effect, EffectStatus, Outcome, new_effect}
use pherix.Errors.{
  Result, ok, err, Exec, lift, value_error, modify, continue, Result-cases, ◌>>=◌, ◌>>◌, >>=-after,
  >>-run,
}
use pherix.Transaction.{add_effect, is_open, next_index}
use pherix.Adapter.{Adapter, ToolSpec, Run}
use pherix.Runtime.State.{
  Env, State, write_back, save_effect, set_effect, guard_thread, guard_open, registered,
  resolve_adapter,
}
use pherix.Runtime.Record.{
  marked, apply_effect, settle, run_live, stage_effect, stage_policy, dispatch, journalled,
  check_compensator, build_effect, record_tool_call, approve_irreversible,
}
use pherix.Runtime.Closed.{is_closed}
use pherix.Runtime.Restore.{Contract, Honours, Ran, Snapped, Chain, Chain-Grows, Undoable}

-- The effect stands before the position `n`.
abbrev pub Before : ℕ → Effect → Type 0
Before n e = (i : ℕ) × (e.index ≡ pos i) × (i < n)

Before-suc : (n : ℕ) (xs : List Effect) → All (Before n) xs → All (Before (suc n)) xs
Before-suc n [] h = tt
Before-suc n (x ∷ xs) ((i, at_i, lt), h) = ((i, at_i, omega arith), Before-suc n xs h)

Before-append :
    (n : ℕ) (xs : List Effect) (e : Effect)
    → All (Before n) xs
    → Before n e
    → All (Before n) (xs ++ e ∷ [])
Before-append n [] e h b = (b, tt)
Before-append n (x ∷ xs) e (p, h) b = (p, Before-append n xs e h b)

-- The newest effect is written back at the end.
write_back-last :
    (n : ℕ) (xs : List Effect) (x e : Effect)
    → All (Before n) xs
    → x.index ≡ pos n
    → e.index ≡ pos n
    → write_back e (xs ++ x ∷ []) ≡ xs ++ e ∷ []
write_back-last n [] x e h at_x at_e =
    let same : (x.index ==ℤ e.index) ≡ true = rw (at_x, at_e) (ground arith) in rw same refl
write_back-last n (y ∷ xs) x e ((i, at_y, lt), h) at_x at_e =
    let apart : (y.index ==ℤ e.index) ≡ false = rw (at_y, at_e) (ground arith) in
    rw (apart, write_back-last n xs x e h at_x at_e) refl

-- What `run_live` does with the snapshot.
abbrev after_snapshot :
    {W : Type 0} → Adapter W → ToolSpec W → Effect → Snapshot → Exec (State W) Outcome
after_snapshot a spec e handle =
    let held : Effect = record e { snapshot = some handle } in
    do modify (set_effect held); apply_effect a spec held

module _ {W X : Type 0} (c : Contract W X) (start : X) (env : Env W) where
  -- Open, with the journal that a rollback takes back to the start.
  pub record Live (s : State W) : Type 0 where
    pub opened : is_closed s ≡ false
    pub not_held : s.pending ≡ false
    pub undoable : Undoable c start env s
    pub indexed : All (Before (length s.txn.effects)) s.txn.effects

  pub Live-same :
      (s s' : State W)
      → s'.txn ≡ s.txn
      → s'.finished ≡ s.finished
      → s'.pending ≡ s.pending
      → s'.world ≡ s.world
      → Live s
      → Live s'
  Live-same s s' txn finished pending world live = record {
    opened = rw (txn, finished) live.opened;
    not_held = pending ∙ live.not_held;
    undoable = record {
      latest = live.undoable.latest;
      looks = rw world live.undoable.looks;
      chain = rw (txn, world) live.undoable.chain;
    };
    indexed = rw txn live.indexed;
  }

  -- The journal has got one more effect.
  pub record Longer (s s' : State W) (e : Effect) : Type 0 where
    pub at_end : e.index ≡ pos (length s.txn.effects)
    pub effects_are : s'.txn.effects ≡ s.txn.effects ++ e ∷ []
    pub same_state : s'.txn.state ≡ s.txn.state
    pub same_finished : s'.finished ≡ s.finished
    pub same_pending : s'.pending ≡ s.pending

  Live-Longer :
      (s s' : State W) (e : Effect) (y : X)
      → Live s
      → Longer s s' e
      → c.At y s'.world
      → Chain c start env y s'.world (e ∷ reverse s.txn.effects)
      → Live s'
  Live-Longer s s' e y live longer looks chain =
      let n = length s.txn.effects in
      let size : length (s.txn.effects ++ e ∷ []) ≡ suc n =
        length-append s.txn.effects (e ∷ []) ∙ omega arith in
      record {
        opened = rw (longer.same_state, longer.same_finished) live.opened;
        not_held = longer.same_pending ∙ live.not_held;
        undoable = record {
          latest = y;
          looks = looks;
          chain = rw (longer.effects_are, reverse-append s.txn.effects (e ∷ [])) chain;
        };
        indexed =
            rw (longer.effects_are, size)
              (Before-append (suc n) s.txn.effects e (Before-suc n s.txn.effects live.indexed)
                (n, longer.at_end, omega arith));
      }

  pub Longer-set :
      (s t : State W) (e e' : Effect)
      → Live s
      → Longer s t e
      → e'.index ≡ e.index
      → Longer s (set_effect e' t) e'
  Longer-set s t e e' live longer same = record {
    at_end = same ∙ longer.at_end;
    effects_are = rw longer.effects_are (
        write_back-last (length s.txn.effects) s.txn.effects e e' live.indexed longer.at_end
          (same ∙ longer.at_end));
    same_state = longer.same_state;
    same_finished = longer.same_finished;
    same_pending = longer.same_pending;
  }

  Longer-save :
      (s t : State W) (e e' : Effect)
      → Live s
      → Longer s t e
      → e'.index ≡ e.index
      → Longer s (save_effect e' t) e'
  unfolding save_effect
  Longer-save s t e e' live longer same = record {
    at_end = same ∙ longer.at_end;
    effects_are = (Longer-set s t e e' live longer same).effects_are;
    same_state = longer.same_state;
    same_finished = longer.same_finished;
    same_pending = longer.same_pending;
  }

  pub Longer-world :
      (s t : State W) (e : Effect) (w : W) → Longer s t e → Longer s (record t { world = w }) e
  Longer-world s t e w longer = record {
    at_end = longer.at_end;
    effects_are = longer.effects_are;
    same_state = longer.same_state;
    same_finished = longer.same_finished;
    same_pending = longer.same_pending;
  }

  -- An effect without a snapshot changes nothing.
  pub bare-Live :
      (s t : State W) (e : Effect) (y : X)
      → Live s
      → Longer s t e
      → e.snapshot ≡ none
      → c.At y t.world
      → Chain c start env y t.world (reverse s.txn.effects)
      → Live t
  bare-Live s t e y live longer bare looks chain =
      Live-Longer s t e y live longer looks (rw bare chain)

  -- An effect as it is saved after its run.
  saved-Live :
      (s t : State W) (e e' : Effect) (r : String) (a : Adapter W) (x y : X) (h : Snapshot)
      → Live s
      → Longer s t e
      → e'.index ≡ e.index
      → e'.resource ≡ r
      → e'.snapshot ≡ some h
      → get r env.adapters ≡ some a
      → c.Holds r x y t.world h
      → c.At y t.world
      → Chain c start env x t.world (reverse s.txn.effects)
      → Live (save_effect e' t)
  unfolding save_effect
  saved-Live s t e e' r a x y h live longer same here with_h found held looks chain =
      Live-Longer s (save_effect e' t) e' y live (Longer-save s t e e' live longer same) looks
        (rw (with_h, here) (x, a, found, held, chain))

  settle-Live :
      (s t : State W) (e : Effect) (r : String) (a : Adapter W) (x : X) (w : W) (run : Run W)
      → Live s
      → Longer s t e
      → e.resource ≡ r
      → get r env.adapters ≡ some a
      → Ran c r x e w run
      → t.world ≡ run.world
      → Chain c start env x w (reverse s.txn.effects)
      → Live (settle e run t).1
  settle-Live s t e r a x w run live longer here found ran same chain =
      let before = Chain-Grows c start env x w run.world (reverse s.txn.effects) ran.grows chain in
      let saved : (e' : Effect)
          → e'.index ≡ e.index
          → e'.resource ≡ r
          → e'.snapshot ≡ some ran.handle
          → Live (save_effect e' t) =
        λ e' idx res snap.
          saved-Live s t e e' r a x ran.after ran.handle live longer idx res snap found
            (rw same ran.leads_back) (rw same ran.at_after) (rw same before) in
      elim (Result-cases run.result) [
        | inl (v, done) ↦
            rw (done, settle)
              (saved
                (record (marked run.marks e) {
                  result = Outcome.returned v;
                  status = EffectStatus.applied;
                })
                refl here ran.handle_is)
        | inr (err_x, failed) ↦
            rw (failed, settle)
              (saved (record (marked run.marks e) { status = EffectStatus.failed }) refl here
                ran.handle_is)
      ]

  module _ (honest : Honours c start env) where
    -- After the snapshot.
    held_run-Live :
        (name : String) (spec : ToolSpec W) (s t : State W) (e : Effect) (a : Adapter W) (x : X)
        → (r : Result Snapshot × W) → Live s
        → Longer s t e
        → e.resource ≡ spec.resource
        → e.snapshot ≡ none
        → get name env.registry ≡ some spec
        → get spec.resource env.adapters ≡ some a
        → Snapped c spec.resource x t.world r
        → Chain c start env x t.world (reverse s.txn.effects)
        → Live (continue r.0 (after_snapshot a spec e) (record t { world = r.1 })).1
    unfolding apply_effect
    held_run-Live name spec s t e a x (err _, w) live longer here bare known found (looks, grows)
          chain =
        bare-Live s (record t { world = w }) e x live (Longer-world s t e w longer) bare looks
          (Chain-Grows c start env x t.world w (reverse s.txn.effects) grows chain)
    held_run-Live name spec s t e a x (ok h, w) live longer here bare known found
          (looks, grows, fresh) chain =
        let held : Effect = record e { snapshot = some h } in
        let u : State W = set_effect held (record t { world = w }) in
        let longer_u =
          Longer-set s (record t { world = w }) e held live (Longer-world s t e w longer) refl in
        let run = a.apply held spec.fn w in
        let ran = honest.run name spec a held h x w known found refl fresh looks in
        settle-Live s (record u { world = run.world }) held spec.resource a x w run live
          (Longer-world s u held run.world longer_u) here found ran refl
          (Chain-Grows c start env x t.world w (reverse s.txn.effects) grows chain)

    pub run_live-Live :
        (name : String) (spec : ToolSpec W) (s t : State W) (e : Effect) (a : Adapter W) (x : X)
        → Live s
        → Longer s t e
        → e.resource ≡ spec.resource
        → e.snapshot ≡ none
        → get name env.registry ≡ some spec
        → get spec.resource env.adapters ≡ some a
        → a.supports_rollback ≡ true
        → c.At x t.world
        → Chain c start env x t.world (reverse s.txn.effects)
        → Live (run_live a spec e t).1
    unfolding run_live
    run_live-Live name spec s t e a x live longer here bare known found can looks chain =
        held_run-Live name spec s t e a x (a.snapshot e t.world) live longer here bare known found
          (honest.snapshot spec.resource a e x t.world found can looks) chain

    -- A part that leaves the state alone.
    pub reads-Live :
        {A B : Type 0} (m : Exec (State W) A) (f : A → Exec (State W) B) (s : State W)
        → (m s).1 ≡ s
        → Live s
        → ((a : A) → (m s).0 ≡ ok a → Live (f a s).1)
        → Live ((m >>= f) s).1
    reads-Live m f s same live rest =
        >>=-after Live m f s (rw same live) (λ a done. rw same (rest a done))

    stage_policy-same :
        (e : Effect) (s : State W)
        → ((stage_policy env e s).1.txn ≡ s.txn)
          × ((stage_policy env e s).1.finished ≡ s.finished)
          × ((stage_policy env e s).1.pending ≡ s.pending)
          × ((stage_policy env e s).1.world ≡ s.world)
    unfolding stage_policy
    stage_policy-same e s = elim (Bool-cases env.dry_run) [
      | inl dry ↦ rw (dry, stage_policy) (ground arith, ground arith, ground arith, ground arith)
      | inr wet ↦ rw (wet, stage_policy) (ground arith, ground arith, ground arith, ground arith)
    ]

    if-Live :
        {A : Type 0} (b : Bool) (r q : Result A × State W)
        → (b ≡ true → Live r.1)
        → (b ≡ false → Live q.1)
        → Live (if b then r else q).1
    if-Live true r q yes_case no_case = yes_case refl
    if-Live false r q yes_case no_case = no_case refl

    dispatch-Live :
        (name : String) (spec : ToolSpec W) (s t : State W) (e : Effect) (a : Adapter W) (x : X)
        → Live s
        → Longer s t e
        → e.resource ≡ spec.resource
        → e.snapshot ≡ none
        → get name env.registry ≡ some spec
        → get spec.resource env.adapters ≡ some a
        → e.reversible ≡ a.supports_rollback
        → c.At x t.world
        → Chain c start env x t.world (reverse s.txn.effects)
        → Live (dispatch a spec e t).1
    unfolding stage_effect save_effect
    dispatch-Live name spec s t e a x live longer here bare known found lane looks chain =
        if-Live e.reversible (run_live a spec e t) (stage_effect e t)
          (λ is_live.
            run_live-Live name spec s t e a x live longer here bare known found (sym lane ∙ is_live)
              looks chain)
          (λ is_staged.
            let result = Outcome.staged_result e.effect_id in
            let e' : Effect = record e { result = result; status = EffectStatus.staged } in
            bare-Live s (save_effect e' t) e' x live (Longer-save s t e e' live longer refl) bare
              looks chain)

    pub open_state : (s : State W) → is_closed s ≡ false → is_open s.txn.state ≡ true
    open_state s opened = ground arith

    pub journalled-Longer :
        (s : State W) (e : Effect)
        → e.index ≡ pos (length s.txn.effects)
        → Live s
        → (journalled e s ≡ (ok tt, (journalled e s).1))
          × Longer s (journalled e s).1 e
          × ((journalled e s).1.world ≡ s.world)
    unfolding add_effect
    journalled-Longer s e at_end live =
        let opened : is_open s.txn.state ≡ true = open_state s live.opened in
        (
          rw (opened, journalled) refl,
          record {
            at_end = at_end;
            effects_are = rw (opened, journalled) refl;
            same_state = rw (opened, journalled) refl;
            same_finished = rw (opened, journalled) refl;
            same_pending = rw (opened, journalled) refl;
          },
          rw (opened, journalled) refl,
        )

    -- What `build_effect` gives.
    record Built (spec : ToolSpec W) (a : Adapter W) (s : State W) (e : Effect) : Type 0 where
      at_end : e.index ≡ pos (length s.txn.effects)
      resource_is : e.resource ≡ spec.resource
      bare : e.snapshot ≡ none
      lane : e.reversible ≡ a.supports_rollback

    build_effect-Built :
        (spec : ToolSpec W) (a : Adapter W) (args : Args) (s : State W)
        → Built spec a s (build_effect env spec a args s)
    unfolding build_effect new_effect next_index
    build_effect-Built spec a args s = record {
      at_end = refl;
      resource_is = refl;
      bare = refl;
      lane = refl;
    }

    journal-Live :
        (name : String) (spec : ToolSpec W) (s : State W) (e : Effect) (a : Adapter W)
        → Live s
        → Built spec a s e
        → get name env.registry ≡ some spec
        → get spec.resource env.adapters ≡ some a
        → Live ((journalled e >> dispatch a spec e) s).1
    journal-Live name spec s e a live built known found =
        let (added, longer, same) = journalled-Longer s e built.at_end live in
        let u = live.undoable in
        let t = (journalled e s).1 in
        subst (λ (r : Result Outcome × State W). Live r.1)
          (sym (>>-run (journalled e) (dispatch a spec e) s t tt added))
          (dispatch-Live name spec s t e a u.latest live longer built.resource_is built.bare known
            found built.lane (rw same u.looks) (rw same u.chain))

    registered-is :
        (name : String) (spec : ToolSpec W)
        → registered env name ≡ ok spec
        → get name env.registry ≡ some spec
    unfolding registered
    registered-is name spec h = ground arith

    resolved-is :
        (r : String) (a : Adapter W) → resolve_adapter env r ≡ ok a → get r env.adapters ≡ some a
    unfolding resolve_adapter
    resolved-is r a h = ground arith

    guard_thread-same : (s : State W) → (guard_thread env s).1 ≡ s
    unfolding guard_thread
    guard_thread-same s = ground arith

    guard_open-same : (s : State W) → (guard_open s).1 ≡ s
    unfolding guard_open
    guard_open-same s = ground arith

    staged-Live :
        (name : String) (spec : ToolSpec W) (s : State W) (e : Effect) (a : Adapter W)
        → Live s
        → Built spec a s e
        → get name env.registry ≡ some spec
        → get spec.resource env.adapters ≡ some a
        → Live ((stage_policy env e >> (journalled e >> dispatch a spec e)) s).1
    staged-Live name spec s e a live built known found =
        let (txn, finished, pending, world) = stage_policy-same e s in
        let t = (stage_policy env e s).1 in
        let live_t = Live-same s t txn finished pending world live in
        >>=-after Live (stage_policy env e) (λ _. journalled e >> dispatch a spec e) s live_t
          (λ _ _.
            journal-Live name spec t e a live_t
              (record {
                at_end = rw txn built.at_end;
                resource_is = built.resource_is;
                bare = built.bare;
                lane = built.lane;
              })
              known found)

    -- A call, whether it returns or raises, leaves a journal that a rollback takes back to the start.
    pub record_tool_call-Live :
        (name : String) (args : Args) (s : State W)
        → Live s
        → Live (record_tool_call env name args s).1
    unfolding record_tool_call
    record_tool_call-Live name args s live =
        reads-Live (guard_thread env) _ s (guard_thread-same s) live λ _ _.
          reads-Live guard_open _ s (guard_open-same s) live λ _ _.
            reads-Live (lift (registered env name)) _ s refl live λ spec known.
              reads-Live (lift (check_compensator env spec)) _ s refl live λ _ _.
                reads-Live (lift (resolve_adapter env spec.resource)) _ s refl live λ a found.
                  staged-Live name spec s (build_effect env spec a args s) a live
                    (build_effect-Built spec a args s) (registered-is name spec known)
                    (resolved-is spec.resource a found)

    pub approve-Live :
        (effect_id : String) (s : State W) → Live s → Live (approve_irreversible env effect_id s).1
    unfolding approve_irreversible
    approve-Live effect_id s live =
        reads-Live (guard_thread env) _ s (guard_thread-same s) live λ _ _.
          reads-Live guard_open _ s (guard_open-same s) live λ _ _.
            let known = any (λ (e : Effect). e.effect_id == effect_id) s.txn.effects in
            let approved : State W = record s { approvals = effect_id ∷ s.approvals } in
            if-Live known (ok tt, approved) (err (value_error effect_id), s)
              (λ _. Live-same s approved refl refl refl refl live) (λ _. live)
