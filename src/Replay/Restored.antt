-- ===== src/Replay/Restored.antt =====
-- A replay that does not commit, with adapters that keep the promises of `Contract`.
use pherix.Base.{
  String, ◌≡◌, refl, sym, subst, ◌∙◌, ◌⊎◌, Bool, true, false, List, [], ◌∷◌, All, arith, inl, inr,
  if◌then◌else◌,
}
use pherix.Errors.{Result, ok, err, Exec, Conflict, lift, raise, continue, ◌>>=◌, >>=-after, >>-run}
use pherix.Transaction.{TxnState, is_open, allowed, transition}
use pherix.Adapter.{Adapter, unique}
use pherix.Audit.{Audit, EffectRow, update_transaction_state}
use pherix.Policy.Context.{Context}
use pherix.Isolation.{check_conflicts}
use pherix.Runtime.State.{Env, State, on_world, each_transactional, if_transactional, move_to}
use pherix.Runtime.Keeps.{Ends, All-unique}
use pherix.Runtime.Closed.{is_closed}
use pherix.Runtime.Restore.{Contract, Honours, Stays, each-Stays, on_world-run}
use pherix.Runtime.Restore.Calls.{Live, open_state}
use pherix.Replay.Lanes.{Matches, walk-Live, finalise_rollback-start}
use pherix.Replay.Rows.{load_source_effect-same, rows-All}
use pherix.Replay.Source.{load_source_effect, Codec, get_effects}
use pherix.Replay.Walk.{
  Mode, verify, reconstruct, Replaying, EffectOutcome, on_run, walk_source, failure,
}
use pherix.Replay.{
  report_divergence, finalise_commit, finalise_rollback, close_replay, catch_failure,
  note_conflicts, replay_block, replay_bracket, bracketed, begin_replay, record_replay, source_rows,
  replay, new_replay,
}

abbrev pub Commits : {W : Type 0} → Adapter W → Type 0
Commits {W} a = (w : W) → (w' : W) × (a.commit_txn w ≡ (ok tt, w'))

note-run :
    {W : Type 0} (mode : Mode) (ks : List Conflict) (s : Replaying W)
    → (note_conflicts mode ks s).run ≡ s.run
note-run verify [] s = refl
note-run verify (k ∷ ks) s = refl
note-run reconstruct ks s = refl

Ends-bind :
    {S A B : Type 0} (Q R : S → Type 0) (m : Exec S A) (f : A → Exec S B) (s : S)
    → R (m s).1
    → ((a : A) → (m s).0 ≡ ok a → Ends Q R (f a (m s).1))
    → Ends Q R ((m >>= f) s)
Ends-bind Q R m f s raised rest = after (m s).0 refl
  where
    after : (r : Result _) → (m s).0 ≡ r → Ends Q R (continue r f (m s).1)
    after (ok a) e = rest a e
    after (err x) e = raised

-- Adapters that always commit do so together.
each-Commits :
    {W : Type 0} (adapters : List (Adapter W)) (w : W)
    → All Commits adapters
    → (w' : W) × (each_transactional (λ a. a.commit_txn) adapters w ≡ (ok tt, w'))
unfolding each_transactional
each-Commits [] w commits = (w, refl)
each-Commits (a ∷ rest) w (commit, commits) =
    let (u, first) = one a.transactional in
    let (w', others) = each-Commits rest u commits in
    (
      w',
      >>-run (if_transactional (λ a. a.commit_txn) a) (each_transactional (λ a. a.commit_txn) rest)
            w u tt first
          ∙ others,
    )
  where
    one : (b : Bool) → (u : _) × ((if b then a.commit_txn w else (ok tt, w)) ≡ (ok tt, u))
    one true = commit w
    one false = (w, refl)

move_to-committed :
    {W : Type 0} (s : State W)
    → is_open s.txn.state ≡ true
    → (s' : State W) × (move_to TxnState.committed s ≡ (ok tt, s'))
      × (s'.txn.state ≡ TxnState.committed)
unfolding move_to transition allowed
move_to-committed s opened =
    let to = TxnState.committed in
    let moved : State _ = record s {
      txn = record s.txn { state = to };
      audit = update_transaction_state s.txn.txn_id to s.audit;
    } in
    (moved, rw (open-committed s.txn.state opened, move_to) refl, refl)
  where
    open-committed : (t : TxnState) → is_open t ≡ true → allowed t TxnState.committed ≡ true
    open-committed t opened = ground arith

load-Matches :
    {W : Type 0} (env : Env W) (codec : Codec) (row src : EffectRow)
    → load_source_effect codec row ≡ ok src
    → Matches env row
    → Matches env src
load-Matches env codec row src read matched lane spec a known found =
    let (same_tool, same_resource, same_lane) = load_source_effect-same codec row src read in
    let (works, can) =
      matched (sym same_lane ∙ lane) spec a (rw (← same_tool) known) (rw (← same_resource) found) in
    (works ∙ sym same_resource, can)

module _ {W X : Type 0} (c : Contract W X) (start : X) (env : Env W)
    (honest : Honours c start env) where
  abbrev IsLive : State W → Type 0
  IsLive = Live c start env

  abbrev RunLive : Replaying W → Type 0
  RunLive s = IsLive s.run

  -- Committed, or the world looks as it did at the start.
  abbrev pub Settled : Replaying W → Type 0
  Settled s = (s.run.txn.state ≡ TxnState.committed) ⊎ c.At start s.run.world

  commit-Settled :
      (s : Replaying W)
      → All (λ (e : String × Adapter W). Commits e.1) env.adapters
      → IsLive s.run
      → Ends Settled RunLive (on_run (finalise_commit env) s)
  unfolding finalise_commit
  commit-Settled s commits live =
      let t = s.run in
      let (w', committed) =
        each-Commits (unique env.adapters) t.world (All-unique Commits [] env.adapters commits) in
      let u : State W = record t { world = w' } in
      let (v, moved, state_is) =
        move_to-committed u (open_state c start env honest t live.opened) in
      let both =
        >>-run (on_world (each_transactional (λ a. a.commit_txn) (unique env.adapters)))
          (move_to TxnState.committed) t u tt
          (on_world-run c start env (each_transactional (λ a. a.commit_txn) (unique env.adapters)) t
            w' tt committed)
        ∙ moved in
      subst
        (λ (r : Result (Unit {0}) × State W). Ends Settled RunLive (r.0, record s { run = r.1 }))
        (sym both) (inl state_is)

  close-Settled :
      (found : List EffectOutcome) (s : Replaying W)
      → All (λ (e : String × Adapter W). Commits e.1) env.adapters
      → IsLive s.run
      → Ends Settled RunLive (close_replay env found s)
  close-Settled [] s commits live = commit-Settled s commits live
  close-Settled (o ∷ os) s commits live =
      let (s', back, there) = finalise_rollback-start c start env honest s.run live in
      rw back (inr there)

  block-Settled :
      (codec : Codec) (mode : Mode) (source : List EffectRow) (s : Replaying W)
      → All (λ (e : String × Adapter W). Commits e.1) env.adapters
      → All (Matches env) source
      → IsLive s.run
      → Ends Settled RunLive (replay_block env codec mode source s)
  unfolding replay_block
  block-Settled codec mode source s commits matched live =
      let walked = walk-Live c start env honest codec mode source s matched live in
      let t = (walk_source env codec mode source s).1 in
      Ends-bind Settled RunLive (walk_source env codec mode source) _ s walked λ _ _.
        Ends-bind Settled RunLive
          (λ (s : Replaying W). (check_conflicts s.run.txn.effects env.adapters s.run.world, s)) _ t
          walked
          λ ks _.
            let u = note_conflicts mode ks t in
            close-Settled u.divergences u commits (rw (note-run mode ks t) walked)

  catch-Settled :
      (r : Result (Unit {0}) × Replaying W)
      → Ends Settled RunLive r
      → Settled (catch_failure env r.0 r.1).1
  catch-Settled (ok _, s) settled = settled
  catch-Settled (err x, s) live =
      let (s', back, there) = finalise_rollback-start c start env honest s.run live in
      let t : Replaying W = record s { status = failure } in
      subst (λ (r : Result (Unit {0}) × Replaying W). Settled r.1)
        (sym (
          >>-run (on_run (finalise_rollback env)) (raise {A = Unit {0}} x) t (record t { run = s' })
            tt (rw back refl)))
        (inr there)

  report-same :
      (mode : Mode) (b : Bool) (os : List EffectOutcome) (s : Replaying W)
      → (report_divergence mode b os s).1 ≡ s
  report-same verify true [] s = refl
  report-same verify true (o ∷ os) s = refl
  report-same verify false os s = refl
  report-same reconstruct b os s = refl

  bracketed-Settled :
      (codec : Codec) (mode : Mode) (raise_on_divergence : Bool) (effects : List EffectRow)
      (s : Replaying W)
      → All (λ (e : String × Adapter W). Commits e.1) env.adapters
      → All (Matches env) effects
      → IsLive s.run
      → Settled (bracketed env codec mode raise_on_divergence effects s).1
  unfolding replay_bracket
  bracketed-Settled codec mode raise_on_divergence effects s commits matched live =
      let settled =
        catch-Settled (replay_block env codec mode effects s)
          (block-Settled codec mode effects s commits matched live) in
      let t = (replay_bracket env codec mode effects s).1 in
      >>=-after Settled (replay_bracket env codec mode effects) _ s settled
        λ _ _. rw (report-same mode raise_on_divergence t.divergences t) settled

  new-Live :
      (s : State W)
      → s.txn.effects ≡ []
      → is_closed s ≡ false
      → s.pending ≡ false
      → c.At start s.world
      → IsLive s
  new-Live s none_yet opened free here = record {
    opened = opened;
    not_held = free;
    undoable = record { latest = start; looks = here; chain = rw none_yet refl };
    indexed = rw none_yet tt;
  }

  -- The adapters keep the promises of `Contract` and commit without an error, the tool of each row of
  -- the reversible lane works on the row's resource, which supports a rollback, and the world looks
  -- like `start`. Then a replay, in either mode and whether it returns or raises, ends COMMITTED or in
  -- a world that looks like `start` again.
  pub replay_restores :
      (codec : Codec) (mode : Mode) (raise_on_divergence : Bool) (replay_txn_id txn_id : String)
      (source : Audit) (context : Context) (target : Audit) (world : W)
      → All (λ (e : String × Adapter W). Commits e.1) env.adapters
      → All (Matches env) (get_effects txn_id source)
      → c.At start world
      → Settled
          (replay env codec mode raise_on_divergence txn_id source
            (new_replay replay_txn_id txn_id context target world)).1
  unfolding replay new_replay
  replay_restores codec mode raise_on_divergence replay_txn_id txn_id source context target world
        commits matched here =
      let s = new_replay replay_txn_id txn_id context target world in
      >>=-after Settled (lift (source_rows codec txn_id source)) _ s (inr here) λ effects read.
        let (w', begun, there) =
          each-Stays c start env (λ a. a.begin_txn) (unique env.adapters)
            (All-unique (λ a. Stays c start a.begin_txn) [] env.adapters honest.begins) world
            here in
        let t = record_replay s in
        let u : Replaying W = record t { run = record t.run { world = w' } } in
        subst (λ (r : Result (Unit {0}) × Replaying W). Settled r.1)
          (sym (
            >>-run (begin_replay env codec) (bracketed env codec mode raise_on_divergence effects) t
              u tt (rw begun refl)))
          (bracketed-Settled codec mode raise_on_divergence effects u commits
            (rows-All codec (Matches env) (load-Matches env codec) txn_id source effects read
              matched)
            (new-Live u.run refl refl refl there))
