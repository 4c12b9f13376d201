-- ===== src/Replay/Success.antt =====
-- A replay under `verify` that returns.
use pherix.Base.{
  String, ◌≡◌, refl, subst, sym, ap, ◌∙◌, Bool, true, false, List, [], ◌∷◌, ◌++◌, append_assoc,
  append-nil, arith, if◌then◌else◌,
}
use pherix.Errors.{
  Result, ok, err, lift, modify, raise, Conflict, continue, ◌>>=◌, ◌>>◌, >>=-ok, >>-ok,
}
use pherix.Transaction.{TxnState, transition}
use pherix.Adapter.{Adapter, unique}
use pherix.Audit.{Audit, EffectRow}
use pherix.Isolation.{check_conflicts}
use pherix.Runtime.State.{Env, State, on_world, each_transactional, move_to}
use pherix.Runtime.Keeps.{Ends}
use pherix.Replay.Source.{Codec}
use pherix.Replay.Walk.{
  verify, EffectOutcome, Replaying, is_divergence, failure, on_run, adapter_for, replay_reversible,
  replay_irreversible, replay_effect, walk_source,
}
use pherix.Replay.{
  source_rows, record_replay, begin_replay, bracketed, note_conflicts, close_replay, catch_failure,
  finalise_commit, finalise_rollback, report_divergence, replay_block, replay_bracket, replay,
}
use pherix.Replay.Verdicts.{
  Answers, Reported, Each, divergent, Turned, reversible-Turned, irreversible-Turned,
}

module _ {W : Type 0} (env : Env W) (codec : Codec) where
  effect-Turned :
      (src : EffectRow) (s : Replaying W)
      → Ends (Turned env codec src s) (λ _. Unit) (replay_effect env codec verify src s)
  unfolding replay_effect
  effect-Turned src s = from (adapter_for env src)
    where
      lane :
          (a : Adapter W) (b : Bool)
          → src.reversible ≡ b
          → Ends
              (Turned env codec src s)
              (λ _. Unit)
              (if b
                then replay_reversible env codec verify a src s
                else replay_irreversible env codec src s)
      lane a true is_reversible = reversible-Turned env codec a src s is_reversible
      lane a false is_irreversible = irreversible-Turned env codec src s is_irreversible

      from :
          (r : Result (Adapter W))
          → Ends
              (Turned env codec src s)
              (λ _. Unit)
              ((lift r >>= λ a s.
                  if src.reversible
                  then replay_reversible env codec verify a src s
                  else replay_irreversible env codec src s)
                s)
      from (ok a) = lane a src.reversible refl
      from (err x) = tt

  -- The walk adds an outcome for each row, in order.
  record Walked (source : List EffectRow) (s s' : Replaying W) : Type 0 where
    os : List EffectOutcome
    outcomes_are : s'.outcomes ≡ s.outcomes ++ os
    divergences_are : s'.divergences ≡ s.divergences ++ divergent os
    reported : Each (Reported codec) source os

  divergent-cons :
      (o : EffectOutcome) (os : List EffectOutcome)
      → divergent (o ∷ os) ≡ divergent (o ∷ []) ++ divergent os
  divergent-cons o os = ground arith

  then-Walked :
      (src : EffectRow) (source : List EffectRow) (s t : Replaying W)
      (r : Result (Unit {0}) × Replaying W)
      → Turned env codec src s t
      → Ends (Walked source t) (λ _. Unit) r
      → Ends (Walked (src ∷ source) s) (λ _. Unit) r
  then-Walked src source s t (err x, u) turned walked = tt
  then-Walked src source s t (ok _, u) turned walked = record {
    os = turned.o ∷ walked.os;
    outcomes_are =
        walked.outcomes_are
        ∙ ap (λ os. os ++ walked.os) turned.outcomes_are
        ∙ append_assoc s.outcomes (turned.o ∷ []) walked.os;
    divergences_are =
        walked.divergences_are
        ∙ ap (λ os. os ++ divergent walked.os) turned.divergences_are
        ∙ append_assoc s.divergences (divergent (turned.o ∷ [])) (divergent walked.os)
        ∙ ap (λ os. s.divergences ++ os) (sym (divergent-cons turned.o walked.os));
    reported = (turned.reported, walked.reported);
  }

  walk-Walked :
      (source : List EffectRow) (s : Replaying W)
      → Ends (Walked source s) (λ _. Unit) (walk_source env codec verify source s)
  unfolding walk_source
  walk-Walked [] s = record {
    os = [];
    outcomes_are = sym (append-nil s.outcomes);
    divergences_are = sym (append-nil s.divergences);
    reported = tt;
  }
  walk-Walked (src ∷ source) s =
      after (replay_effect env codec verify src s) (effect-Turned src s) (λ t. walk-Walked source t)
    where
      after :
          (r : Result (Unit {0}) × Replaying W)
          → Ends (Turned env codec src s) (λ _. Unit) r
          → ((t : Replaying W)
              → Ends (Walked source t) (λ _. Unit) (walk_source env codec verify source t))
          → Ends
              (Walked (src ∷ source) s)
              (λ _. Unit)
              (continue r.0 (λ _. walk_source env codec verify source) r.1)
      after (ok _, t) turned walk = then-Walked src source s t _ turned (walk t)
      after (err x, t) turned walk = tt

  -- With no divergence each outcome answers its row.
  Each-Answers :
      (source : List EffectRow) (os : List EffectOutcome)
      → divergent os ≡ []
      → Each (Reported codec) source os
      → Each (Answers codec) source os
  Each-Answers [] [] none_found reported = tt
  Each-Answers (src ∷ source) (o ∷ os) none_found (here, reported) =
      from (is_divergence o.status) refl (Each-Answers source os)
    where
      from :
          (b : Bool)
          → is_divergence o.status ≡ b
          → (divergent os ≡ [] → Each (Reported codec) source os → Each (Answers codec) source os)
          → Each (Answers codec) (src ∷ source) (o ∷ os)
      from true diverges rest = let never : o ∷ divergent os ≡ [] = rw diverges at none_found in cc
      from false agrees rest = (here agrees, rest (rw agrees at none_found) reported)
  Each-Answers [] (o ∷ os) none_found reported = elim reported [ ]
  Each-Answers (src ∷ source) [] none_found reported = elim reported [ ]

  append-cons : {A : Type 0} (xs : List A) (x : A) → xs ++ x ∷ [] ≡ [] → ⊥
  append-cons [] x h = cc
  append-cons (y ∷ xs) x h = cc

  -- No divergence after the diff: there were none before, and no conflict.
  noted :
      (ks : List Conflict) (s : Replaying W)
      → (note_conflicts verify ks s).divergences ≡ []
      → (ks ≡ []) × (s.divergences ≡ [])
  noted [] s none_found = (refl, none_found)
  noted (k ∷ ks) s none_found = absurd (append-cons s.divergences _ none_found)

  note-outcomes :
      (ks : List Conflict) (s : Replaying W) → (note_conflicts verify ks s).outcomes ≡ s.outcomes
  note-outcomes [] s = refl
  note-outcomes (k ∷ ks) s = refl

  note-conflicts :
      (ks : List Conflict) (s : Replaying W) → (note_conflicts verify ks s).isolation_conflicts ≡ ks
  note-conflicts [] s = refl
  note-conflicts (k ∷ ks) s = refl

  move_to-ok : (to : TxnState) (s t : State W) → move_to to s ≡ (ok tt, t) → t.txn.state ≡ to
  unfolding move_to transition
  move_to-ok to s t h = ground arith

  finalise_commit-ok :
      (s t : State W) → finalise_commit env s ≡ (ok tt, t) → t.txn.state ≡ TxnState.committed
  unfolding finalise_commit
  finalise_commit-ok s t h =
      let (_, u, _, moved) =
        >>-ok (on_world (each_transactional (λ a. a.commit_txn) (unique env.adapters)))
          (move_to TxnState.committed) s t tt h in
      move_to-ok TxnState.committed u t moved

  record Closed (s t : Replaying W) : Type 0 where
    nothing_found : s.divergences ≡ []
    same_outcomes : t.outcomes ≡ s.outcomes
    same_conflicts : t.isolation_conflicts ≡ s.isolation_conflicts
    state_is : t.run.txn.state ≡ TxnState.committed

  close-Closed :
      (found : List EffectOutcome) (s t : Replaying W)
      → s.divergences ≡ found
      → close_replay env found s ≡ (ok tt, t)
      → t.divergences ≡ []
      → Closed s t
  close-Closed [] s t is_found h whole = record {
    nothing_found = is_found;
    same_outcomes = sym (ap (λ (r : Result (Unit {0}) × Replaying W). r.1.outcomes) h);
    same_conflicts = sym (ap (λ (r : Result (Unit {0}) × Replaying W). r.1.isolation_conflicts) h);
    state_is =
        finalise_commit-ok s.run t.run
          (ap (λ (r : Result (Unit {0}) × Replaying W). (r.0, r.1.run)) h);
  }
  close-Closed (o ∷ os) s t is_found h whole =
      let kept : o ∷ os ≡ [] =
        sym is_found ∙ ap (λ (r : Result (Unit {0}) × Replaying W). r.1.divergences) h ∙ whole in
      cc

  -- What a block that returned with no divergence has found.
  record Verified (source : List EffectRow) (s t : Replaying W) : Type 0 where
    os : List EffectOutcome
    outcomes_are : t.outcomes ≡ s.outcomes ++ os
    answered : Each (Answers codec) source os
    no_conflict : t.isolation_conflicts ≡ []
    state_is : t.run.txn.state ≡ TxnState.committed

  block-Verified :
      (source : List EffectRow) (s t : Replaying W)
      → s.divergences ≡ []
      → replay_block env codec verify source s ≡ (ok tt, t)
      → t.divergences ≡ []
      → Verified source s t
  unfolding replay_block
  block-Verified source s t fresh h whole =
      let (_, u, walked_to, h1) = >>-ok (walk_source env codec verify source) _ s t tt h in
      let (ks, u', diffed, h2) =
        >>=-ok
          (λ (s : Replaying W). (check_conflicts s.run.txn.effects env.adapters s.run.world, s))
          (λ ks. do modify (note_conflicts verify ks); (λ s. close_replay env s.divergences s)) u t
          tt h1 in
      let walked : Walked source s u =
        subst (Ends (Walked source s) (λ _. Unit)) walked_to (walk-Walked source s) in
      let same : u ≡ u' = ap (λ (r : Result (List Conflict) × Replaying W). r.1) diffed in
      let v = note_conflicts verify ks u' in
      let closed = close-Closed v.divergences v t refl h2 whole in
      let (no_conflict, nothing) = noted ks u' closed.nothing_found in
      let before : divergent walked.os ≡ [] =
        sym (ap (λ ds. ds ++ divergent walked.os) fresh)
        ∙ sym walked.divergences_are
        ∙ ap (λ (x : Replaying W). x.divergences) same
        ∙ nothing in
      record {
        os = walked.os;
        outcomes_are =
            closed.same_outcomes
            ∙ note-outcomes ks u'
            ∙ sym (ap (λ (x : Replaying W). x.outcomes) same)
            ∙ walked.outcomes_are;
        answered = Each-Answers source walked.os before walked.reported;
        no_conflict = closed.same_conflicts ∙ note-conflicts ks u' ∙ no_conflict;
        state_is = closed.state_is;
      }

  caught-ok :
      (r : Result (Unit {0}) × Replaying W) (t : Replaying W)
      → catch_failure env r.0 r.1 ≡ (ok tt, t)
      → r ≡ (ok tt, t)
  caught-ok (ok _, u) t h = h
  caught-ok (err x, u) t h =
      let (_, v, _, h1) =
        >>-ok (modify (λ (s : Replaying W). record s { status = failure }))
          (on_run (finalise_rollback env) >> raise x) u t tt h in
      let (_, z, _, raised_on) =
        >>-ok (on_run (finalise_rollback env)) (raise {A = Unit {0}} x) v t tt h1 in
      let never : ◌≡◌ {A = Result (Unit {0}) × Replaying W} (err x, z) (ok tt, t) = raised_on in cc

  report-ok :
      (found : List EffectOutcome) (s t : Replaying W)
      → report_divergence verify true found s ≡ (ok tt, t)
      → (found ≡ []) × (s ≡ t)
  report-ok [] s t h = (refl, ap (λ (r : Result (Unit {0}) × Replaying W). r.1) h)
  report-ok (o ∷ os) s t h = cc

  bracketed-Verified :
      (effects : List EffectRow) (s t : Replaying W)
      → s.divergences ≡ []
      → bracketed env codec verify true effects s ≡ (ok tt, t)
      → Verified effects s t
  unfolding replay_bracket
  bracketed-Verified effects s t fresh h =
      let (_, u, bracket, reported) =
        >>-ok (replay_bracket env codec verify effects)
          (λ s. report_divergence verify true s.divergences s) s t tt h in
      let (none_found, same) = report-ok u.divergences u t reported in
      subst (Verified effects s) same (
        block-Verified effects s u fresh
          (caught-ok (replay_block env codec verify effects s) u bracket) none_found)

  Verified-from :
      (effects : List EffectRow) (s t : Replaying W)
      → s.outcomes ≡ []
      → Verified effects s t
      → Each (Answers codec) effects t.outcomes
  Verified-from effects s t empty v =
      let outcomes_are : t.outcomes ≡ v.os = v.outcomes_are ∙ ap (λ os. os ++ v.os) empty in
      subst (Each (Answers codec) effects) (sym outcomes_are) v.answered

  -- What stands before the `try` leaves the outcomes alone.
  opened-same :
      {A : Type 0} (f : Replaying W → A) (s1 s2 s3 : Replaying W)
      → ((s : Replaying W) → f (record_replay s) ≡ f s)
      → ((s : Replaying W) → f (begin_replay env codec s).1 ≡ f s)
      → modify record_replay s1 ≡ (ok tt, s2)
      → begin_replay env codec s2 ≡ (ok tt, s3)
      → f s3 ≡ f s1
  opened-same f s1 s2 s3 over_record over_begin recorded begun =
      sym (ap (λ (r : Result (Unit {0}) × Replaying W). f r.1) begun)
      ∙ over_begin s2
      ∙ sym (ap (λ (r : Result (Unit {0}) × Replaying W). f r.1) recorded)
      ∙ over_record s1

  -- A replay under `verify` that raises on divergences and returns has gone through the whole source:
  -- its outcomes answer the rows in their order. For a reversible row the comparator accepts the
  -- recorded and the replayed result; an irreversible row is skipped, as reused if it was APPLIED.
  -- The diff found no conflict, and the replay is COMMITTED.
  pub verify_success :
      (txn_id : String) (source : Audit) (s t : Replaying W)
      → s.divergences ≡ []
      → s.outcomes ≡ []
      → replay env codec verify true txn_id source s ≡ (ok tt, t)
      → (effects : List EffectRow) × (source_rows codec txn_id source ≡ ok effects)
        × Each (Answers codec) effects t.outcomes
        × (t.isolation_conflicts ≡ [])
        × (t.run.txn.state ≡ TxnState.committed)
  unfolding replay replay_bracket
  verify_success txn_id source s t fresh empty h =
      let (effects, s1, read, h1) =
        >>=-ok (lift (source_rows codec txn_id source))
          (λ effects. do
            modify record_replay
            begin_replay env codec
            bracketed env codec verify true effects)
          s t tt h in
      let (_, s2, recorded, h2) =
        >>-ok (modify record_replay)
          (begin_replay env codec >> bracketed env codec verify true effects) s1 t tt h1 in
      let (_, s3, begun, h3) =
        >>-ok (begin_replay env codec) (bracketed env codec verify true effects) s2 t tt h2 in
      let fresh3 : s3.divergences ≡ [] =
        opened-same (λ x. x.divergences) s1 s2 s3 (λ x. refl) (λ x. refl) recorded begun
        ∙ sym (ap (λ (r : Result (List EffectRow) × Replaying W). r.1.divergences) read)
        ∙ fresh in
      let empty3 : s3.outcomes ≡ [] =
        opened-same (λ x. x.outcomes) s1 s2 s3 (λ x. refl) (λ x. refl) recorded begun
        ∙ sym (ap (λ (r : Result (List EffectRow) × Replaying W). r.1.outcomes) read)
        ∙ empty in
      let v = bracketed-Verified effects s3 t fresh3 h3 in
      (
        effects,
        ap (λ (r : Result (List EffectRow) × Replaying W). r.0) read,
        Verified-from effects s3 t empty3 v,
        v.no_conflict,
        v.state_is,
      )
