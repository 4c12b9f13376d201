-- ===== src/Session/Speculation.antt =====
-- Blocks of `dry_run` that do not commit.
use pherix.Base.{
  ◌==ℕ◌, ◌≡◌, refl, sym, subst, ◌∙◌, Bool, true, false, none, some, [], ◌++◌, arith, if◌then◌else◌,
}
use pherix.Errors.{Result, ok, err, Exec, pure, raise, gets, modify, ◌>>◌, >>-run}
use pherix.Adapter.{unique}
use pherix.Audit.{record_verdicts}
use pherix.Policy.Context.{Context}
use pherix.Policy.Engine.{collect_verdicts}
use pherix.Isolation.{abort}
use pherix.Runtime.State.{Env, State, on_context, on_audit}
use pherix.Runtime.Unwind.{rollback}
use pherix.Runtime.Keeps.{All-unique, Ends, Leads, Leads-bind}
use pherix.Runtime.Restore.{Contract, Honours, Stays, each-Stays}
use pherix.Runtime.Restore.Calls.{Live, Live-same}
use pherix.Session.{Process, Agent, Naming, run_agent, new_context, begin_adapters, begun}
use pherix.Session.DryRun.{
  result_of, dry_run_finalise, finalise_open, catch_error, run_dry_block, dry_run,
}
use pherix.Session.Restored.{
  NeverCommits, Landed, Stands, is_live, has_landed, rollback-Landed, run_agent-Stands,
  new_context-Live,
}

module _ {W X : Type 0} (c : Contract W X) (start : X) (env : Env W) (honest : Honours c start env)
    (own : (env.thread ==ℕ env.owner_thread) ≡ true) (wait : W → W) where
  abbrev IsLive : State W → Type 0
  IsLive = Live c start env

  abbrev HasLanded : State W → Type 0
  HasLanded = Landed c start env

  abbrev IsStanding : State W → Type 0
  IsStanding = Stands c start env

  IsLive-Ends : {A : Type 0} (r : Result A) (s : State W) → IsLive s → Ends IsLive IsStanding (r, s)
  IsLive-Ends (ok a) s live = live
  IsLive-Ends (err x) s live = is_live live

  on_context-Leads :
      {A : Type 0} (m : Exec Context A) → Leads IsLive IsLive IsStanding (on_context env m)
  on_context-Leads m = record {
    run = λ s live. IsLive-Ends _ _ (Live-same c start env s _ refl refl refl refl live);
  }

  rollback-Leads : Leads IsLive HasLanded IsStanding (rollback env)
  rollback-Leads = record {
    run = λ s live.
        let (s', back, landed) = rollback-Landed c start env honest own wait s live in
        rw back landed;
  }

  finalise-Leads : Leads IsLive HasLanded IsStanding (dry_run_finalise env)
  unfolding dry_run_finalise
  finalise-Leads =
      Leads-bind HasLanded (λ s. on_context env (collect_verdicts env.policy s.txn.effects) s) _
        (record { run = λ s. (on_context-Leads (collect_verdicts env.policy s.txn.effects)).run s })
        λ commit_verdicts.
          Leads-bind HasLanded (gets (λ (s : State W). s.stage_verdicts ++ commit_verdicts)) _
            (record { run = λ s live. live })
            λ verdicts.
              Leads-bind HasLanded (gets (λ (s : State W). result_of s verdicts)) _
                (record { run = λ s live. live })
                λ result.
                  Leads-bind HasLanded
                    (modify (λ (s : State W). on_audit (record_verdicts s.txn.txn_id verdicts) s)) _
                    (record { run = λ s live. Live-same c start env s _ refl refl refl refl live })
                    λ _.
                      Leads-bind HasLanded (rollback env) (λ _. pure result) rollback-Leads
                        λ _. record { run = λ s landed. landed }

  if-Ends :
      {A : Type 0} (b : Bool) (r q : Result A × State W)
      → (b ≡ true → Ends HasLanded IsStanding r)
      → (b ≡ false → Ends HasLanded IsStanding q)
      → Ends HasLanded IsStanding (if b then r else q)
  if-Ends true r q yes_case no_case = yes_case refl
  if-Ends false r q yes_case no_case = no_case refl

  finalise_open-Ends :
      (s : State W) → IsStanding s → Ends HasLanded IsStanding (finalise_open env s)
  finalise_open-Ends s (is_live live) =
      if-Ends s.finished (ok none, s) _
        (λ done. let never : true ≡ false = ground (arith, live.opened) in cc)
        (λ _.
          (Leads-bind HasLanded (dry_run_finalise env) (λ result. pure (some result)) finalise-Leads
              λ result. record { run = λ t landed. landed }).run
            s live)
  finalise_open-Ends s (has_landed landed) =
      if-Ends s.finished (ok none, s) _ (λ _. landed)
        (λ open_still. let never : true ≡ false = sym landed.finished ∙ open_still in cc)

  if-Landed :
      {A : Type 0} (b : Bool) (r q : Result A × State W)
      → (b ≡ true → HasLanded r.1)
      → (b ≡ false → HasLanded q.1)
      → HasLanded (if b then r else q).1
  if-Landed true r q yes_case no_case = yes_case refl
  if-Landed false r q yes_case no_case = no_case refl

  catch-Landed :
      {A : Type 0} (r : Result A × State W)
      → Ends HasLanded IsStanding r
      → HasLanded (catch_error env r.0 r.1).1
  catch-Landed (ok a, s) landed = landed
  catch-Landed (err x, s) (has_landed landed) =
      if-Landed s.finished (err x, s) _ (λ _. landed)
        (λ open_still. let never : true ≡ false = sym landed.finished ∙ open_still in cc)
  catch-Landed (err x, s) (is_live live) =
      if-Landed s.finished (err x, s) _
        (λ done. let never : true ≡ false = ground (arith, live.opened) in cc)
        (λ _.
          let (s', back, landed) = rollback-Landed c start env honest own wait s live in
          subst (λ (r : Result _ × State W). HasLanded r.1)
            (sym (>>-run (rollback env) (raise x) s s' tt back)) landed)

  both-Ends : {A : Type 0} (r : Result A × State W) → IsStanding r.1 → Ends IsStanding IsStanding r
  both-Ends (ok a, s) there = there
  both-Ends (err x, s) there = there

  run_dry_block-Landed :
      (body : Agent) (s : State W)
      → NeverCommits body
      → IsStanding s
      → HasLanded (run_dry_block env wait body s).1
  unfolding run_dry_block
  run_dry_block-Landed body s never stands =
      catch-Landed ((run_agent env wait body >> finalise_open env) s) (
        (Leads-bind HasLanded (run_agent env wait body) (λ _. finalise_open env)
            (record {
              run = λ t there.
                  both-Ends (run_agent env wait body t)
                    (run_agent-Stands c start env honest own wait body t never there);
            })
            λ _. record { run = finalise_open-Ends }).run
          s stands)

-- The adapters honour the contract in a dry run, and the world before it looks like `start`. After a
-- dry run whose body calls no `commit`, the world looks as it did before, whatever the body called,
-- whether it returns or raises, and whether or not the policy denies or a rule raises.
pub dry_run_restores :
    {W X : Type 0} (c : Contract W X) (start : X) (env : Env W)
    → Honours c start (record env { dry_run = true; isolation = abort })
    → (env.thread ==ℕ env.owner_thread) ≡ true
    → (names : Naming) (wait : W → W) (body : Agent) (p : Process W) → NeverCommits body
    → c.At start p.world
    → c.At start (dry_run env names wait body p).1.world
unfolding dry_run begin_adapters
dry_run_restores {W} {X} c start env honest own names wait body p never here =
    let dry_env : Env W = record env { dry_run = true; isolation = abort } in
    let (w, opened, there) =
      each-Stays c start dry_env (λ a. a.begin_txn) (unique dry_env.adapters)
        (All-unique (λ a. Stays c start a.begin_txn) [] dry_env.adapters honest.begins) p.world
        here in
    let q : Process W = record p { world = w } in
    let landed =
      run_dry_block-Landed c start dry_env honest own wait body (new_context dry_env names q) never
        (is_live (new_context-Live c start dry_env honest own wait names q there)) in
    subst
      (λ (r : Result (Unit {0}) × W).
        c.At start (begun dry_env names (run_dry_block dry_env wait body) p r).1.world)
      (sym opened) landed.looks
