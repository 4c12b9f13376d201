-- ===== src/Runtime/Restore.antt =====
-- What the adapters and the tools of a transaction promise about snapshots, and `rollback` over
-- them.
pub mod Calls
use pherix.Base.{
  String, ◌≡◌, refl, sym, ap, subst, ◌∙◌, Bool, true, false, not, ◌||◌, Option, none, some, List,
  [], ◌∷◌, ◌++◌, Dict, All, get, reverse, arith, ◌==ℕ◌, Bool-cases, Option-cases, inl, inr,
  if◌then◌else◌,
}
use pherix.Values.{Snapshot}
use pherix.Effects.{Effect, is_applied}
use pherix.Errors.{Result, ok, err, Exec, lift, skip, ◌>>=◌, ◌>>◌, >>=-run, >>-run}
use pherix.Transaction.{TxnState, allowed, transition, is_open}
use pherix.Audit.{update_transaction_state}
use pherix.Adapter.{Adapter, ToolSpec, Run, unique, unique_aux}
use pherix.Runtime.State.{
  Env, State, guard_open, guard_thread, resolve_adapter, on_world, save_effect, move_to,
  each_transactional, if_transactional,
}
use pherix.Runtime.Record.{marked}
use pherix.Runtime.Keeps.{All-unique}
use pherix.Runtime.Unwind.{
  undo_effect, undo_effects, rollback, adapters_rollback, settle_restored, finish,
}
use pherix.Runtime.Closed.{is_closed}

-- How a world is seen, and what a snapshot is good for. `At x w`: the world `w` looks like `x`.
-- `Holds r x y w h`: in a world that has grown from `w` and looks like `y`, the adapter of the
-- resource `r` can restore `h` and the world then looks like `x`. `Fresh r x w h`: `h` was just taken.
pub record Contract (W X : Type 0) : Type 1 where
  pub At : X → W → Type 0
  pub Holds : String → X → X → W → Snapshot → Type 0
  pub Fresh : String → X → W → Snapshot → Type 0
  pub Grows : W → W → Type 0
  pub Grows-refl : (w : W) → Grows w w
  pub Grows-trans : (u v w : W) → Grows u v → Grows v w → Grows u w
  pub Holds-Grows :
      (r : String) (x y : X) (w w' : W) (h : Snapshot)
      → Grows w w'
      → Holds r x y w h
      → Holds r x y w' h

module _ {W X : Type 0} (c : Contract W X) where
  abbrev pub Snapped : String → X → W → Result Snapshot × W → Type 0
  Snapped r x w (ok h, w') = c.At x w' × c.Grows w w' × c.Fresh r x w' h
  Snapped r x w (err _, w') = c.At x w' × c.Grows w w'

  -- A run of a tool on an effect leads from `x` to what the effect's handle leads back from.
  pub record Ran (r : String) (x : X) (e : Effect) (w : W) (run : Run W) : Type 0 where
    pub after : X
    pub at_after : c.At after run.world
    pub grows : c.Grows w run.world
    pub handle : Snapshot
    pub handle_is : (marked run.marks e).snapshot ≡ some handle
    pub leads_back : c.Holds r x after run.world handle

  -- The action succeeds, and the world looks the same.
  abbrev pub Stays : X → Exec W (Unit {0}) → Type 0
  Stays x m = (w : W) → c.At x w → (w' : W) × (m w ≡ (ok tt, w')) × c.At x w'

  -- The transaction began in a world that looks like `start`.
  pub record Honours (start : X) (env : Env W) : Type 0 where
    pub snapshot :
        (r : String) (a : Adapter W) (e : Effect) (x : X) (w : W)
        → get r env.adapters ≡ some a
        → a.supports_rollback ≡ true
        → c.At x w
        → Snapped r x w (a.snapshot e w)
    pub run :
        (name : String) (spec : ToolSpec W) (a : Adapter W) (e : Effect) (h : Snapshot) (x : X)
        (w : W)
        → get name env.registry ≡ some spec
        → get spec.resource env.adapters ≡ some a
        → e.snapshot ≡ some h
        → c.Fresh spec.resource x w h
        → c.At x w
        → Ran spec.resource x e w (a.apply e spec.fn w)
    pub restore :
        (r : String) (a : Adapter W) (x y : X) (w : W) (h : Snapshot)
        → get r env.adapters ≡ some a
        → c.Holds r x y w h
        → c.At y w
        → (w' : W) × (a.restore h w ≡ (ok tt, w')) × c.At x w' × c.Grows w w'
    pub begins : All (λ (e : String × Adapter W). Stays start e.1.begin_txn) env.adapters
    pub rolls_back : All (λ (e : String × Adapter W). Stays start e.1.rollback_txn) env.adapters

  module _ (start : X) (env : Env W) where
    abbrev pub Link : Option Snapshot → String → X → W → (X → Type 0) → Type 0
    Link none r y w before = before y
    Link (some h) r y w before =
        (x : X) × (a : Adapter W) × (get r env.adapters ≡ some a) × c.Holds r x y w h × before x

    -- Newest first: undoing the effects leads from `y` back to the start.
    abbrev pub Chain : X → W → List Effect → Type 0
    Chain y w [] = y ≡ start
    Chain y w (e ∷ es) = Link e.snapshot e.resource y w (λ x. Chain x w es)

    Link-Grows :
        (o : Option Snapshot) (r : String) (y : X) (w w' : W) (B B' : X → Type 0)
        → c.Grows w w'
        → ((x : X) → B x → B' x)
        → Link o r y w B
        → Link o r y w' B'
    Link-Grows none r y w w' B B' grows f b = f y b
    Link-Grows (some h) r y w w' B B' grows f (x, a, found, held, b) =
        (x, a, found, c.Holds-Grows r x y w w' h grows held, f x b)

    pub Chain-Grows :
        (y : X) (w w' : W) (es : List Effect) → c.Grows w w' → Chain y w es → Chain y w' es
    Chain-Grows y w w' [] grows chain = chain
    Chain-Grows y w w' (e ∷ es) grows chain =
        Link-Grows e.snapshot e.resource y w w' (λ x. Chain x w es) (λ x. Chain x w' es) grows
          (λ x. Chain-Grows x w w' es grows) chain

    record Undone (x : X) (s s' : State W) : Type 0 where
      looks : c.At x s'.world
      grows : c.Grows s.world s'.world
      same_state : s'.txn.state ≡ s.txn.state

    Undone-refl : (x : X) (s : State W) → c.At x s.world → Undone x s s
    Undone-refl x s here = record { looks = here; grows = c.Grows-refl s.world; same_state = refl }

    world-settle : (e : Effect) (s : State W) → (settle_restored env e s).1.world ≡ s.world
    unfolding save_effect
    world-settle e s = ground arith

    state-settle : (e : Effect) (s : State W) → (settle_restored env e s).1.txn.state ≡ s.txn.state
    unfolding save_effect
    state-settle e s = ground arith

    abbrev undo_from : Option Snapshot → Effect → Exec (State W) (Unit {0})
    undo_from o e = elim o [
      | none ↦ skip
      | some handle ↦ do
        a ← lift (resolve_adapter env e.resource)
        on_world (a.restore handle)
        settle_restored env e
    ]

    resolved :
        (r : String) (a : Adapter W) (s : State W)
        → get r env.adapters ≡ some a
        → lift (resolve_adapter env r) s ≡ (ok a, s)
    unfolding resolve_adapter
    resolved r a s found = rw (found, resolve_adapter) refl

    pub on_world-run :
        {A : Type 0} (m : Exec W A) (s : State W) (w : W)
        → (a : A) → m s.world ≡ (ok a, w)
        → on_world m s ≡ (ok a, record s { world = w })
    on_world-run m s w a h = rw h refl

    pub own_thread :
        (s : State W) → (env.thread ==ℕ env.owner_thread) ≡ true → guard_thread env s ≡ (ok tt, s)
    unfolding guard_thread
    own_thread s own = rw (own, guard_thread) refl

    pub still_open : (s : State W) → is_closed s ≡ false → guard_open s ≡ (ok tt, s)
    unfolding guard_open
    still_open s opened = rw (opened, guard_open) refl

    open-rolled_back : (t : TxnState) → is_open t ≡ true → allowed t TxnState.rolled_back ≡ true
    unfolding allowed
    open-rolled_back t opened = ground arith

    pub move_back :
        (s : State W)
        → is_open s.txn.state ≡ true
        → (s' : State W) × (move_to TxnState.rolled_back s ≡ (ok tt, s'))
          × (s'.world ≡ s.world)
          × (s'.txn.state ≡ TxnState.rolled_back)
    unfolding move_to transition
    move_back s opened =
        let to = TxnState.rolled_back in
        let moved : State W = record s {
          txn = record s.txn { state = to };
          audit = update_transaction_state s.txn.txn_id to s.audit;
        } in
        (moved, rw (open-rolled_back s.txn.state opened, move_to) refl, refl, refl)

    -- The journal chains back to the start.
    pub record Undoable (s : State W) : Type 0 where
      pub latest : X
      pub looks : c.At latest s.world
      pub chain : Chain latest s.world (reverse s.txn.effects)

    if-Stays :
        (b : Bool) (m : Exec W (Unit {0}))
        → Stays start m
        → Stays start (λ w. if b then m w else (ok tt, w))
    if-Stays true m stay w here = stay w here
    if-Stays false m stay w here = (w, refl, here)

    pub each-Stays :
        (op : Adapter W → Exec W (Unit {0})) (adapters : List (Adapter W))
        → All (λ a. Stays start (op a)) adapters
        → Stays start (each_transactional op adapters)
    unfolding each_transactional
    each-Stays op [] stay w here = (w, refl, here)
    each-Stays op (a ∷ rest) (stay, stays) w here =
        let (u, first, there) = if-Stays a.transactional (op a) stay w here in
        let (w', others, done) = each-Stays op rest stays u there in
        (
          w',
          >>-run (if_transactional op a) (each_transactional op rest) w u tt first ∙ others,
          done,
        )

    module _ (honest : Honours start env) where
      undo_held :
          (e : Effect) (h : Snapshot) (x y : X) (a : Adapter W) (s : State W)
          → e.snapshot ≡ some h
          → get e.resource env.adapters ≡ some a
          → c.Holds e.resource x y s.world h
          → c.At y s.world
          → (s' : State W) × (undo_effect env e s ≡ (ok tt, s')) × Undone x s s'
      unfolding undo_effect
      undo_held e h x y a s with_h found held here =
          let (w', back, looks, grows) =
            honest.restore e.resource a x y s.world h found held here in
          let s' = (settle_restored env e (record s { world = w' })).1 in
          let same : s'.world ≡ w' = world-settle e (record s { world = w' }) in
          (
            s',
            subst (λ o. undo_from o e s ≡ (ok tt, s')) (sym with_h)
                (>>=-run (lift (resolve_adapter env e.resource)) _ s s a
                    (resolved e.resource a s found)
                  ∙ >>-run (on_world (a.restore h)) (settle_restored env e) s
                      (record s { world = w' }) tt (on_world-run (a.restore h) s w' tt back)),
            record {
              looks = rw same looks;
              grows = rw same grows;
              same_state = state-settle e (record s { world = w' });
            },
          )

      undo_one :
          (e : Effect) (es : List Effect) (y : X) (s : State W)
          → Chain y s.world (e ∷ es)
          → c.At y s.world
          → (x : X) × (s' : State W) × (undo_effect env e s ≡ (ok tt, s'))
            × Undone x s s'
            × Chain x s.world es
      unfolding undo_effect
      undo_one e es y s chain here = elim (Option-cases e.snapshot) [
        | inl bare ↦ (y, s, rw (bare, undo_effect) refl, Undone-refl y s here, rw bare at chain)
        | inr (h, with_h) ↦
            let (x, a, found, held, before) : Link (some h) e.resource y s.world
                (λ x. Chain x s.world es) =
              rw with_h at chain in
            let (s', back, undone) = undo_held e h x y a s with_h found held here in
            (x, s', back, undone, before)
      ]

      -- The fold leads back to the start.
      undo_effects-Undone :
          (es : List Effect) (y : X) (s : State W)
          → Chain y s.world es
          → c.At y s.world
          → (s' : State W) × (undo_effects env es s ≡ (ok tt, s')) × Undone start s s'
      unfolding undo_effects
      undo_effects-Undone [] y s chain here =
          (s, refl, Undone-refl start s (subst (λ x. c.At x s.world) chain here))
      undo_effects-Undone (e ∷ es) y s chain here =
          let (x, t, first, undone, before) = undo_one e es y s chain here in
          let later = Chain-Grows x s.world t.world es undone.grows before in
          let (s', rest, done) = undo_effects-Undone es x t later undone.looks in
          (
            s',
            (>>-run (undo_effect env e) (undo_effects env es) s t tt first ∙ rest),
            record {
              looks = done.looks;
              grows = c.Grows-trans s.world t.world s'.world undone.grows done.grows;
              same_state = done.same_state ∙ undone.same_state;
            },
          )

      pub rollback-start :
          (s : State W)
          → (env.thread ==ℕ env.owner_thread) ≡ true
          → is_closed s ≡ false
          → Undoable s
          → (s' : State W) × (rollback env s ≡ (ok tt, s'))
            × c.At start s'.world
            × (s'.txn.state ≡ TxnState.rolled_back)
            × (s'.finished ≡ true)
      unfolding rollback
      rollback-start s own opened u =
          let (t, undone_run, undone) =
            undo_effects-Undone (reverse s.txn.effects) u.latest s u.chain u.looks in
          let (w', rolled, there) =
            each-Stays (λ a. a.rollback_txn) (unique env.adapters)
              (All-unique (λ a. Stays start a.rollback_txn) [] env.adapters honest.rolls_back)
              t.world undone.looks in
          let v : State W = record t { world = w' } in
          let opened_v : is_open v.txn.state ≡ true = rw undone.same_state (ground arith) in
          let (s', moved, kept_world, state_is) = move_back v opened_v in
          (
            record s' { finished = true },
            >>-run (guard_thread env) _ s s tt (own_thread s own)
                ∙ >>-run guard_open _ s s tt (still_open s opened)
                ∙ >>-run (undo_effects env (reverse s.txn.effects)) _ s t tt undone_run
                ∙ >>-run (adapters_rollback env) _ t v tt (
                    on_world-run (each_transactional (λ a. a.rollback_txn) (unique env.adapters)) t
                      w' tt rolled)
                ∙ >>-run (move_to TxnState.rolled_back) (finish env) v s' tt moved,
            rw kept_world there,
            state_is,
            refl,
          )
