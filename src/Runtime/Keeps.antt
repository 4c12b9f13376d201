-- ===== src/Runtime/Keeps.antt =====
-- Properties of a state that an action keeps, whether it returns or raises; for the runtime, the
-- properties of the outside world that no run of a tool is needed to keep.
use pherix.Base.{
  String, ◌≡◌, refl, sym, ap, subst, Bool, true, false, Option, none, some, List, [], ◌∷◌, Dict,
  All, get, arith, ◌==◌, ◌==ℕ◌, ℕ, any, Bool-cases, inl, inr, if◌then◌else◌,
}
use pherix.Values.{Snapshot}
use pherix.Errors.{Result, ok, err, Exec, continue, ◌>>=◌, ◌>>◌, lift, gets, modify}
use pherix.Transaction.{TxnState, transition}
use pherix.Adapter.{Adapter, unique_aux}
use pherix.Runtime.State.{State, on_world, each_transactional, if_transactional, move_to}

pub record Keeps {S A : Type 0} (P : S → Type 0) (m : Exec S A) : Type 0 where
  pub at : (s : S) → P s → P (m s).1

module _ {S : Type 0} {P : S → Type 0} where
  after-Keeps :
      {A B : Type 0} (f : A → Exec S B) (r : Result A) (t : S)
      → ((a : A) → Keeps P (f a))
      → P t
      → P (continue r f t).1
  after-Keeps f (ok a) t kf p = (kf a).at t p
  after-Keeps f (err x) t kf p = p

  pub Keeps-bind :
      {A B : Type 0} (m : Exec S A) (f : A → Exec S B)
      → Keeps P m
      → ((a : A) → Keeps P (f a))
      → Keeps P (m >>= f)
  Keeps-bind m f km kf = record { at = λ s p. after-Keeps f (m s).0 (m s).1 kf (km.at s p) }

  pub Keeps-then :
      {A B : Type 0} (m : Exec S A) (k : Exec S B) → Keeps P m → Keeps P k → Keeps P (m >> k)
  Keeps-then m k km kk = Keeps-bind m (λ _. k) km (λ _. kk)

  pub Keeps-if :
      {A : Type 0} (b : Bool) (m n : Exec S A)
      → Keeps P m
      → Keeps P n
      → Keeps P (λ s. if b then m s else n s)
  Keeps-if true m n km kn = km
  Keeps-if false m n km kn = kn

  pub Keeps-lift : {A : Type 0} (r : Result A) → Keeps P (lift {S = S} r)
  Keeps-lift r = record { at = λ s p. p }

  -- What follows may use what the value was read from.
  pub Keeps-from :
      {A B : Type 0} (r : Result A) (f : A → Exec S B)
      → ((a : A) → r ≡ ok a → Keeps P (f a))
      → Keeps P (lift {S = S} r >>= f)
  Keeps-from (ok a) f k = k a refl
  Keeps-from (err x) f k = record { at = λ s p. p }

  pub Keeps-gets : {A : Type 0} (f : S → A) → Keeps P (gets f)
  Keeps-gets f = record { at = λ s p. p }

-- An action after which `Q` holds when it has returned, and `R` when it has raised.
abbrev pub Ends : {S A : Type 0} → (S → Type 0) → (S → Type 0) → Result A × S → Type 0
Ends Q R (ok a, s) = Q s
Ends Q R (err x, s) = R s

pub record Leads {S A : Type 0} (P Q R : S → Type 0) (m : Exec S A) : Type 0 where
  pub run : (s : S) → P s → Ends Q R (m s)

module _ {S : Type 0} {Q R : S → Type 0} {A B : Type 0} where
  after-Leads :
      (O : S → Type 0) (f : A → Exec S B) (r : Result A × S)
      → ((a : A) → Leads Q O R (f a))
      → Ends Q R r
      → Ends O R (continue r.0 f r.1)
  after-Leads O f (ok a, t) kf q = (kf a).run t q
  after-Leads O f (err x, t) kf q = q

  pub Leads-bind :
      {P : S → Type 0}
      → (O : S → Type 0) (m : Exec S A) (f : A → Exec S B) → Leads P Q R m
      → ((a : A) → Leads Q O R (f a))
      → Leads P O R (m >>= f)
  Leads-bind O m f km kf = record { run = λ s p. after-Leads O f (m s) kf (km.run s p) }

-- The adapter's undoing actions keep `P`: it takes a run of a tool to break it.
pub record UndoKeeps {W : Type 0} (P : W → Type 0) (a : Adapter W) : Type 0 where
  pub restore : (h : Snapshot) (w : W) → P w → P (a.restore h w).1
  pub rollback : (w : W) → P w → P (a.rollback_txn w).1

abbrev pub InWorld : {W : Type 0} → (W → Type 0) → State W → Type 0
InWorld P s = P s.world

module _ {W : Type 0} where
  world-move_to : (to : TxnState) (s : State W) → (move_to to s).1.world ≡ s.world
  unfolding move_to transition
  world-move_to to s = ground arith

module _ {W : Type 0} (P : W → Type 0) where
  pub Keeps-modify :
      (f : State W → State W)
      → ((s : State W) → (f s).world ≡ s.world)
      → Keeps (InWorld P) (modify f)
  Keeps-modify f same = record { at = λ s p. subst P (sym (same s)) p }

  pub Keeps-on_world : {A : Type 0} (m : Exec W A) → Keeps P m → Keeps (InWorld P) (on_world m)
  Keeps-on_world m k = record { at = λ s p. k.at s.world p }

  pub Keeps-move_to : (to : TxnState) → Keeps (InWorld P) (move_to {W = W} to)
  Keeps-move_to to = record { at = λ s p. subst P (sym (world-move_to to s)) p }

  -- A bracket of the transactional adapters, each of which keeps `P`.
  pub Keeps-each :
      (op : Adapter W → Exec W (Unit {0})) (adapters : List (Adapter W))
      → All (λ a. Keeps P (op a)) adapters
      → Keeps P (each_transactional op adapters)
  unfolding each_transactional
  Keeps-each op [] k = record { at = λ w p. p }
  Keeps-each op (a ∷ rest) (k, ks) =
      Keeps-then (if_transactional op a) (each_transactional op rest)
        (Keeps-if a.transactional (op a) (λ w. (ok tt, w)) k (record { at = λ w p. p }))
        (Keeps-each op rest ks)

module _ {W : Type 0} (Q : Adapter W → Type 0) where
  pub All-get :
      (adapters : Dict (Adapter W)) (r : String) (a : Adapter W)
      → All (λ e. Q e.1) adapters
      → get r adapters ≡ some a
      → Q a
  All-get [] r a qs h = cc
  All-get ((k, b) ∷ adapters) r a (q, qs) h = elim (Bool-cases (k == r)) [
    | inl here ↦
        let same : some b ≡ some a = rw here at h in
        subst Q (ap (λ (o : Option (Adapter W)). elim o [ none ↦ b | some x ↦ x ]) same) q
    | inr other ↦ All-get adapters r a qs (rw other at h)
  ]

  pub All-unique :
      (seen : List ℕ) (adapters : Dict (Adapter W))
      → All (λ e. Q e.1) adapters
      → All Q (unique_aux seen adapters)
  All-unique seen [] qs = tt
  All-unique seen ((k, a) ∷ adapters) (q, qs) = elim (Bool-cases (any (λ j. j ==ℕ a.ident) seen)) [
    | inl old ↦ rw old (All-unique seen adapters qs)
    | inr new ↦ rw new (q, All-unique (a.ident ∷ seen) adapters qs)
  ]
