-- ===== src/Policy/Actors.antt =====
-- `per_actor_count_cap`: how many effects one actor may run within a transaction.
pub mod Walks
use pherix.Base.{
  ℕ, suc, ◌+◌, ℤ, pos, ltb_ℤ, ◌==ℤ◌, String, Bool, true, not, ◌&&◌, Option, none, some, List, [],
  ◌∷◌, ◌==◌, opt_eq, count, if◌then◌else◌,
}
use pherix.Effects.{Effect}
use pherix.Errors.{Result, ok, Reason}
use pherix.Policy.Context.{Context, Verdict, allow, deny}

-- The arguments: an allowance for each actor, one for any other, and the tool that counts.
pub record ActorCap : Type 0 where
  pub limits : List (Option String × ℤ)
  pub default : Option ℤ
  pub tool : Option String

-- `limits.get(actor, default)`
abbrev limit_in : List (Option String × ℤ) → Option ℤ → Option String → Option ℤ
limit_in [] default actor = default
limit_in ((a, n) ∷ limits) default actor =
    if opt_eq a actor then some n else limit_in limits default actor

abbrev pub limit_of : ActorCap → Option String → Option ℤ
limit_of c actor = limit_in c.limits c.default actor

-- `tool is None or e.tool == tool`
abbrev pub in_scope : ActorCap → Effect → Bool
in_scope c e = elim c.tool [ none ↦ true | some t ↦ e.tool == t ]

abbrev pub by_actor : ActorCap → Option String → Effect → Bool
by_actor c actor x = opt_eq x.actor actor && in_scope c x

-- The effects of the journal that the rule counts against `e`.
abbrev pub prior : ActorCap → Effect → List Effect → ℕ
prior c e journal = count (λ x. by_actor c e.actor x && not (x.index ==ℤ e.index)) journal

unfoldable pub per_actor_count_cap : ActorCap → Effect → Context → Result Verdict
per_actor_count_cap c e ctx = if not (in_scope c e) then ok allow else elim (limit_of c e.actor) [
  | none ↦ ok allow
  | some limit ↦ ok (
      if ltb_ℤ limit (pos (prior c e ctx.journal + 1))
      then deny (Reason.over_actor_cap (prior c e ctx.journal))
      else allow)
]
