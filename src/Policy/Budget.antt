-- ===== src/Policy/Budget.antt =====
-- The per-transaction caps over a whole journal.
use pherix.Base.{
  ℕ, ◌<◌, ℤ, pos, ◌+ℤ◌, ◌≤ℤ◌, ◌≡◌, refl, sym, ap, ◌∙◌, Bool, true, false, List, [], ◌∷◌, ◌++◌,
  arith, ◌==ℕ◌, ==ℕ_self, All, count, if◌then◌else◌, Bool-cases, inl, inr, +ℤ-zero, zero-+ℤ,
  +ℤ_assoc,
}
use pherix.Effects.{Effect}
use pherix.Errors.{Result, ok, and_then, commit, Result-cases}
use pherix.Policy.Context.{Context, Totals, Rule, allow, total_of, set_total, reset_caps}
use pherix.Policy.Caps.{Cap, Kind, applies_to, contribution, cap_running, cap_add, evaluate_cap}
use pherix.Policy.Engine.{
  Policy, check_rules, check_caps, accumulate, evaluate, walk, evaluate_journal,
}

-- `Cap.count` and `Cap.sum`, whose running total lives in the context.
abbrev pub is_per_txn : Cap → Bool
is_per_txn c = elim c.kind [
  | Kind.count ↦ true
  | Kind.sum via ↦ true
  | Kind.durable_count v ↦ false
  | Kind.durable_sum via v ↦ false
]

-- What one effect adds to the cap.
abbrev pub charge : Cap → Effect → Result ℤ
charge c e = if applies_to c e then contribution c e else ok (pos 0)

-- What a journal adds to the cap.
abbrev pub charges : Cap → List Effect → Result ℤ
charges c [] = ok (pos 0)
charges c (e ∷ es) = and_then (charge c e) (λ n. and_then (charges c es) (λ m. ok (n +ℤ m)))

total_of-set_total :
    (k j : ℕ) (n : ℤ) (t : Totals)
    → total_of k (set_total j n t) ≡ (if j ==ℕ k then n else total_of k t)
total_of-set_total k j n [] = refl
total_of-set_total k j n ((i, m) ∷ t) = ground (arith, total_of-set_total k j n t)

check_rules-context :
    (rs : List Rule) (e : Effect) (ctx ctx' : Context)
    → check_rules rs e ctx ≡ (ok tt, ctx')
    → ctx' ≡ ctx
unfolding check_rules
check_rules-context [] e ctx ctx' h = ground arith
check_rules-context (r ∷ rs) e ctx ctx' h = ground (arith, check_rules-context rs e ctx ctx')

-- No cap of the list is the object `c`.
abbrev pub Others : Cap → List Cap → Type 0
Others c = All (λ d. (d.ident ==ℕ c.ident) ≡ false)

module _ (c d : Cap) (e : Effect) (ctx ctx' : Context) where
  -- A cap leaves the totals of the others alone.
  accumulate-other :
      (d.ident ==ℕ c.ident) ≡ false
      → accumulate d e ctx ≡ (ok tt, ctx')
      → total_of c.ident ctx'.totals ≡ total_of c.ident ctx.totals
  unfolding accumulate cap_add
  accumulate-other other h = elim (Result-cases (contribution d e)) [
    | inl (n, amount) ↦
        ground (arith, total_of-set_total c.ident d.ident (cap_running d ctx +ℤ n) ctx.totals)
    | inr (x, broken) ↦ ground arith
  ]

module _ (c : Cap) (e : Effect) (ctx ctx' : Context) (mode : is_per_txn c ≡ true) where
  admitted-within :
      (n : ℤ)
      → applies_to c e ≡ true
      → contribution c e ≡ ok n
      → evaluate_cap c e ctx ≡ ok allow
      → cap_running c ctx +ℤ n ≤ℤ c.max
  unfolding evaluate_cap contribution
  admitted-within n mine amount admitted = ground arith

  -- A cap that admits an effect adds the effect's charge, and stays within its limit.
  accumulate_self :
      evaluate_cap c e ctx ≡ ok allow
      → accumulate c e ctx ≡ (ok tt, ctx')
      → (n : ℤ) × (charge c e ≡ ok n)
        × (total_of c.ident ctx'.totals ≡ total_of c.ident ctx.totals +ℤ n)
        × (applies_to c e ≡ true → total_of c.ident ctx'.totals ≤ℤ c.max)
  unfolding accumulate cap_add cap_running
  accumulate_self admitted h = elim (Bool-cases (applies_to c e)) [
    | inr other ↦
        (pos 0, ground arith, ground (arith, +ℤ-zero (total_of c.ident ctx.totals)), ground arith)
    | inl mine ↦ elim (Result-cases (contribution c e)) [
      | inl (n, amount) ↦
          let added = total_of-set_total c.ident c.ident (cap_running c ctx +ℤ n) ctx.totals in
          let room = admitted-within n mine amount admitted in
          (
            n,
            ground arith,
            ground (arith, added, ==ℕ_self c.ident),
            λ _. ground (arith, added, room, ==ℕ_self c.ident),
          )
      | inr (x, broken) ↦ ground arith
    ]
  ]

-- A fold over the caps that passes has passed each cap in turn.
check_caps-cons :
    (d : Cap) (ds : List Cap) (e : Effect) (ctx ctx' : Context)
    → check_caps (d ∷ ds) e ctx ≡ (ok tt, ctx')
    → (evaluate_cap d e ctx ≡ ok allow)
      × (accumulate d e ctx ≡ (ok tt, (accumulate d e ctx).1))
      × (check_caps ds e (accumulate d e ctx).1 ≡ (ok tt, ctx'))
unfolding check_caps
check_caps-cons d ds e ctx ctx' h = (ground arith, ground arith, ground arith)

module _ (c : Cap) (e : Effect) where
  check_caps-Others :
      (ds : List Cap) (ctx ctx' : Context)
      → Others c ds
      → check_caps ds e ctx ≡ (ok tt, ctx')
      → total_of c.ident ctx'.totals ≡ total_of c.ident ctx.totals
  check_caps-Others [] ctx ctx' others h = unfold check_caps in ground arith
  check_caps-Others (d ∷ ds) ctx ctx' others h =
      let (admitted, added, rest) = check_caps-cons d ds e ctx ctx' h in
      check_caps-Others ds (accumulate d e ctx).1 ctx' others.1 rest
      ∙ accumulate-other c d e ctx (accumulate d e ctx).1 others.0 added

-- What holds of the cap `c` after an effect that took the context from `ctx` to `ctx'`.
abbrev Charged : Cap → Effect → Context → Context → Type 0
Charged c e ctx ctx' =
    (n : ℤ) × (charge c e ≡ ok n)
    × (total_of c.ident ctx'.totals ≡ total_of c.ident ctx.totals +ℤ n)
    × (applies_to c e ≡ true → total_of c.ident ctx'.totals ≤ℤ c.max)

module _ (c : Cap) (e : Effect) (mode : is_per_txn c ≡ true) (after : List Cap)
    (others_after : Others c after) where
  check_caps-Charged :
      (before : List Cap) (ctx ctx' : Context)
      → Others c before
      → check_caps (before ++ c ∷ after) e ctx ≡ (ok tt, ctx')
      → Charged c e ctx ctx'
  check_caps-Charged [] ctx ctx' others h =
      let (admitted, added, rest) = check_caps-cons c after e ctx ctx' h in
      let mid = (accumulate c e ctx).1 in
      let (n, amount, sum, room) = accumulate_self c e ctx mid mode admitted added in
      let same = check_caps-Others c e after mid ctx' others_after rest in
      (n, amount, same ∙ sum, λ mine. rw same (room mine))
  check_caps-Charged (d ∷ before) ctx ctx' others h =
      let (admitted, added, rest) = check_caps-cons d (before ++ c ∷ after) e ctx ctx' h in
      let mid = (accumulate d e ctx).1 in
      let (n, amount, sum, room) = check_caps-Charged before mid ctx' others.1 rest in
      let same = accumulate-other c d e ctx mid others.0 added in (n, amount, rw (← same) sum, room)

-- The cap `c` is one of the caps of `p`, once.
abbrev pub HasCap : Policy → Cap → Type 0
HasCap p c =
    (before : List Cap) × (after : List Cap) × (p.caps ≡ before ++ c ∷ after)
    × Others c before
    × Others c after

-- An effect that passes the lists and the rules reaches the caps with the totals unchanged.
evaluate-caps :
    (p : Policy) (e : Effect) (ctx ctx' : Context)
    → evaluate p e commit ctx ≡ (ok tt, ctx')
    → check_caps p.caps e (record ctx { phase = commit }) ≡ (ok tt, ctx')
unfolding evaluate
evaluate-caps p e ctx ctx' h =
    let mid : Context = record ctx { phase = commit } in
    ground (arith, check_rules-context p.rules e mid (check_rules p.rules e mid).1)

walk-cons :
    (p : Policy) (e : Effect) (es : List Effect) (ctx ctx' : Context)
    → walk p (e ∷ es) ctx ≡ (ok tt, ctx')
    → (evaluate p e commit ctx ≡ (ok tt, (evaluate p e commit ctx).1))
      × (walk p es (evaluate p e commit ctx).1 ≡ (ok tt, ctx'))
unfolding walk
walk-cons p e es ctx ctx' h = (ground arith, ground arith)

charges-none :
    (c : Cap) (es : List Effect) → count (applies_to c) es ≡ 0 → charges c es ≡ ok (pos 0)
charges-none c [] h = refl
charges-none c (e ∷ es) h = ground (arith, charges-none c es, zero-+ℤ (pos 0))

-- The last effect that the cap applies to is the first of the rest, or lies behind it.
within_step :
    (c : Cap) (e : Effect) (es : List Effect) (n k m : ℤ)
    → (0 < count (applies_to c) es → n +ℤ k +ℤ m ≤ℤ c.max)
    → (applies_to c e ≡ true → n +ℤ k ≤ℤ c.max)
    → charges c es ≡ ok m
    → 0 < count (applies_to c) (e ∷ es)
    → n +ℤ (k +ℤ m) ≤ℤ c.max
within_step c e es n k m rest first amounts one =
    elim (Bool-cases (count (applies_to c) es ==ℕ 0)) [
      | inr more ↦ rw (← +ℤ_assoc n k m) (rest (ground arith))
      | inl last ↦
          let zero_rest : ok m ≡ ok (pos 0) = sym amounts ∙ charges-none c es (ground arith) in
          let m-zero : m ≡ pos 0 = cc in rw (m-zero, +ℤ-zero k) (first (ground arith))
    ]

module _ (p : Policy) (c : Cap) (mode : is_per_txn c ≡ true) (has : HasCap p c) where
  evaluate-Charged :
      (e : Effect) (ctx ctx' : Context)
      → evaluate p e commit ctx ≡ (ok tt, ctx')
      → Charged c e ctx ctx'
  evaluate-Charged e ctx ctx' h =
      check_caps-Charged c e mode has.1 has.4 has.0 (record ctx { phase = commit }) ctx' has.3
        (rw has.2 at (evaluate-caps p e ctx ctx' h))

  -- Over a walk that passes, with the total `n` at its start.
  walk-within :
      (es : List Effect) (n : ℤ) (ctx ctx' : Context)
      → total_of c.ident ctx.totals ≡ n
      → walk p es ctx ≡ (ok tt, ctx')
      → (m : ℤ) × (charges c es ≡ ok m)
        × (total_of c.ident ctx'.totals ≡ n +ℤ m)
        × (0 < count (applies_to c) es → n +ℤ m ≤ℤ c.max)
  walk-within [] n ctx ctx' start h =
      (pos 0, refl, unfold walk in ground (arith, +ℤ-zero n), λ none_left. ground arith)
  walk-within (e ∷ es) n ctx ctx' start h =
      let (first, rest) = walk-cons p e es ctx ctx' h in
      let mid = (evaluate p e commit ctx).1 in
      let (k, amount, sum, room) = evaluate-Charged e ctx mid first in
      let here : total_of c.ident mid.totals ≡ n +ℤ k = sum ∙ ap (λ a. a +ℤ k) start in
      let (m, amounts, total, rooms) = walk-within es (n +ℤ k) mid ctx' here rest in
      (
        k +ℤ m,
        rw (amount, amounts),
        total ∙ +ℤ_assoc n k m,
        within_step c e es n k m (λ some_left. rooms some_left) (λ mine. rw here at (room mine))
            amounts,
      )

  -- A journal that passes the policy at commit is within the cap: the contributions of all its
  -- effects that the cap applies to add up to the total that the walk leaves, and to no more than
  -- the cap's maximum, if there is such an effect.
  pub evaluate_journal-within :
      (es : List Effect) (ctx ctx' : Context)
      → evaluate_journal p es ctx ≡ (ok tt, ctx')
      → (m : ℤ) × (charges c es ≡ ok m)
        × (total_of c.ident ctx'.totals ≡ m)
        × (0 < count (applies_to c) es → m ≤ℤ c.max)
  unfolding evaluate_journal reset_caps
  evaluate_journal-within es ctx ctx' h =
      let (m, sum, total, room) = walk-within es (pos 0) (record ctx { totals = [] }) ctx' refl h in
      (m, sum, total ∙ zero-+ℤ m, rw zero-+ℤ at room)
