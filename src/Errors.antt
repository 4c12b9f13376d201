-- ===== src/Errors.antt =====
-- The exceptions of the core as values, and actions that mutate a state and may raise: what was
-- written before a raise stays written, so the state comes back beside the error too. A message is
-- kept as the data that it interpolates.
use pherix.Base.{ℕ, ℤ, String, ◌≡◌, refl, ap, ◌⊎◌, inl, inr, Option, List, Bool, true, false}
use pherix.Values.{Key, Version, Value}

pub data Where : Type 0 where
  stage commit : Where

-- `isolation.Conflict`
pub record Conflict : Type 0 where
  pub resource : String
  pub key : Key
  pub version_at_read : Version
  pub version_now : Version
  pub version_expected : Version

-- The `name` of a rule or of a cap.
pub data RuleName : Type 0 where
  rule : String → RuleName
  cap_count cap_sum : String → ℤ → RuleName
  durable_count durable_sum : String → ℤ → RuleName
  label : String → RuleName

pub data Reason : Type 0 where
  deny_listed not_allow_listed : Reason
  over_count over_sum : ℤ → ℤ → String → Reason
  no_id_arg : String → String → Reason
  not_paid : Value → Reason
  below_tier : String → Reason
  matches_pattern : String → String → Reason
  over_actor_cap : ℕ → Reason
  other : String → Reason

-- `PolicyViolation`
pub record Violation : Type 0 where
  pub tool : String
  pub reason : Reason
  pub phase : Where
  pub rule_name : Option RuleName
  pub effect_index : Option ℤ

pub data Exc : Type 0 where
  policy_violation : Violation → Exc
  gate_blocked : List String → Exc
  compensator_not_registered : String → String → Exc
  isolation_conflict : List Conflict → Exc
  retry_signal : List Conflict → Exc
  transaction_state : Exc
  wrong_thread : Exc
  no_adapter : String → Exc
  key_error : String → Exc
  value_error : String → Exc
  runtime_error : String → Exc
  -- what a tool, a driver or a rule of the client raises
  raised : String → Exc

pub data Result {ℓ} (A : Type ℓ) : Type ℓ where
  ok : A → Result A
  err : Exc → Result A

abbrev pub is_ok {ℓ} : {A : Type ℓ} → Result A → Bool
is_ok (ok _) = true
is_ok (err _) = false

module _ {ℓ κ} {A : Type ℓ} {B : Type κ} where
  abbrev pub and_then : Result A → (A → Result B) → Result B
  and_then (ok a) f = f a
  and_then (err x) f = err x

abbrev pub Exec {ℓ κ} : Type ℓ → Type κ → Type (ℓ ⊔ κ)
Exec S A = S → Result A × S

module _ {ℓ κ} {S : Type ℓ} {A : Type κ} where
  abbrev pub pure : A → Exec S A
  pure a s = (ok a, s)

  abbrev pub raise : Exc → Exec S A
  raise x s = (err x, s)

  abbrev pub lift : Result A → Exec S A
  lift r s = (r, s)

  abbrev pub gets : (S → A) → Exec S A
  gets f s = (ok (f s), s)

module _ {ℓ} {S : Type ℓ} where
  abbrev pub modify : (S → S) → Exec S (Unit {0})
  modify f s = (ok tt, f s)

  abbrev pub skip : Exec S (Unit {0})
  skip s = (ok tt, s)

module _ {ℓ κ μ} {S : Type ℓ} {A : Type κ} {B : Type μ} where
  abbrev pub continue : Result A → (A → Exec S B) → Exec S B
  continue (ok a) f s = f a s
  continue (err x) f s = (err x, s)

  infixl 5 ◌>>=◌ ◌>>◌
  abbrev pub ◌>>=◌ : Exec S A → (A → Exec S B) → Exec S B
  ◌>>=◌ m f s = let (r, s') = m s in continue r f s'

  abbrev pub ◌>>◌ : Exec S A → Exec S B → Exec S B
  ◌>>◌ m k s = let (r, s') = m s in continue r (λ _. k) s'

pub Result-cases {ℓ} :
    {A : Type ℓ} (r : Result A) → ((a : A) × (r ≡ ok a)) ⊎ ((x : Exc) × (r ≡ err x))
Result-cases (ok a) = inl (a, refl)
Result-cases (err x) = inr (x, refl)

pub and_then-ok {ℓ κ} :
    {A : Type ℓ} {B : Type κ} (r : Result A) (f : A → Result B) (b : B)
    → and_then r f ≡ ok b
    → (a : A) × (r ≡ ok a) × (f a ≡ ok b)
and_then-ok (ok a) f b h = (a, refl, h)
and_then-ok (err x) f b h = cc

-- A block that ends well has passed each of its parts.
module _ {ℓ κ μ} {S : Type ℓ} {A : Type κ} {B : Type μ} where
  pub >>=-ok :
      (m : Exec S A) (f : A → Exec S B) (s s' : S) (b : B)
      → (m >>= f) s ≡ (ok b, s')
      → (a : A) × (t : S) × (m s ≡ (ok a, t)) × (f a t ≡ (ok b, s'))
  >>=-ok m f s s' b h = from (m s) refl h
    where
      from :
          (r : Result A × S)
          → m s ≡ r
          → continue r.0 f r.1 ≡ (ok b, s')
          → (a : A) × (t : S) × (m s ≡ (ok a, t)) × (f a t ≡ (ok b, s'))
      from (ok a, t) e k = (a, t, e, k)
      from (err x, t) e k = cc

  pub >>-ok :
      (m : Exec S A) (k : Exec S B) (s s' : S) (b : B)
      → (m >> k) s ≡ (ok b, s')
      → (a : A) × (t : S) × (m s ≡ (ok a, t)) × (k t ≡ (ok b, s'))
  >>-ok m k = >>=-ok m (λ _. k)

  -- A block goes on where its first part has returned.
  pub >>=-run :
      (m : Exec S A) (f : A → Exec S B) (s t : S) (a : A) → m s ≡ (ok a, t) → (m >>= f) s ≡ f a t
  >>=-run m f s t a h = ap (λ (r : Result A × S). continue r.0 f r.1) h

  pub >>-run : (m : Exec S A) (k : Exec S B) (s t : S) (a : A) → m s ≡ (ok a, t) → (m >> k) s ≡ k t
  >>-run m k = >>=-run m (λ _. k)

  pub >>-raise :
      (m : Exec S A) (k : Exec S B) (s t : S) (x : Exc) → m s ≡ (err x, t) → (m >> k) s ≡ (err x, t)
  >>-raise m k s t x h = ap (λ (r : Result A × S). continue r.0 (λ _. k) r.1) h

  -- What holds after a first part that raised, and after what follows it, holds after a block.
  pub >>=-after {ν} :
      (P : S → Type ν) (m : Exec S A) (f : A → Exec S B) (s : S)
      → P (m s).1
      → ((a : A) → (m s).0 ≡ ok a → P (f a (m s).1).1)
      → P ((m >>= f) s).1
  >>=-after P m f s first rest = after (m s).0 refl
    where
      after : (r : Result A) → (m s).0 ≡ r → P (continue r f (m s).1).1
      after (ok a) e = rest a e
      after (err x) e = first
