-- ===== src/Compensators/Laws.antt =====
-- The behaviour that the docstrings of the factories ask of the client of the service, and what
-- follows of the calls that an action of the catalog and its compensator make.
use pherix.Base.{sym, subst, inl, inr, String, ◌≡◌, refl, true, some, List, [], ◌∷◌, All, get, map}
use pherix.Values.{Value, Args}
use mathlib.Core.List.{Memᴰ}
use mathlib.Core.List.Memᴰ.{not-nil, cases_cons}
use pherix.Effects.{Effect}
use pherix.Errors.{Result}
use pherix.Compensators.{
  Client, Listing, Param, Pair, fits, argument, called, call_client, tool_of, catalog,
  registered_pairs,
}

module _ {W : Type 0} (client : Client W) where
  -- The world after a call of a method of the client.
  abbrev pub after : String → List Value → W → W
  after method values w = (client method values w).1

  -- The methods of the client undo each other by the shared key, from the worlds in which the
  -- action, on these values, is `Ready`: the key is not in use, or the target has the replicas that
  -- the call names as its first ones.
  pub record IsLeftInverse (Ready : String → List Value → W → Type 0) : Type 0 where
    pub refund :
        (key amount currency : Value) (w : W)
        → Ready "charge" (key ∷ amount ∷ currency ∷ []) w
        → after "refund" (key ∷ []) (after "charge" (key ∷ amount ∷ currency ∷ []) w) ≡ w
    pub reverse_payout :
        (id amount to : Value) (w : W)
        → Ready "payout" (id ∷ amount ∷ to ∷ []) w
        → after "reverse_payout" (id ∷ []) (after "payout" (id ∷ amount ∷ to ∷ []) w) ≡ w
    pub revoke_invite :
        (id email org : Value) (w : W)
        → Ready "invite" (id ∷ email ∷ org ∷ []) w
        → after "revoke_invite" (id ∷ []) (after "invite" (id ∷ email ∷ org ∷ []) w) ≡ w
    pub revoke_role :
        (principal role : Value) (w : W)
        → Ready "grant_role" (principal ∷ role ∷ []) w
        → after "revoke_role" (principal ∷ role ∷ []) (after "grant_role" (principal ∷ role ∷ []) w)
          ≡ w
    pub delete_resource :
        (id kind spec : Value) (w : W)
        → Ready "create_resource" (id ∷ kind ∷ spec ∷ []) w
        → after "delete_resource" (id ∷ []) (after "create_resource" (id ∷ kind ∷ spec ∷ []) w) ≡ w
    pub scale_back :
        (target from to : Value) (w : W)
        → Ready "scale_up" (target ∷ from ∷ to ∷ []) w
        → after "scale" (target ∷ from ∷ []) (after "scale" (target ∷ to ∷ []) w) ≡ w
    pub close_pr :
        (repo branch title body : Value) (w : W)
        → Ready "create_pr" (repo ∷ branch ∷ title ∷ body ∷ []) w
        → after "close_pr"
            (repo ∷ branch ∷ [])
            (after "create_pr" (repo ∷ branch ∷ title ∷ body ∷ []) w)
          ≡ w
    pub remove_label :
        (repo issue label : Value) (w : W)
        → Ready "add_label" (repo ∷ issue ∷ label ∷ []) w
        → after "remove_label"
            (repo ∷ issue ∷ label ∷ [])
            (after "add_label" (repo ∷ issue ∷ label ∷ []) w)
          ≡ w
    pub delete_message :
        (channel ts text : Value) (w : W)
        → Ready "post_message" (channel ∷ ts ∷ text ∷ []) w
        → after "delete_message"
            (channel ∷ ts ∷ [])
            (after "post_message" (channel ∷ ts ∷ text ∷ []) w)
          ≡ w
    pub delete_customer :
        (id email : Value) (w : W)
        → Ready "create_customer" (id ∷ email ∷ []) w
        → after "delete_customer" (id ∷ []) (after "create_customer" (id ∷ email ∷ []) w) ≡ w
    pub remove_contact :
        (id email : Value) (w : W)
        → Ready "add_contact" (id ∷ email ∷ []) w
        → after "remove_contact" (id ∷ email ∷ []) (after "add_contact" (id ∷ email ∷ []) w) ≡ w
    pub delete_issue :
        (key project summary : Value) (w : W)
        → Ready "create_issue" (key ∷ project ∷ summary ∷ []) w
        → after "delete_issue" (key ∷ []) (after "create_issue" (key ∷ project ∷ summary ∷ []) w)
          ≡ w

  called-world : (x : Result Value × W) → (called x).world ≡ x.1
  called-world (r, w) = refl

  pub bound-world :
      (t : Listing) (e : Effect) (w : W)
      → fits t.params e.args ≡ true
      → (call_client client t e w).world
        ≡ after t.method (map (argument t.params e.args) t.passes) w
  unfolding call_client
  bound-world t e w fit =
      rw fit (called-world (client t.method (map (argument t.params e.args) t.passes) w))

-- The values of the parameters, in their order.
abbrev pub values_of : List Param → Args → List Value
values_of params args = map (λ (p : Param). argument params args p.0) params

pub All-Memᴰ : (P : Pair → Type 0) (p : Pair) (ps : List Pair) → All P ps → Memᴰ p ps → P p
All-Memᴰ P p [] hs m = absurd (not-nil m)
All-Memᴰ P p (q ∷ qs) (h, hs) m = elim (cases_cons m) [
  | inl same ↦ subst P (sym same) h
  | inr later ↦ All-Memᴰ P p qs hs later
]

module _ {W : Type 0} (client : Client W) (Ready : String → List Value → W → Type 0) where
  -- The action names its inverse, which has the same parameters and is the tool of that name; and
  -- the calls of the client that the two make undo each other where the action is ready.
  abbrev pub IsUndone : Pair → Type 0
  IsUndone p =
      (p.action.compensator ≡ some p.inverse.name)
      × (p.inverse.params ≡ p.action.params)
      × (get p.inverse.name (registered_pairs client catalog) ≡ some (tool_of client p.inverse))
      × ((args : Args) (w : W)
          → Ready p.action.name (values_of p.action.params args) w
          → after client p.inverse.method (map (argument p.inverse.params args) p.inverse.passes)
              (after client p.action.method (map (argument p.action.params args) p.action.passes) w)
            ≡ w)

  pub catalog-IsUndone : IsLeftInverse client Ready → All IsUndone catalog
  catalog-IsUndone laws = (
    (refl, refl, refl, λ args w. laws.refund _ _ _ w),
    (
      (refl, refl, refl, λ args w. laws.reverse_payout _ _ _ w),
      (
        (refl, refl, refl, λ args w. laws.revoke_invite _ _ _ w),
        (
          (refl, refl, refl, λ args w. laws.revoke_role _ _ w),
          (
            (refl, refl, refl, λ args w. laws.delete_resource _ _ _ w),
            (
              (refl, refl, refl, λ args w. laws.scale_back _ _ _ w),
              (
                (refl, refl, refl, λ args w. laws.close_pr _ _ _ _ w),
                (
                  (refl, refl, refl, λ args w. laws.remove_label _ _ _ w),
                  (
                    (refl, refl, refl, λ args w. laws.delete_message _ _ _ w),
                    (
                      (refl, refl, refl, λ args w. laws.delete_customer _ _ w),
                      (
                        (refl, refl, refl, λ args w. laws.remove_contact _ _ w),
                        ((refl, refl, refl, λ args w. laws.delete_issue _ _ _ w), tt),
                      ),
                    ),
                  ),
                ),
              ),
            ),
          ),
        ),
      ),
    ),
  )
