-- ===== src/Proxy/Protocol.antt =====
-- What a client can count on, whatever it sends.
use pherix.Base.{
  ℤ, ◌≡◌, refl, sym, ap, subst, ◌∙◌, ◌⊎◌, inl, inr, Bool, true, false, Option, none, some,
}
use pherix.Values.{Value, Entries}
use pherix.Session.{Process, Naming}
use pherix.Proxy.{
  Gateway, Session, Handled, fails, replies, Response, result, error, Reply, field_of,
  object_or_empty,
}
use pherix.Proxy.Server.{dispatch, handle, answer, with_params, with_method, is_version_2}

-- The response carries the id.
abbrev pub Echoes : {W : Type 0} → Value → Option Response × Session × Process W → Type 0
Echoes id (r, s, p) =
    ((code : ℤ) × (r ≡ some (error id code))) ⊎ ((reply : Reply) × (r ≡ some (result id reply)))

module _ {W : Type 0} (g : Gateway W) (txn_ids : Naming) (wait : W → W) where
  answer-Echoes :
      (id : Value) (r : Handled × Session × Process W) → Echoes id (answer g txn_ids wait id r)
  answer-Echoes id (fails code, s, p) = inl (code, refl)
  answer-Echoes id (replies reply, s, p) = inr (reply, refl)

  with_params-Echoes :
      (id method : Value) (s : Session) (params : Option Entries) (p : Process W)
      → Echoes id (with_params g txn_ids wait (some id) method s params p)
  with_params-Echoes id method s none p = inl (_, refl)
  with_params-Echoes id method s (some params) p =
      answer-Echoes id (dispatch g txn_ids wait method s params p)

  with_method-Echoes :
      (id : Value) (v2 : Bool) (method : Option Value) (s : Session) (request : Entries)
      (p : Process W)
      → Echoes id (with_method g txn_ids wait (some id) v2 method s request p)
  with_method-Echoes id true (some method) s request p =
      with_params-Echoes id method s (object_or_empty "params" request) p
  with_method-Echoes id true none s request p = inl (_, refl)
  with_method-Echoes id false (some method) s request p = inl (_, refl)
  with_method-Echoes id false none s request p = inl (_, refl)

  silent_params :
      (method : Value) (s : Session) (params : Option Entries) (p : Process W)
      → with_params g txn_ids wait none method s params p ≡ (none, s, p)
  silent_params method s none p = refl
  silent_params method s (some params) p = refl

  silent_method :
      (v2 : Bool) (method : Option Value) (s : Session) (request : Entries) (p : Process W)
      → with_method g txn_ids wait none v2 method s request p ≡ (none, s, p)
  silent_method true (some method) s request p =
      silent_params method s (object_or_empty "params" request) p
  silent_method true none s request p = refl
  silent_method false (some method) s request p = refl
  silent_method false none s request p = refl

  abbrev pub Answered : Entries → Session → Process W → Option Value → Type 0
  Answered request s p none = handle g txn_ids wait s request p ≡ (none, s, p)
  Answered request s p (some id) = Echoes id (handle g txn_ids wait s request p)

  -- Whatever the client sends, and whatever the tool that it names does: a request with an id gets
  -- exactly one response, an error or a result that carries the same id; a notification, which has
  -- none, gets no response and changes neither the session nor the process.
  pub handle_answers :
      (request : Entries) (s : Session) (p : Process W)
      → Answered request s p (field_of "id" request)
  unfolding handle
  handle_answers request s p = from (field_of "id" request) refl
    where
      from : (id : Option Value) → field_of "id" request ≡ id → Answered request s p id
      from none absent =
          ap
            (λ i.
              with_method g txn_ids wait i (is_version_2 (field_of "jsonrpc" request))
                (field_of "method" request) s request p)
            absent
          ∙ silent_method (is_version_2 (field_of "jsonrpc" request)) (field_of "method" request) s
              request p
      from (some id) present =
          subst
            (λ i. Echoes id (
              with_method g txn_ids wait i (is_version_2 (field_of "jsonrpc" request))
                (field_of "method" request) s request p))
            (sym present)
            (with_method-Echoes id (is_version_2 (field_of "jsonrpc" request))
              (field_of "method" request) s request p)
