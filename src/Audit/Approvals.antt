-- ===== src/Audit/Approvals.antt =====
-- The approvals table: what a request and an approval leave for the gate of a resumed commit.
use pherix.Base.{
  String, ◌≡◌, refl, Bool, true, false, not, ◌&&◌, ◌||◌, Option, none, some, List, [], ◌∷◌, any,
  all, any-append, all-append, map, select, arith, contains, ◌==◌, eq_refl, Bool-cases,
  Option-cases, inl, inr,
}
use pherix.Errors.{is_ok}
use pherix.Audit.{
  Audit, ApprovalRow, is_request, approve_row, row_with_token, record_pending_approval,
  record_approval, approved_effect_ids,
}

abbrev is_granted : String → String → ApprovalRow → Bool
is_granted txn_id effect_id row = is_request txn_id effect_id row && row.approved

abbrev granted : String → ApprovalRow → Bool
granted txn_id row = row.txn_id == txn_id && row.approved

granted-contains :
    (txn_id effect_id : String) (rows : List ApprovalRow)
    → any (is_granted txn_id effect_id) rows ≡ true
    → contains effect_id (map (λ (row : ApprovalRow). row.effect_id) (select (granted txn_id) rows))
      ≡ true
granted-contains txn_id effect_id [] h = h
granted-contains txn_id effect_id (row ∷ rows) h =
    ground (arith, granted-contains txn_id effect_id rows)

-- The token stands for the request in the table, and for no other.
abbrev pub has_own_token : String → String → String → ApprovalRow → Bool
has_own_token txn_id effect_id token row =
    (is_request txn_id effect_id row && row.token == token)
    || (not (is_request txn_id effect_id row) && not (row.token == token))

module _ (txn_id effect_id token : String) where
  found-granted :
      (rows : List ApprovalRow) (row : ApprovalRow)
      → all (has_own_token txn_id effect_id token) rows ≡ true
      → row_with_token token rows ≡ some row
      → row.approved ≡ true
      → any (is_granted txn_id effect_id) rows ≡ true
  unfolding row_with_token
  found-granted [] row own found yes_already = cc
  found-granted (r ∷ rows) row own found yes_already = ground (arith, found-granted rows row)

  found-approved :
      (approver : Option String) (rows : List ApprovalRow) (row : ApprovalRow)
      → all (has_own_token txn_id effect_id token) rows ≡ true
      → row_with_token token rows ≡ some row
      → any (is_granted txn_id effect_id) (map (approve_row token approver) rows) ≡ true
  unfolding row_with_token
  found-approved approver [] row own found = cc
  found-approved approver (r ∷ rows) row own found =
      ground (arith, found-approved approver rows row)

  absent-request :
      (rows : List ApprovalRow)
      → all (has_own_token txn_id effect_id token) rows ≡ true
      → row_with_token token rows ≡ none
      → any (is_request txn_id effect_id) rows ≡ false
  unfolding row_with_token
  absent-request [] own h = refl
  absent-request (r ∷ rows) own h = ground (arith, absent-request rows)

  approve-granted :
      (approver : Option String) (a : Audit)
      → all (has_own_token txn_id effect_id token) a.approvals ≡ true
      → any (is_request txn_id effect_id) a.approvals ≡ true
      → (is_ok (record_approval token approver a).0 ≡ true)
        × (any (is_granted txn_id effect_id) (record_approval token approver a).1.approvals ≡ true)
  unfolding record_approval
  approve-granted approver a own asked = elim (Option-cases (row_with_token token a.approvals)) [
    | inl absent ↦ let never = absent-request a.approvals own absent in cc
    | inr (row, found) ↦ elim (Bool-cases row.approved) [
      | inl old ↦
          rw (found, old, record_approval) (refl, found-granted a.approvals row own found old)
      | inr new ↦
          rw (found, new, record_approval) (refl, found-approved approver a.approvals row own found)
    ]
  ]

  requested-own :
      (a : Audit)
      → all (has_own_token txn_id effect_id token) a.approvals ≡ true
      → (all
            (has_own_token txn_id effect_id token)
            (record_pending_approval txn_id effect_id token a).approvals
          ≡ true)
        × (any
              (is_request txn_id effect_id)
              (record_pending_approval txn_id effect_id token a).approvals
            ≡ true)
  unfolding record_pending_approval
  requested-own a own = elim (Bool-cases (any (is_request txn_id effect_id) a.approvals)) [
    | inl old ↦ rw old (own, old)
    | inr new ↦
        let row : ApprovalRow = record {
          txn_id = txn_id;
          effect_id = effect_id;
          token = token;
          approved = false;
          approver = none;
        } in
        rw
          (
            new,
            all-append (has_own_token txn_id effect_id token) a.approvals (row ∷ []),
            any-append (is_request txn_id effect_id) a.approvals (row ∷ []),
            own,
            new,
            eq_refl txn_id,
            eq_refl effect_id,
            eq_refl token,
          )
          (refl, refl)
  ]

  -- After the gate has requested an approval, approving by its token succeeds, and the effect is
  -- one of those that the journal reports as approved. In the table the token stands for this
  -- request alone.
  pub request_then_approve :
      (approver : Option String) (a : Audit)
      → all (has_own_token txn_id effect_id token) a.approvals ≡ true
      → let (result, a') =
          record_approval token approver (record_pending_approval txn_id effect_id token a) in
        (is_ok result ≡ true) × (contains effect_id (approved_effect_ids txn_id a') ≡ true)
  unfolding approved_effect_ids
  request_then_approve approver a own =
      let a1 = record_pending_approval txn_id effect_id token a in
      let (kept, asked) = requested-own a own in
      let (fine, there) = approve-granted approver a1 kept asked in
      (
        fine,
        granted-contains txn_id effect_id (record_approval token approver a1).1.approvals there,
      )
