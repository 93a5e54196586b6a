-- ===== src/Node/Handle/Gate.antt =====
-- Nothing but its budget changes on a node for a request that is not authentic, granted and allowed.
use peerless_sysytem_fw.Prelude.{
  ℕ, subst, ◌≡◌, ◌⊎◌, refl, sym, ap, ◌∙◌, true, false, none, some, List, Bytes, ok, arith, inl, inr,
  Bool-cases, Result-cases,
}
use peerless_sysytem_fw.Core.{NodeId}
use peerless_sysytem_fw.Identity.{Crypto, NodeIdentity}
use peerless_sysytem_fw.Protocol.{Json, SignedEnvelope, open_with_signer}
use peerless_sysytem_fw.Protocol.Message.{Message, permission_for}
use peerless_sysytem_fw.Ledger.Block.{Block, Membership, Serde}
use peerless_sysytem_fw.Node.Budget.{consume_request_budget}
use peerless_sysytem_fw.Node.Membership.{MembershipPolicy, Roster, access_to}
use peerless_sysytem_fw.Node.Membership.Revoked.{revokes}
use peerless_sysytem_fw.Node.Membership.Lives.{Lives, revoked_has_no_access}
use peerless_sysytem_fw.Node.Tasks.{Floats}
use peerless_sysytem_fw.Node.Handle.{Node, Moment, permits, admit, handle}

-- Nothing but the budget differs.
pub record OnlyBudget (n n' : Node) : Type 0 where
  pub membership_same : n'.membership ≡ n.membership
  pub uploads_same : n'.uploads ≡ n.uploads
  pub tasks_same : n'.tasks ≡ n.tasks
  pub files_same : n'.files ≡ n.files

module _ (sha256 hex_encode : Bytes → Bytes) (f : Floats) (node : NodeId) (c : Crypto) where
  open f use {Float}

  -- The envelope opens to a message of a signer whose budget grants it and whom the node permits it.
  pub record IsAuthorized (json : Json (Message Float)) (m : Moment Float) (n : Node)
      (e : SignedEnvelope) : Type 0 where
    pub message : Message Float
    pub signer : NodeId
    pub opened : open_with_signer c json e ≡ ok (message, signer)
    pub granted : (consume_request_budget n.request_budget signer m.spent_at).0 ≡ true
    pub permitted : permits n.membership signer (permission_for message) m.allowed_at ≡ true

  -- Whatever envelope a node handles, either it changes nothing but the request budget, or the envelope
  -- opens, the budget of its signer grants the request, and the node's membership permits the signer
  -- what the message requires.
  pub handle-IsAuthorized :
      (json : Json (Message Float)) (m : Moment Float) (n : Node) (e : SignedEnvelope)
      → OnlyBudget n (handle sha256 hex_encode f node c json m n e).1 ⊎ IsAuthorized json m n e
  unfolding handle admit
  handle-IsAuthorized json m n e = elim (Result-cases (open_with_signer c json e)) [
    | inr (p, failed) ↦ inl (
        rw (failed, handle)
          (record {
            membership_same = refl;
            uploads_same = refl;
            tasks_same = refl;
            files_same = refl;
          }))
    | inl ((message, signer), opened) ↦
        elim (Bool-cases (consume_request_budget n.request_budget signer m.spent_at).0) [
          | inr refused ↦ inl (
              rw (opened, handle, refused, admit)
                (record {
                  membership_same = refl;
                  uploads_same = refl;
                  tasks_same = refl;
                  files_same = refl;
                }))
          | inl granted ↦
              elim (Bool-cases
                (permits n.membership signer (permission_for message) m.allowed_at)) [
                  | inr forbidden ↦ inl (
                      rw (opened, handle, granted, admit, forbidden)
                        (record {
                          membership_same = refl;
                          uploads_same = refl;
                          tasks_same = refl;
                          files_same = refl;
                        }))
                  | inl permitted ↦ inr (record {
                    message = message;
                    signer = signer;
                    opened = opened;
                    granted = granted;
                    permitted = permitted;
                  })
                ]
        ]
  ]

  not_permitted :
      (policy : MembershipPolicy) (signer : NodeId) (permission : Bytes) (at : ℕ)
      → access_to signer (some policy) ≡ none
      → permits (some policy) signer permission at ≡ false
  unfolding permits
  not_permitted policy signer permission at out = ground arith

  -- A node that is in a network, and whose ledger says last of the signer that it was revoked,
  -- changes nothing but its request budget for the signer's envelopes, if neither
  -- `enforce_membership` nor `install_invitation` has succeeded since `open` or since the last
  -- block that `append_ledger_block` appended.
  pub handle-revoked :
      (serde : Serde) (identity : NodeIdentity) (issued_json : Json (List Membership))
      (s : List Block × Roster) (policy : MembershipPolicy) (json : Json (Message Float))
      (m : Moment Float) (n : Node) (e : SignedEnvelope) (message : Message Float) (signer : NodeId)
      → Lives c serde identity issued_json true s
      → revokes s.0 signer ≡ true
      → n.membership ≡ some policy
      → n.membership ≡ s.1.membership
      → open_with_signer c json e ≡ ok (message, signer)
      → OnlyBudget n (handle sha256 hex_encode f node c json m n e).1
  handle-revoked serde identity issued_json s policy json m n e message signer l revoked inside same
        opened =
      elim (handle-IsAuthorized json m n e) [
        | inl only ↦ only
        | inr a ↦
            let out = revoked_has_no_access c serde identity issued_json s signer l revoked in
            let same_signer : a.signer ≡ signer = ground (arith, a.opened) in
            let none_here : access_to signer (some policy) ≡ none =
              ap (access_to signer) (sym inside ∙ same) ∙ out in
            let denied =
              not_permitted policy signer (permission_for a.message) m.allowed_at none_here in
            let allowed =
              (subst (λ x. permits x signer (permission_for a.message) m.allowed_at ≡ true) inside
                (subst (λ x. permits n.membership x (permission_for a.message) m.allowed_at ≡ true)
                  same_signer a.permitted)) in
            absurd (ground (arith, denied, allowed))
      ]
