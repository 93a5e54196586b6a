-- ===== src/Compute/Tests.antt =====
-- Runs of `verify_outputs` (crates/peerless-compute/src/lib.rs) at concrete outputs.
use peerless_sysytem_fw.Prelude.{ℕ, ◌≡◌, refl, List, [], ◌∷◌, Bytes, err}
use peerless_sysytem_fw.Prelude.Dict.{Dict}
use peerless_sysytem_fw.Core.{ContentId, VerificationPolicy}
use peerless_sysytem_fw.Compute.{VerificationError, verify_outputs}
use peerless_sysytem_fw.Compute.Agreement.{Agreed, verify_outputs-Agreed}

abbrev in_order : Dict Bytes ℕ → List (ContentId × ℕ)
in_order d = d

abbrev outputs : List ContentId
outputs = (1 ∷ []) ∷ (2 ∷ []) ∷ (1 ∷ []) ∷ (2 ∷ []) ∷ []

verify_outputs-Agreed_example : Agreed (VerificationPolicy.quorum 3 2) outputs (1 ∷ [])
unfolding verify_outputs
verify_outputs-Agreed_example =
    verify_outputs-Agreed in_order (VerificationPolicy.quorum 3 2) outputs (1 ∷ [])
      (refl, (refl, tt)) refl

-- Three replicas are compared, and one differs.
replicas_differ :
    verify_outputs in_order (VerificationPolicy.replicate_by 3) outputs
    ≡ err VerificationError.no_agreement
unfolding verify_outputs
replicas_differ = refl
