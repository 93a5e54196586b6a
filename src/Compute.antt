-- ===== src/Compute.antt =====
-- `verify_outputs` of crates/peerless-compute/src/lib.rs. The order in which the `HashMap` of counts is
-- iterated is an argument.
pub mod Agreement
mod Tests
use peerless_sysytem_fw.Prelude.{
  or_zero, ℕ, ◌+◌, Bool, true, false, ◌&&◌, ◌||◌, Option, none, some, List, [], ◌∷◌, Bytes, Result,
  ok, err, ltb, leb, ◌==◌, if◌then◌else◌, length, take, all,
}
use peerless_sysytem_fw.Prelude.Equality.{bytes_eq, bytes_beq}
use peerless_sysytem_fw.Prelude.Dict.{Dict, lookup, insert}
use peerless_sysytem_fw.Core.{ContentId, VerificationPolicy}

pub data VerificationError : Type 0 where
  insufficient_executions no_agreement : VerificationError

-- The loop that counts each output.
abbrev pub tally : List ContentId → Dict Bytes ℕ → Dict Bytes ℕ
tally [] counts = counts
tally (output ∷ outputs) counts =
    tally outputs (insert output (or_zero (lookup output counts) + 1) counts)

-- `filter` and `max_by_key`, which takes the last of the largest.
abbrev pub largest : ℕ → Option (ContentId × ℕ) → List (ContentId × ℕ) → Option (ContentId × ℕ)
largest required best [] = best
largest required none ((output, count) ∷ counts) =
    largest required (if leb required count then some (output, count) else none) counts
largest required (some best) ((output, count) ∷ counts) =
    largest required
      (if leb required count && leb best.1 count then some (output, count) else some best) counts

abbrev pub or_agreement : Option (ContentId × ℕ) → Result VerificationError ContentId
or_agreement none = err VerificationError.no_agreement
or_agreement (some best) = ok best.0

abbrev pub first_output : List ContentId → Result VerificationError ContentId
first_output [] = err VerificationError.insufficient_executions
first_output (output ∷ outputs) = ok output

-- The outputs are all the first of them.
abbrev pub replicated : ℕ → List ContentId → Result VerificationError ContentId
replicated required [] = err VerificationError.insufficient_executions
replicated required (first ∷ outputs) =
    if all (λ output. bytes_beq output first) (take required (first ∷ outputs))
    then ok first
    else err VerificationError.no_agreement

unfoldable pub verify_outputs :
    (Dict Bytes ℕ → List (ContentId × ℕ))
    → VerificationPolicy
    → List ContentId
    → Result VerificationError ContentId
verify_outputs iterate VerificationPolicy.trust_executor outputs = first_output outputs
verify_outputs iterate (VerificationPolicy.replicate_by required) outputs =
    if required == 0 || ltb (length outputs) required
    then err VerificationError.insufficient_executions
    else replicated required outputs
verify_outputs iterate (VerificationPolicy.quorum executions required_matches) outputs =
    if executions == 0
      || (required_matches == 0
          || (ltb executions required_matches || ltb (length outputs) executions))
    then err VerificationError.insufficient_executions
    else or_agreement (largest required_matches none (iterate (tally (take executions outputs) [])))
