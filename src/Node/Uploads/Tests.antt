-- ===== src/Node/Uploads/Tests.antt =====
-- Runs of the node's uploads (crates/peerless-node/src/lib.rs) with a hash that is the identity.
use peerless_sysytem_fw.Prelude.{
  ℕ, zero, suc, ◌≤◌, ◌<◌, ◌≡◌, ◌≢◌, refl, true, List, [], ◌∷◌, Bytes, some, arith, length, All,
  get_elem?,
}
use peerless_sysytem_fw.Prelude.Slots.{seen}
use peerless_sysytem_fw.Core.{NodeId, ContentId, content_id_of}
use peerless_sysytem_fw.Node.Uploads.{
  Request, Completed, content_start, content_complete, serve_uploads, reserved_except,
}
use peerless_sysytem_fw.Node.Uploads.Transfer.{
  Pieces, Sends, sent, serve_uploads-content_complete, key,
}

abbrev same : Bytes → Bytes
same b = b

abbrev alice : NodeId
alice = 1 ∷ []

abbrev bob : NodeId
bob = 2 ∷ []

abbrev content : Bytes
content = 7 ∷ 8 ∷ 9 ∷ []

abbrev content_key : NodeId × ContentId
content_key = key same alice content (content ∷ [])

bob-ne : (bob, content) ≢ content_key
bob-ne p = absurd (ground arith)

-- The third session of Bob's is too large, and his chunk has no session.
abbrev requests : List Request
requests =
    Request.chunk (bob, content) 0 content content
    ∷ Request.start (bob, content) 5 65536
    ∷ Request.chunk content_key 0 content content
    ∷ Request.complete (bob, content)
    ∷ []

piece_short : (i : ℕ) (c : Bytes) → get_elem? (content ∷ []) i ≡ some c → length c ≤ 65536
piece_short zero c h = ground arith
piece_short (suc i) c h = absurd (ground arith)

content-Pieces : Pieces content (content ∷ [])
content-Pieces = record { joined = refl; counted = refl; short = piece_short }

requests-Sends : All (Sends same alice content (content ∷ [])) requests
unfolding content_id_of
requests-Sends = (
  Sends.other_chunk (bob, content) 0 content content bob-ne,
  (
    Sends.other_start (bob, content) 5 65536 bob-ne,
    (Sends.piece 0 content refl, (Sends.other_complete (bob, content) bob-ne, tt)),
  ),
)

all_sent : (j : ℕ) → j < 1 → seen j (sent same alice content (content ∷ []) requests []) ≡ true
unfolding sent content_id_of
all_sent zero h = refl
all_sent (suc j) h = absurd (omega (arith, h))

serve_uploads-content_complete_example :
    (content_complete same
      (serve_uploads same (content_start [] content_key 3 65536).1 requests)
      content_key).0
    ≡ Completed.stored content
unfolding content_start reserved_except
serve_uploads-content_complete_example =
    serve_uploads-content_complete same alice content (content ∷ []) content-Pieces [] refl requests
      requests-Sends all_sent
