-- ===== src/Agent/Frame.antt =====
-- A call of the agent changes nothing in the storage: it asks the outside and writes on the wire.
use vpn_controll_app.Base.{ℕ, ◌≤◌, Bool, String, Option, ◌≡◌, arith}
use vpn_controll_app.Domain.Json.{Fields}
use vpn_controll_app.Domain.Entities.{ServerNode}
use vpn_controll_app.Outside.{Outside, AgentResponse}
use vpn_controll_app.Storage.State.{Store}
use vpn_controll_app.Agent.{request, expect, health, status, peers, issue_peer, revoke_peer}

-- Only the dialogue with the outside has moved on.
abbrev pub OnlyAsked : Store → Store → Type 0
OnlyAsked s t = (t ≡ record s { asked = t.asked; wire = t.wire }) × (s.asked ≤ t.asked)

module _ (o : Outside) where
  request-OnlyAsked :
      (node : ServerNode) (method path : String) (body : Option Fields) (signed : Bool) (s : Store)
      → OnlyAsked s (request o node method path body signed s).1
  unfolding request
  request-OnlyAsked node method path body signed s = ground arith

  expect-OnlyAsked :
      (r : AgentResponse) (n : ℕ) (node : ServerNode) (s : Store)
      → OnlyAsked s (expect o r n node s).1
  unfolding expect
  expect-OnlyAsked r n node s = ground arith

  pub issue_peer-OnlyAsked :
      (node : ServerNode) (name host : String) (metadata : Fields) (s : Store)
      → OnlyAsked s (issue_peer o node name host metadata s).1
  unfolding issue_peer
  issue_peer-OnlyAsked node name host metadata s = ground arith

  pub revoke_peer-OnlyAsked :
      (node : ServerNode) (key : String) (s : Store) → OnlyAsked s (revoke_peer o node key s).1
  unfolding revoke_peer
  revoke_peer-OnlyAsked node key s = ground arith

  pub health-OnlyAsked : (node : ServerNode) (s : Store) → OnlyAsked s (health o node s).1
  unfolding health
  health-OnlyAsked node s = ground arith

  pub status-OnlyAsked : (node : ServerNode) (s : Store) → OnlyAsked s (status o node s).1
  unfolding status
  status-OnlyAsked node s = ground arith

  pub peers-OnlyAsked : (node : ServerNode) (s : Store) → OnlyAsked s (peers o node s).1
  unfolding peers
  peers-OnlyAsked node s = ground arith
