-- ===== src/Agent/Fake/Addresses.antt =====
-- The addresses that the fake agent gives out.
use vpn_controll_app.Base.{
  ℕ, zero, suc, ◌+◌, ◌≡◌, subst, arith, String, none, some, List, [], ◌∷◌, string_Eq, length, inl,
  inr, Option-cases,
}
use vpn_controll_app.Dict.{lookup}
use vpn_controll_app.Dict.Laws.{AllValues, AllValues-insert}
use vpn_controll_app.Outside.{AgentRequest}
use vpn_controll_app.Agent.Fake.{FakeNode, FakeTransport, FakeWorld, new_node, node_at, request}
use vpn_controll_app.Agent.Fake.Octets.{
  AddressLaw, IsAddressed, new_node-IsAddressed, later-IsAddressed, respond-IsAddressed,
}

module _ (w : FakeWorld) where
  -- The transport after a list of requests, each with the key that is drawn if a peer is issued.
  unfoldable pub run : List (String × AgentRequest) → FakeTransport → FakeTransport
  run [] t = t
  run ((key, r) ∷ rest) t = run rest (request w key r t).1

  abbrev AllAddressed : ℕ → FakeTransport → Type 0
  AllAddressed count t =
      AllValues (λ (url : String) (node : FakeNode). IsAddressed w count node) t.nodes

  started-IsAddressed : (count : ℕ) → IsAddressed w count new_node
  started-IsAddressed zero = new_node-IsAddressed w
  started-IsAddressed (suc count) = later-IsAddressed w count new_node (started-IsAddressed count)

  node_at-IsAddressed :
      (count : ℕ) (url : String) (t : FakeTransport)
      → AllAddressed count t
      → IsAddressed w count (node_at w url t)
  node_at-IsAddressed count url t h = elim (Option-cases (lookup url t.nodes)) [
    | inl absent ↦ rw (absent, node_at) (started-IsAddressed count)
    | inr (node, present) ↦ rw (present, node_at) (h url node present)
  ]

  request-AllAddressed :
      (count : ℕ) (key : String) (r : AgentRequest) (t : FakeTransport)
      → AddressLaw w
      → AllAddressed count t
      → AllAddressed (suc count) (request w key r t).1
  unfolding request
  request-AllAddressed count key r t law h =
      AllValues-insert _ r.base_url _ t.nodes
        (λ url node found. later-IsAddressed w count node (h url node found))
        (respond-IsAddressed w count _ key r law (node_at-IsAddressed count r.base_url t h))

  run-AllAddressed :
      (requests : List (String × AgentRequest)) (count : ℕ) (t : FakeTransport)
      → AddressLaw w
      → AllAddressed count t
      → AllAddressed (count + length requests) (run requests t)
  unfolding run
  run-AllAddressed [] count t law h = subst (λ n. AllAddressed n t) (omega arith) h
  run-AllAddressed ((key, r) ∷ rest) count t law h =
      subst (λ n. AllAddressed n (run rest (request w key r t).1)) (omega arith)
        (run-AllAddressed rest (suc count) (request w key r t).1 law
          (request-AllAddressed count key r t law h))

  -- After any requests to the fake agents, no two peers of a node have the same address, and each
  -- address is 10.8.1.i with i at least 2 and less than 2 more than the number of requests; this is
  -- given that two numbers never give the same address.
  pub run-addresses :
      (requests : List (String × AgentRequest)) (url : String) (node : FakeNode)
      → AddressLaw w
      → lookup url (run requests (record { nodes = []; last_request = none })).nodes ≡ some node
      → IsAddressed w (length requests) node
  unfolding lookup
  run-addresses requests url node law found =
      subst (λ n. IsAddressed w n node) (omega arith)
        (run-AllAddressed requests 0 (record { nodes = []; last_request = none }) law (λ k n q. cc)
          url node found)
