-- ===== src/Agent/Fake/Octets.antt =====
-- The addresses that one fake node gives out.
use vpn_controll_app.Base.{
  ℕ, suc, ◌+◌, ◌≤◌, ◌<◌, ◌≡◌, ◌≢◌, refl, sym, ap, ◌∙◌, arith, String, Option, none, some, string_Eq,
  inl, inr, Bool-cases,
}
use vpn_controll_app.Dict.{Dict, lookup, erase}
use vpn_controll_app.Dict.Laws.{AllValues, AllValues-insert, insert_cases, lookup-erase}
use vpn_controll_app.Domain.Json.{Value, null, bool, num, str, arr, obj, Fields}
use vpn_controll_app.Outside.{AgentRequest}
use vpn_controll_app.Agent.Fake.{
  FakePeer, FakeNode, FakeWorld, new_node, address, with_octet, with_peer, issue_read, issue,
  revoke_known, revoke, respond, is_route, is_revocation,
}

-- Two numbers never give the same address.
abbrev pub AddressLaw : FakeWorld → Type 0
AddressLaw w = (m n : ℕ) → address w m ≡ address w n → m ≡ n

module _ (w : FakeWorld) where
  -- Each peer has the address of an octet that was given out, and no other peer has it.
  pub record IsAddressed (count : ℕ) (node : FakeNode) : Type 0 where
    pub given : node.next_ip_octet ≤ 2 + count
    pub started : 2 ≤ node.next_ip_octet
    pub ranged :
        AllValues
          (λ (k : String) (p : FakePeer).
            (i : ℕ) × (p.client_ip ≡ address w i) × (2 ≤ i) × (i < node.next_ip_octet))
          node.peers
    pub distinct :
        (j k : String) (p q : FakePeer)
        → lookup j node.peers ≡ some p
        → lookup k node.peers ≡ some q
        → p.client_ip ≡ q.client_ip
        → j ≡ k

  pub new_node-IsAddressed : IsAddressed 0 new_node
  unfolding lookup
  new_node-IsAddressed = record {
    given = omega arith;
    started = omega arith;
    ranged = λ k p h. cc;
    distinct = λ j k p q h. cc;
  }

  pub later-IsAddressed :
      (count : ℕ) (node : FakeNode) → IsAddressed count node → IsAddressed (suc count) node
  later-IsAddressed count node h = record {
    given = omega (arith, h.given);
    started = h.started;
    ranged = h.ranged;
    distinct = h.distinct;
  }

  with_octet-IsAddressed :
      (count : ℕ) (node : FakeNode)
      → IsAddressed count node
      → IsAddressed (suc count) (with_octet w node)
  with_octet-IsAddressed count node h = record {
    given = omega (arith, h.given);
    started = omega (arith, h.started);
    ranged = λ k p q. let (i, same, low, high) = h.ranged k p q in (i, same, low, omega arith);
    distinct = h.distinct;
  }

  -- The next address is no peer's.
  unused_address :
      (count : ℕ) (node : FakeNode) (k : String) (p : FakePeer)
      → AddressLaw w
      → IsAddressed count node
      → lookup k node.peers ≡ some p
      → address w node.next_ip_octet ≢ p.client_ip
  unused_address count node k p law h found same =
      let (i, at, low, high) = h.ranged k p found in
      let equal : node.next_ip_octet ≡ i = law _ _ (same ∙ at) in absurd (omega arith)

  with_peer-IsAddressed :
      (count : ℕ) (node : FakeNode) (key : String) (body : Fields)
      → AddressLaw w
      → IsAddressed count node
      → IsAddressed (suc count) (with_peer w key body node)
  with_peer-IsAddressed count node key body law h = record {
    given = omega (arith, h.given);
    started = omega (arith, h.started);
    ranged =
        AllValues-insert _ key _ node.peers
          (λ k p q. let (i, same, low, high) = h.ranged k p q in (i, same, low, omega arith))
          (node.next_ip_octet, refl, h.started, omega arith);
    distinct = λ j k p q at_j at_k same. elim (insert_cases key j _ p node.peers at_j) [
      | inl (key_j, new_p) ↦ elim (insert_cases key k _ q node.peers at_k) [
        | inl (key_k, new_q) ↦ sym key_j ∙ key_k
        | inr old_q ↦ absurd (
            unused_address count node k q law h old_q
              (ap (λ (x : FakePeer). x.client_ip) new_p ∙ same))
      ]
      | inr old_p ↦ elim (insert_cases key k _ q node.peers at_k) [
        | inl (key_k, new_q) ↦ absurd (
            unused_address count node j p law h old_p
              (ap (λ (x : FakePeer). x.client_ip) new_q ∙ sym same))
        | inr old_q ↦ h.distinct j k p q old_p old_q same
      ]
    ];
  }

  erased_cases :
      (key k : String) (p : FakePeer) (d : Dict String FakePeer)
      → lookup k (erase key d) ≡ some p
      → lookup k d ≡ some p
  erased_cases key k p d h = ground (arith, lookup-erase key k d)

  erase-IsAddressed :
      (count : ℕ) (node : FakeNode) (key : String)
      → IsAddressed count node
      → IsAddressed (suc count) (record node { peers = erase key node.peers })
  erase-IsAddressed count node key h = record {
    given = omega (arith, h.given);
    started = h.started;
    ranged = λ k p q. h.ranged k p (erased_cases key k p node.peers q);
    distinct = λ j k p q at_j at_k.
        h.distinct j k p q (erased_cases key j p node.peers at_j)
          (erased_cases key k q node.peers at_k);
  }

  issue_read-IsAddressed :
      (count : ℕ) (node : FakeNode) (key : String) (v : Option Value)
      → AddressLaw w
      → IsAddressed count node
      → IsAddressed (suc count) (issue_read w key v node).1
  unfolding issue_read
  issue_read-IsAddressed count node key none law h = later-IsAddressed count node h
  issue_read-IsAddressed count node key (some null) law h = with_octet-IsAddressed count node h
  issue_read-IsAddressed count node key (some (bool b)) law h = with_octet-IsAddressed count node h
  issue_read-IsAddressed count node key (some (num n)) law h = with_octet-IsAddressed count node h
  issue_read-IsAddressed count node key (some (str t)) law h = with_octet-IsAddressed count node h
  issue_read-IsAddressed count node key (some (arr xs)) law h = with_octet-IsAddressed count node h
  issue_read-IsAddressed count node key (some (obj body)) law h =
      with_peer-IsAddressed count node key body law h

  revoke_known-IsAddressed :
      (count : ℕ) (node : FakeNode) (key : String) (p : Option FakePeer)
      → IsAddressed count node
      → IsAddressed (suc count) (revoke_known w key p node).1
  unfolding revoke_known
  revoke_known-IsAddressed count node key none h = later-IsAddressed count node h
  revoke_known-IsAddressed count node key (some p) h = erase-IsAddressed count node key h

  pub respond-IsAddressed :
      (count : ℕ) (node : FakeNode) (key : String) (r : AgentRequest)
      → AddressLaw w
      → IsAddressed count node
      → IsAddressed (suc count) (respond w key r node).1
  unfolding respond issue revoke
  respond-IsAddressed count node key r law h =
      let later = later-IsAddressed count node h in
      elim (Bool-cases (is_route w "GET" "/health" r)) [
        | inl health ↦ rw (health) (later)
        | inr no_health ↦ elim (Bool-cases (is_route w "GET" "/status" r)) [
          | inl status ↦ rw (no_health, status) (later)
          | inr no_status ↦ elim (Bool-cases (is_route w "GET" "/peers" r)) [
            | inl peers ↦ rw (no_health, no_status, peers) (later)
            | inr no_peers ↦ elim (Bool-cases (is_route w "POST" "/peers" r)) [
              | inl post ↦
                  rw (no_health, no_status, no_peers, post)
                    (issue_read-IsAddressed count node key _ law h)
              | inr no_post ↦ elim (Bool-cases (is_revocation w r)) [
                | inl delete ↦
                    rw (no_health, no_status, no_peers, no_post, delete)
                      (revoke_known-IsAddressed count node _ _ h)
                | inr no_delete ↦ rw (no_health, no_status, no_peers, no_post, no_delete) later
              ]
            ]
          ]
        ]
      ]
