-- ===== src/Agent/Fake/Peers.antt =====
-- A peer of the fake agent, from its issue to its revocation by the client's path.
use text.Mathlib.TextLemmas.{nil-append, cons-append}
use text.Mathlib.TextPositions.{starts_with-append}
use vpn_controll_app.Base.{
  ◌≡◌, refl, ap, ◌∙◌, arith, true, String, none, some, [], ◌∷◌, string_Eq, concat, remove_prefix,
  Eq, is_some,
}
use vpn_controll_app.Dict.{Dict, lookup, insert, erase}
use vpn_controll_app.Dict.Laws.{lookup-insert_self, equal_self}
use vpn_controll_app.Domain.Json.{Fields, obj}
use vpn_controll_app.Outside.{Outside, AgentRequest}
use vpn_controll_app.Agent.{peer_path}
use vpn_controll_app.Agent.Fake.{
  FakePeer, FakeNode, FakeTransport, FakeWorld, address, field_or, issue_read, issue, with_peer,
  revoke_known, revoke, respond, node_at, request,
}

-- `unquote` undoes `quote`.
abbrev pub QuoteLaw : Outside → FakeWorld → Type 0
QuoteLaw o w = (s : String) → w.unquote (o.quote s) ≡ s

-- A text put before another, and removed.
remove_prefix-concat : (p s : String) → remove_prefix p (concat p s) ≡ s
unfolding remove_prefix
remove_prefix-concat String.[] s = nil-append s
remove_prefix-concat (String.◌∷◌ c p) s = rw (cons-append c p s) (remove_prefix-concat p s)

-- A key that is not there, put in and taken out.
erase-insert {ℓ κ} :
    {K : Type ℓ} {V : Type κ} ⦃e : Eq K⦄ (k : K) (v : V) (d : Dict K V)
    → lookup k d ≡ none
    → erase k (insert k v d) ≡ d
unfolding lookup insert erase
erase-insert ⦃e⦄ k v [] h = ground (arith, equal_self k)
erase-insert ⦃e⦄ k v ((j, w) ∷ d) h = ground (arith, e.is_equal_iff j k, erase-insert k v d)

module _ (o : Outside) (w : FakeWorld) where
  node_at-request :
      (key : String) (r : AgentRequest) (t : FakeTransport)
      → node_at w r.base_url (request w key r t).1 ≡ (respond w key r (node_at w r.base_url t)).1
  unfolding request
  node_at-request key r t =
      rw
        (
          lookup-insert_self r.base_url (respond w key r (node_at w r.base_url t)).1 t.nodes,
          node_at,
        )
        refl

  -- The request by which the client issues a peer, and the one by which it revokes a key.
  abbrev pub issuing : String → Fields → String → AgentRequest
  issuing url headers body = record {
    base_url = url;
    method = "POST";
    path = "/peers";
    headers = headers;
    body = body;
  }

  abbrev pub revoking : String → Fields → String → AgentRequest
  revoking url headers key = record {
    base_url = url;
    method = "DELETE";
    path = peer_path o key;
    headers = headers;
    body = "";
  }

  respond-issuing :
      (url : String) (headers body_fields : Fields) (body key : String) (node : FakeNode)
      → w.loads body ≡ some (obj body_fields)
      → (respond w key (issuing url headers body) node).1 ≡ with_peer w key body_fields node
  unfolding respond issue
  respond-issuing url headers body_fields body key node read = rw (read, issue_read) refl

  respond-revoking :
      (url : String) (headers : Fields) (key drawn : String) (peer : FakePeer) (node : FakeNode)
      → QuoteLaw o w
      → lookup key node.peers ≡ some peer
      → (respond w drawn (revoking url headers key) node).1
        ≡ record node { peers = erase key node.peers }
  unfolding respond peer_path revoke
  respond-revoking url headers key drawn peer node law found =
      rw (starts_with-append "/peers/" (o.quote key)) (
        rw (remove_prefix-concat "/peers/" (o.quote key))
          (rw (law key) (rw (found, revoke_known) refl)))

  -- The transport after a peer was issued, and after its key was revoked too.
  abbrev pub after_issue : String → Fields → String → String → FakeTransport → FakeTransport
  after_issue url headers body key t = (request w key (issuing url headers body) t).1

  abbrev pub after_revoke :
      String → Fields → String → String → String → FakeTransport → FakeTransport
  after_revoke url headers body key drawn t =
      (request w drawn (revoking url headers key) (after_issue url headers body key t)).1

  -- A peer that is issued under a key that its node does not have is there, and is gone after the
  -- client has revoked the key, whatever characters the key has: the node's peers are those before
  -- the issue. This is given that unquoting undoes quoting, and that the body is an object.
  pub issue-revoke :
      (url body key drawn : String) (headers body_fields : Fields) (t : FakeTransport)
      → QuoteLaw o w
      → w.loads body ≡ some (obj body_fields)
      → lookup key (node_at w url t).peers ≡ none
      → (is_some (lookup key (node_at w url (after_issue url headers body key t)).peers) ≡ true)
        × ((node_at w url (after_revoke url headers body key drawn t)).peers
            ≡ (node_at w url t).peers)
  issue-revoke url body key drawn headers body_fields t law read fresh =
      let node = node_at w url t in
      let peer : FakePeer = record {
        public_key = key;
        name = field_or w "name" "" body_fields;
        client_ip = address w node.next_ip_octet;
      } in
      let issued =
        node_at-request key (issuing url headers body) t
        ∙ respond-issuing url headers body_fields body key node read in
      let found = lookup-insert_self key peer node.peers in
      let present = ap (λ (n : FakeNode). lookup key n.peers) issued ∙ found in
      let revoked =
        node_at-request drawn (revoking url headers key) (after_issue url headers body key t)
        ∙ respond-revoking url headers key drawn peer _ law present in
      (
        ap is_some present,
        ap (λ (n : FakeNode). n.peers) revoked
            ∙ ap (λ (n : FakeNode). erase key n.peers) issued
            ∙ erase-insert key peer node.peers fresh,
      )
