-- ===== src/Agent/Fake.antt =====
-- `FakeAgentTransport` (backend/app/services/agent_client.py): the agent of AGENT_MODE=fake, with
-- a state for each base URL.
pub mod Octets
pub mod Addresses
pub mod Peers
use text.Mathlib.Text.{starts_with}
use vpn_controll_app.Base.{
  ℕ, suc, Bool, true, false, not, ◌&&◌, String, Option, none, some, List, [], ◌∷◌, length, map,
  ◌==◌, string_Eq, concat, remove_prefix, if◌then◌else◌,
}
use vpn_controll_app.Dict.{Dict, lookup, insert, erase, set_default, values}
use vpn_controll_app.Domain.Json.{
  Value, null, bool, num, str, arr, obj, Items, nil, cons, Fields, end, field, get_field, is_truthy,
}
use vpn_controll_app.Outside.{AgentRequest, AgentResponse}

-- `_FakePeer` and `_FakeNodeState`
pub record FakePeer : Type 0 where
  pub public_key : String
  pub name : String
  pub client_ip : String

pub record FakeNode : Type 0 where
  pub peers : Dict String FakePeer
  pub next_ip_octet : ℕ

pub record FakeTransport : Type 0 where
  pub nodes : Dict String FakeNode
  pub last_request : Option AgentRequest

abbrev pub new_node : FakeNode
new_node = record { peers = []; next_ip_octet = 2 }

-- What the transport calls of Python: `loads` is none where it raises ValueError; `str` of a
-- number and `repr` of another value; `link` is the base64 text of a peer's link; `join` is
-- `", ".join(x)` of a value, none where it raises TypeError.
pub record FakeWorld : Type 0 where
  pub loads : String → Option Value
  pub text : ℕ → String
  pub repr : Value → String
  pub join : Value → Option String
  pub link : String → String
  pub unquote : String → String

abbrev failure : ℕ → String → String → AgentResponse
failure status error text = record {
  status_code = status;
  payload = obj (
      field "error" (str error) (field "status" (num status) (field "status_text" (str text) end)));
}

module _ (w : FakeWorld) where
  -- `f"10.8.1.{n}"`
  abbrev pub address : ℕ → String
  address n = concat "10.8.1." (w.text n)

  -- `str(x)`
  abbrev pub text_of : Value → String
  text_of (str s) = s
  text_of v = w.repr v

  abbrev pub field_or : String → String → Fields → String
  field_or key d fs = elim (get_field key fs) [ none ↦ d | some v ↦ text_of v ]

  -- `request.get(key) or d`, as a text of the configuration.
  abbrev true_or : String → String → Fields → String
  true_or key d fs = elim (get_field key fs) [
    | none ↦ d
    | some v ↦ if is_truthy v then text_of v else d
  ]

  -- `', '.join(request.get("dns") or ["1.1.1.1", "8.8.8.8"])`
  abbrev dns_of : Fields → Option String
  dns_of fs = elim (get_field "dns" fs) [
    | none ↦ some "1.1.1.1, 8.8.8.8"
    | some v ↦ if is_truthy v then w.join v else some "1.1.1.1, 8.8.8.8"
  ]

  abbrev config_of : String → String → String → String
  config_of client_ip dns endpoint_host = concat "[Interface]\nAddress = " (
      concat client_ip (
        concat "/32\nDNS = " (
          concat dns (
            concat
              "\nPrivateKey = fake-client-private-key\nJc = 6\nJmin = 10\nJmax = 50\n\n[Peer]\nPublicKey = fake-server-public-key\nPresharedKey = fake-preshared-key\nAllowedIPs = 0.0.0.0/0, ::/0\nEndpoint = "
              (concat endpoint_host ":51820\n")))))

  abbrev issued : String → String → String → String → AgentResponse
  issued public_key client_ip dns endpoint_host = record {
    status_code = 201;
    payload = obj (
        field "public_key" (str public_key) (
          field "client_ip" (str client_ip) (
            field "config" (str (config_of client_ip dns endpoint_host)) (
              field "vpn_url"
                (str (
                  concat "vpn://"
                    (w.link (concat "fake:" (concat public_key (concat ":" client_ip))))))
                end))));
  }

  -- The state with the octet taken, and with the peer.
  abbrev pub with_octet : FakeNode → FakeNode
  with_octet node = record node { next_ip_octet = suc node.next_ip_octet }

  abbrev pub with_peer : String → Fields → FakeNode → FakeNode
  with_peer public_key request node = record {
    peers =
        insert public_key
          (record {
            public_key = public_key;
            name = field_or "name" "" request;
            client_ip = address node.next_ip_octet;
          })
          node.peers;
    next_ip_octet = suc node.next_ip_octet;
  }

  -- `_issue` once the body was read, with a fresh public key; none where an exception leaves it.
  unfoldable pub issue_read : String → Option Value → FakeNode → Option AgentResponse × FakeNode
  issue_read public_key none node = (some (failure 400 "invalid JSON" "Bad Request"), node)
  issue_read public_key (some (obj body)) node = (
    elim (dns_of body) [
      | none ↦ none
      | some dns ↦ some (
          issued public_key (address node.next_ip_octet) dns
            (true_or "endpoint_host" "203.0.113.10" body))
    ],
    with_peer public_key body node,
  )
  issue_read public_key (some other) node = (none, with_octet node)

  -- `_issue`
  unfoldable pub issue : String → String → FakeNode → Option AgentResponse × FakeNode
  unfolding issue_read
  issue public_key body node = issue_read public_key (w.loads body) node

  -- `_revoke` of a peer that was looked up.
  unfoldable pub revoke_known :
      String → Option FakePeer → FakeNode → Option AgentResponse × FakeNode
  revoke_known public_key none node = (some (failure 404 "peer not found" "Not Found"), node)
  revoke_known public_key (some peer) node = (
    some (record {
      status_code = 200;
      payload = obj (field "revoked" (bool true) (field "public_key" (str public_key) end));
    }),
    record node { peers = erase public_key node.peers },
  )

  -- `_revoke`
  unfoldable pub revoke : String → FakeNode → Option AgentResponse × FakeNode
  unfolding revoke_known
  revoke public_key node = revoke_known public_key (lookup public_key node.peers) node

  -- `_status_payload`
  unfoldable pub status_payload : FakeNode → Fields
  status_payload node = field "container" (str "amnezia-awg2") (
      field "container_running" (bool true) (
        field "container_image" (str "amneziavpn/amnezia-wg:fake") (
          field "container_created" (str "2026-01-01T00:00:00Z") (
            field "interface" (str "awg0") (
              field "runtime_interface" (str "awg0") (
                field "runtime_public_key" (str "fake-server-public-key") (
                  field "listen_port" (str "51820") (
                    field "config_path" (str "/opt/amnezia/awg/awg0.conf") (
                      field "config_exists" (bool true) (
                        field "clients_table_path" (str "/opt/amnezia/awg/clientsTable") (
                          field "peer_count_config" (num (length node.peers))
                            (field "peer_count_runtime" (num (length node.peers)) end))))))))))))

  abbrev one : String → Value
  one s = arr (cons (str s) nil)

  -- `_peer_view`
  unfoldable pub peer_view : FakePeer → Value
  peer_view peer = obj (
      field "public_key" (str peer.public_key) (
        field "name" (str peer.name) (
          field "allowed_ips_config" (one (concat peer.client_ip "/32")) (
            field "allowed_ips_runtime" (one (concat peer.client_ip "/32")) (
              field "in_config" (bool true) (
                field "in_runtime" (bool true) (
                  field "in_clients_table" (bool true) (
                    field "endpoint" (str "198.51.100.7:54321") (
                      field "latest_handshake" (str "1 minute, 3 seconds ago") (
                        field "transfer_received" (str "1.2 MiB")
                          (field "transfer_sent" (str "3.4 MiB") end)))))))))))

  unfoldable pub views : List FakePeer → Items
  unfolding peer_view
  views [] = nil
  views (peer ∷ rest) = cons (peer_view peer) (views rest)

  abbrev fine : Value → Option AgentResponse
  fine payload = some (record { status_code = 200; payload = payload })

  -- `method == m and path == p`
  abbrev pub is_route : String → String → AgentRequest → Bool
  is_route m p r = r.method == m && r.path == p

  abbrev pub is_revocation : AgentRequest → Bool
  is_revocation r = r.method == "DELETE" && starts_with r.path "/peers/"

  -- The branches of `request` on the state of one node.
  unfoldable pub respond : String → AgentRequest → FakeNode → Option AgentResponse × FakeNode
  unfolding status_payload views
  respond public_key r node =
      if is_route "GET" "/health" r
      then (fine (obj (field "status" (str "ok") (field "version" (str "0.2.0") end))), node)
      else if is_route "GET" "/status" r
      then (fine (obj (status_payload node)), node)
      else if is_route "GET" "/peers" r
      then (fine (arr (views (values node.peers))), node)
      else if is_route "POST" "/peers" r
      then issue public_key r.body node
      else if is_revocation r
      then revoke (w.unquote (remove_prefix "/peers/" r.path)) node
      else (some (failure 404 "not found" "Not Found"), node)

  -- `self._nodes.setdefault(base_url, _FakeNodeState())`
  abbrev pub node_at : String → FakeTransport → FakeNode
  node_at base_url t = elim (lookup base_url t.nodes) [ none ↦ new_node | some node ↦ node ]

  unfoldable pub request :
      String → AgentRequest → FakeTransport → Option AgentResponse × FakeTransport
  request public_key r t =
      let (response, node) = respond public_key r (node_at r.base_url t) in
      (response, record { nodes = insert r.base_url node t.nodes; last_request = some r })
