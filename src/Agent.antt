-- ===== src/Agent.antt =====
-- The client of the agent on a node (backend/app/services/agent_client.py).
pub mod Frame
pub mod Fake
use vpn_controll_app.Base.{
  ℕ, ◌≤◌, Bool, true, false, ◌||◌, String, Option, none, some, ◌∷◌, leb, ◌==◌, nat_Eq, contains,
  concat, newline, is_empty, is_blank, if◌then◌else◌,
}
use vpn_controll_app.Domain.Json.{
  Value, null, bool, num, str, arr, obj, Items, Fields, end, field, get_field,
}
use vpn_controll_app.Domain.Entities.{ServerNode}
use vpn_controll_app.Errors.Code.{ErrorCode}
use vpn_controll_app.Errors.{Error, app_with, value_error, key_error}
use vpn_controll_app.Outside.{Outside, AgentRequest, AgentResponse, Reply, reply, transport_error}
use vpn_controll_app.Storage.State.{Store}
use vpn_controll_app.Storage.Action.{
  Action, pure, raise, ask, modify, or_raise, raise_if, ◌>>=◌, ◌>>◌,
}

pub record AgentIssueResult : Type 0 where
  pub public_key : String
  pub client_ip : String
  pub config : String
  pub vpn_url : String

-- `x or ""` of an optional text that was tested before.
abbrev pub text_or_empty : Option String → String
text_or_empty none = ""
text_or_empty (some s) = s

-- `"\n".join([a, b, c, d])`
abbrev join_lines : String → String → String → String → String
join_lines a b c d =
    concat a (concat newline (concat b (concat newline (concat c (concat newline d)))))

abbrev id_field : ServerNode → Fields → Fields
id_field node rest = field "server_node_id" (num node.id) rest

-- `payload[key]`, a text by the agent's contract.
abbrev text_field : String → Fields → Action String
text_field key fs = elim (get_field key fs) [ some (str s) ↦ pure s | _ ↦ raise (key_error key) ]

-- A payload that the client reads by keys.
abbrev pub as_object : Value → Action Fields
as_object (obj fs) = pure fs
as_object _ = raise (key_error "object")

module _ (o : Outside) where
  unfoldable pub sign_agent_request : String → String → String → String → String → String
  sign_agent_request secret method path timestamp body =
      o.hmac_sha256_hex secret (join_lines (o.upper method) path timestamp (o.sha256_hex body))

  unfoldable pub peer_path : String → String
  peer_path public_key = concat "/peers/" (o.quote public_key)

  -- The headers of a signed request, or the errors of a node without access data.
  unfoldable pub sign_headers : ServerNode → String → String → String → Fields → Action Fields
  unfolding sign_agent_request
  sign_headers node method path body headers = do
    raise_if (is_blank node.agent_key_id || is_blank node.agent_secret_encrypted) (
        app_with ErrorCode.secret_required "Для узла не настроен доступ к агенту" 400
          (id_field node end))
    secret ←
        or_raise (o.decrypt (text_or_empty node.agent_secret_encrypted))
          (value_error "secret cannot be decrypted")
    timestamp ← ask o.rfc3339_utc_now
    pure (
        field "X-Agent-Key-Id" (str (text_or_empty node.agent_key_id)) (
          field "X-Agent-Timestamp" (str timestamp) (
            field "X-Agent-Signature" (str (sign_agent_request secret method path timestamp body))
              headers)))

  abbrev receive : ServerNode → Reply → Action AgentResponse
  receive node (reply response) = pure response
  receive node (transport_error reason) = raise (
      app_with ErrorCode.agent_unavailable "Узел сейчас недоступен" 502
        (id_field node (field "reason" (str reason) end)))

  -- `self._transport.request(…)`, with the handler of `AgentTransportError`.
  unfoldable pub send : ServerNode → AgentRequest → Action AgentResponse
  send node request = do
    modify (λ s. record s { wire = request ∷ s.wire })
    received ← ask (λ n. o.respond n request)
    receive node received

  abbrev body_text : Option Fields → String
  body_text none = ""
  body_text (some fs) = o.dumps fs

  abbrev content_headers : Option Fields → Fields
  content_headers none = end
  content_headers (some _) = field "Content-Type" (str "application/json") end

  -- `_request`
  unfoldable pub request :
      ServerNode → String → String → Option Fields → Bool → Action AgentResponse
  unfolding sign_headers send
  request node method path body_obj signed = do
    let body = body_text body_obj
    headers ←
        if signed
        then sign_headers node method path body (content_headers body_obj)
        else pure (content_headers body_obj)
    send node (record {
      base_url = node.agent_base_url;
      method = method;
      path = path;
      headers = headers;
      body = body;
    })

  -- `str(response.payload.get("error", ""))` if the payload is a dict, else the empty text.
  unfoldable pub agent_message : Value → String
  agent_message (obj fs) = elim (get_field "error" fs) [
    | none ↦ ""
    | some (str s) ↦ s
    | some v ↦ o.repr v
  ]
  agent_message _ = ""

  abbrev skew_hint : String → Fields → Fields
  skew_hint message details =
      if contains "timestamp outside allowed skew" message
      then field "hint" (str "Часы бэкенда и узла разошлись больше чем на 60 секунд (NTP)") details
      else details

  -- `_expect`
  unfoldable pub expect : AgentResponse → ℕ → ServerNode → Action Value
  unfolding agent_message
  expect response expected_status node =
      let message = agent_message response.payload in
      let details = id_field node (
        field "agent_status" (num response.status_code)
          (field "agent_message" (str message) end)) in
      if response.status_code == expected_status
      then pure response.payload
      else if leb 500 response.status_code
      then raise (app_with ErrorCode.agent_unavailable "Узел ответил ошибкой" 502 details)
      else raise
          (app_with ErrorCode.agent_rejected "Узел отклонил запрос" 502 (skew_hint message details))

  unfoldable pub health : ServerNode → Action Value
  unfolding request expect
  health node = do expect (← request node "GET" "/health" none false) 200 node

  unfoldable pub status : ServerNode → Action Value
  unfolding request expect
  status node = do expect (← request node "GET" "/status" none true) 200 node

  unfoldable pub peers : ServerNode → Action Value
  unfolding request expect
  peers node = do expect (← request node "GET" "/peers" none true) 200 node

  -- `issue_peer` as `DeviceService` calls it, with no `dns`; `endpoint_host` is left out of the
  -- body where it is empty.
  unfoldable pub issue_peer : ServerNode → String → String → Fields → Action AgentIssueResult
  unfolding request expect
  issue_peer node name endpoint_host metadata = do
    let tail = field "metadata" (obj metadata) end
    let rest =
        if is_empty endpoint_host then tail else field "endpoint_host" (str endpoint_host) tail
    response ← request node "POST" "/peers" (some (field "name" (str name) rest)) true
    payload ← expect response 201 node
    answer ← as_object payload
    public_key ← text_field "public_key" answer
    client_ip ← text_field "client_ip" answer
    config ← text_field "config" answer
    vpn_url ← text_field "vpn_url" answer
    pure (record {
      public_key = public_key;
      client_ip = client_ip;
      config = config;
      vpn_url = vpn_url;
    })

  unfoldable pub revoke_peer : ServerNode → String → Action Value
  unfolding request expect peer_path
  revoke_peer node public_key = do
    expect (← request node "DELETE" (peer_path public_key) none true) 200 node
