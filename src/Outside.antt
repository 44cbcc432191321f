-- ===== src/Outside.antt =====
-- What the program asks of the world outside it. The n-th question of a run gets the n-th
-- answer: a reading of the clock, a fresh uuid4, random text, an agent's reply. `lower` is the
-- Unicode case mapping behind `str.lower`, and `digest` is SHA-256 of a session token.
use vpn_controll_app.Base.{ℕ, Bool, false, String, Option, some, ◌≡◌, is_empty}
use vpn_controll_app.Domain.Json.{Value, Fields}

pub record AgentRequest : Type 0 where
  pub base_url : String
  pub method : String
  pub path : String
  pub headers : Fields
  pub body : String

pub record AgentResponse : Type 0 where
  pub status_code : ℕ
  pub payload : Value

-- What `AgentTransport.request` ends with: a response, or `AgentTransportError` with its reason.
pub data Reply : Type 0 where
  reply : AgentResponse → Reply
  transport_error : String → Reply

-- `hash` takes the number
-- of the question for its salt, `encrypt` for its nonce; `decrypt` is none where it raises.
-- `dumps` is the JSON text of a body, `repr` is `str` of a JSON value, `quote` is
-- `urllib.parse.quote` with no safe character.
pub record Outside : Type 0 where
  pub clock : ℕ → ℕ
  pub uuid4 : ℕ → ℕ
  pub session_token : ℕ → String
  pub agent_key_id : ℕ → String
  pub agent_secret : ℕ → String
  pub rfc3339_utc_now : ℕ → String
  pub lower : String → String
  pub upper : String → String
  pub digest : String → ℕ
  pub hash : ℕ → String → String
  pub verify : String → String → Bool
  pub encrypt : ℕ → String → String
  pub decrypt : String → Option String
  pub sha256_hex : String → String
  pub hmac_sha256_hex : String → String → String
  pub dumps : Fields → String
  pub repr : Value → String
  pub quote : String → String
  pub respond : ℕ → AgentRequest → Reply

-- What `SecretBox` promises its clients.
abbrev pub BoxLaw : Outside → Type 0
BoxLaw o = (n : ℕ) (s : String) → o.decrypt (o.encrypt n s) ≡ some s

-- No sealed text is empty.
abbrev pub SealedLaw : Outside → Type 0
SealedLaw o = (n : ℕ) (s : String) → is_empty (o.encrypt n s) ≡ false
