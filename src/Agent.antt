-- ===== src/Agent.antt =====
-- agent/windows/TroofAI.Companion: the agent on the user's machine. Its key (Services/KeyService.cs),
-- its enrollment (EnrollmentService.cs), what it signs (ChallengeSigningService.cs), and what it answers
-- to a page (BindingService.cs) and to the hub (WebSocketService.cs), as Program.cs puts them together.
-- RSA and the key storage of Windows are parameters; what is printed is left out.
pub mod Keys
pub mod Rounds
pub mod Bindings
use troofai_mvp.Prelude.{
  ℕ, suc, String, ◌≡◌, ◌≢◌, Bool, true, false, ◌&&◌, Option, none, some, List, [], ◌∷◌,
  if◌then◌else◌,
}
use troofai_mvp.Prelude.Text.{join_lines, has_chars}
use troofai_mvp.Platform.{Platform, ChallengePayload}
use troofai_mvp.Exec.{Result, ok, thrown}
use troofai_mvp.World.{World, truthy}
use troofai_mvp.Device.{EnrollDeviceDto}
use troofai_mvp.Meeting.{JoinToken}
use troofai_mvp.Api.{BindDeviceDto, enroll_request}
use troofai_mvp.Api.Requests.{
  Response, SocketEvent, device_connect, device_heartbeat, challenge_response, devices, serve,
}
use troofai_mvp.ZoomMeeting.{AgentAnswer, declined, signed}

-- RSA keys of .NET: the public part as a PEM text, and a signature in base64.
pub record Rsa : Type 1 where
  pub Key : Type 0
  pub public_key_pem : Key → String
  pub sign : Key → String → String

-- What Windows keeps: the key in the TPM and the one in software storage under the agent's name, whether
-- the TPM can make a key, and the keys that are made from now on.
pub record KeyStore (rsa : Rsa) : Type 0 where
  pub tpm : Option rsa.Key
  pub software : Option rsa.Key
  pub has_tpm : Bool
  pub made : ℕ
  pub next : ℕ → rsa.Key

-- troofai-device.json
pub record DeviceConfig : Type 0 where
  pub device_id : String
  pub tenant_id : String
  pub user_id : String

-- An agent that runs: the services after `EnrollAsync` has set their fields.
pub record Agent (rsa : Rsa) : Type 0 where
  pub key : rsa.Key
  pub hardware_bound : Bool
  pub device_id : String
  pub tenant_id : String
  pub user_id : String

module _ (rsa : Rsa) where
  -- `TryLoadExistingKey`: the TPM first.
  abbrev pub try_load : KeyStore rsa → Option (rsa.Key × Bool)
  try_load store = elim store.tpm [
    | some k ↦ some (k, true)
    | none ↦ elim store.software [ some k ↦ some (k, false) | none ↦ none ]
  ]

  -- A new key: in the TPM under the agent's name, or, without a TPM, one that is kept nowhere.
  abbrev pub make_key : Bool → KeyStore rsa → (rsa.Key × Bool) × KeyStore rsa
  make_key true store =
      let k = store.next store.made in
      ((k, true), record store { tpm = some k; made = suc store.made })
  make_key false store = ((store.next store.made, false), record store { made = suc store.made })

  -- `Initialize`
  unfoldable pub initialize : KeyStore rsa → (rsa.Key × Bool) × KeyStore rsa
  initialize store = elim (try_load store) [
    | some loaded ↦ (loaded, store)
    | none ↦ make_key store.has_tpm store
  ]

  -- The text of `SignChallenge`: tenant, device and user are the agent's own.
  unfoldable pub challenge_material : Agent rsa → ChallengePayload → String
  unfolding join_lines
  challenge_material agent c = join_lines (
      "troofai-v1" ∷ c.challenge_id ∷ agent.tenant_id ∷ agent.device_id ∷ agent.user_id
      ∷ c.meeting_id ∷ c.participant_id ∷ c.nonce ∷ c.issued_at ∷ c.expires_at ∷ [])

  -- The text of `SignBinding`.
  unfoldable pub binding_material : Agent rsa → JoinToken → String
  unfolding join_lines
  binding_material agent t =
      join_lines
        (t.join_token ∷ t.meeting_id ∷ t.participant_id ∷ agent.device_id ∷ t.expires_at ∷ [])

  -- `x[..8]` throws if the text is shorter.
  abbrev pub can_print : String → Bool
  can_print s = has_chars 8 s

  -- The handler of `challenge:issue`: no answer if one of the ids cannot be printed.
  unfoldable pub on_challenge : Agent rsa → ChallengePayload → Option SocketEvent
  on_challenge agent c =
      if can_print c.challenge_id && (can_print c.meeting_id && can_print c.participant_id)
      then some (
          challenge_response c.challenge_id agent.device_id
            (rsa.sign agent.key (challenge_material agent c)))
      else none

  -- `HandleRequestAsync` for a POST to /bind. A body without the fields, and ids that cannot be printed,
  -- are answered with an error.
  unfoldable pub handle_bind : Agent rsa → Option JoinToken → AgentAnswer
  handle_bind agent none = declined
  handle_bind agent (some t) =
      if can_print t.meeting_id && can_print t.participant_id
      then signed (record {
        join_token = t.join_token;
        device_id = agent.device_id;
        signature = rsa.sign agent.key (binding_material agent t);
      })
      else declined

  -- What the agent sends when it is connected, and once a minute then.
  abbrev pub on_connected : Agent rsa → String → SocketEvent
  on_connected agent client = device_connect client agent.device_id

  abbrev pub start_heartbeat : Agent rsa → SocketEvent
  start_heartbeat agent = device_heartbeat agent.device_id

  -- `GetTenantIdAsync`: from the file, or what the user types; `none` is an exception.
  abbrev pub get_tenant_id : Option DeviceConfig → String → Option String
  get_tenant_id none typed = truthy (some typed)
  get_tenant_id (some config) typed = elim (truthy (some config.tenant_id)) [
    | some t ↦ some t
    | none ↦ truthy (some typed)
  ]

  -- The body of the request to /devices/enroll. The hub ignores `agent_version`.
  abbrev pub enrollment : Agent rsa → String → EnrollDeviceDto
  enrollment agent display_name = record {
    tenant_id = agent.tenant_id;
    device_id = agent.device_id;
    user_id = agent.user_id;
    display_name = display_name;
    public_key_pem = rsa.public_key_pem agent.key;
    key_algorithm = some "RSA-2048";
    hardware_bound = some agent.hardware_bound;
  }

  -- The agent that `EnrollAsync` sets up: an id from the file, or a new one.
  abbrev pub set_up_as : rsa.Key × Bool → Option DeviceConfig → String → String → String → Agent rsa
  set_up_as (key, hardware) config guid tenant_id user_id = record {
    key = key;
    hardware_bound = hardware;
    device_id = elim config [ none ↦ guid | some c ↦ c.device_id ];
    tenant_id = tenant_id;
    user_id = user_id;
  }

  -- How `Main` comes to run, or ends before.
  pub data Start : Type 0 where
    no_tenant : Start
    not_enrolled : Start
    running : Agent rsa → DeviceConfig → Start

  -- What `SaveConfig` writes when the hub has answered.
  abbrev pub saved : Agent rsa → DeviceConfig
  saved agent = record {
    device_id = agent.device_id;
    tenant_id = agent.tenant_id;
    user_id = agent.user_id;
  }

module _ (rsa : Rsa) (p : Platform) where
  abbrev pub enrolled_by : Agent rsa → Result Response × World p → Start rsa × World p
  enrolled_by agent (ok r, w) = (running agent (saved rsa agent), w)
  enrolled_by agent (thrown e, w) = (not_enrolled, w)

  -- `EnrollAsync`, which initializes the key once more.
  unfoldable pub enroll_async :
      KeyStore rsa
      → Option DeviceConfig
      → String
      → String
      → String
      → String
      → World p
      → Start rsa × (KeyStore rsa × World p)
  enroll_async store config guid tenant_id user_id display_name w =
      let (loaded, later) = initialize rsa store in
      let agent = set_up_as rsa loaded config guid tenant_id user_id in
      let (start, w') =
        enrolled_by agent
          (serve p (devices (enroll_request (enrollment rsa agent display_name))) w) in
      (start, (later, w'))

  -- `Main` up to the enrollment: the tenant, the key, the enrollment of the configured user.
  unfoldable pub main :
      KeyStore rsa
      → Option DeviceConfig
      → String
      → String
      → World p
      → Start rsa × (KeyStore rsa × World p)
  main store config typed guid w = elim (get_tenant_id rsa config typed) [
    | none ↦ (no_tenant, (store, w))
    | some tenant_id ↦
        enroll_async (initialize rsa store).1 config guid tenant_id "alice@troofai.com"
          "Alice Baker" w
  ]
