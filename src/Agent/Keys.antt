-- ===== src/Agent/Keys.antt =====
-- The key of the agent (Services/KeyService.cs), and what the hub knows of it when `Main` goes on.
use troofai_mvp.Prelude.{
  String, ◌≡◌, refl, ◌∙◌, ap, Bool, true, false, Option, none, some, arith, suc, eq_refl,
  Option-cases, Bool-cases, inl, inr, if◌then◌else◌,
}
use troofai_mvp.Schema.{Device, active}
use troofai_mvp.Platform.{Platform}
use troofai_mvp.Exec.{Result, ok, thrown}
use troofai_mvp.World.{World}
use troofai_mvp.Device.{enroll}
use troofai_mvp.Device.Enrollment.{enrolled_row, enroll_ok}
use troofai_mvp.Api.{enroll_request, answer_device}
use troofai_mvp.Api.Requests.{devices, serve}
use troofai_mvp.Agent.{
  Rsa, KeyStore, DeviceConfig, Agent, try_load, make_key, initialize, enrollment, saved, running,
  get_tenant_id, set_up_as, enrolled_by, main,
}
use troofai_mvp.Agent as A

module _ (rsa : Rsa) where
  -- Windows has the key, or will have it once it is made.
  abbrev pub is_kept : KeyStore rsa → Bool
  is_kept store = elim (try_load rsa store) [ some _ ↦ true | none ↦ store.has_tpm ]

  -- A key that Windows has, or that its TPM can make, is the agent's key for good: initializing again
  -- gives the same key and the same store. Without both, each call makes another key, which is not
  -- kept, so the next one makes another one again.
  pub initialize_again :
      (store : KeyStore rsa)
      → initialize rsa (initialize rsa store).1 ≡ (
          if is_kept store
          then initialize rsa store
          else ((store.next (suc store.made), false), record store { made = suc (suc store.made) }))
  unfolding initialize
  initialize_again store = elim (Option-cases store.tpm) [
    | inr (k, there) ↦ ground (arith, there)
    | inl no_tpm ↦ elim (Option-cases store.software) [
      | inr (k, there) ↦ ground (arith, no_tpm, there)
      | inl no_key ↦ elim (Bool-cases store.has_tpm) [
        | inl has ↦ ground (arith, no_tpm, no_key, has)
        | inr has ↦ ground (arith, no_tpm, no_key, has)
      ]
    ]
  ]

module _ (rsa : Rsa) (p : Platform) where
  -- What the hub has of an agent that runs.
  pub record IsKnown (agent : Agent rsa) (w : World p) : Type 0 where
    pub row : Device
    pub enrolled : p.devices.find_unique agent.device_id w.devices ≡ some row
    pub on_duty : row.status ≡ active
    pub same_key : row.public_key_pem ≡ rsa.public_key_pem agent.key
    pub same_flag : row.hardware_bound ≡ agent.hardware_bound

  -- The row is as the request says, whether it is a new one or not.
  row_known :
      (agent : Agent rsa) (name : String) (w : World p) (d : Device) (old : Option Device)
      → d ≡ enrolled_row p w (enrollment rsa agent name) old
      → (d.status ≡ active)
        × (d.public_key_pem ≡ rsa.public_key_pem agent.key)
        × (d.hardware_bound ≡ agent.hardware_bound)
  row_known agent name w d none e = (
    ap (λ (x : Device). x.status) e,
    ap (λ (x : Device). x.public_key_pem) e,
    ap (λ (x : Device). x.hardware_bound) e,
  )
  row_known agent name w d (some old) e = (
    ap (λ (x : Device). x.status) e,
    ap (λ (x : Device). x.public_key_pem) e,
    ap (λ (x : Device). x.hardware_bound) e,
  )

  IsKnown-enroll :
      (agent : Agent rsa) (name : String) (w w' : World p) (d : Device)
      → enroll p (enrollment rsa agent name) w ≡ (ok d, w')
      → IsKnown agent w'
  IsKnown-enroll agent name w w' d e =
      let (row, stored) = enroll_ok p (enrollment rsa agent name) w w' d e in
      let (on_duty, key, flag) =
        row_known agent name w d (p.devices.find_unique agent.device_id w.devices) row in
      record {
        row = d;
        enrolled = stored agent.device_id ∙ rw (eq_refl agent.device_id) refl;
        on_duty = on_duty;
        same_key = key;
        same_flag = flag;
      }

  enrolled_by-running :
      (maker agent : Agent rsa) (name : String) (config : DeviceConfig) (w w' : World p)
      → enrolled_by rsa p maker (serve p (devices (enroll_request (enrollment rsa maker name))) w)
        ≡ (running agent config, w')
      → IsKnown agent w' × (config ≡ saved rsa agent) × (agent ≡ maker)
  unfolding serve answer_device
  enrolled_by-running maker agent name config w w' e =
      go (enroll p (enrollment rsa maker name) w) refl
    where
      go :
          (x : Result Device × World p)
          → enroll p (enrollment rsa maker name) w ≡ x
          → IsKnown agent w' × (config ≡ saved rsa agent) × (agent ≡ maker)
      go (thrown x, v) s = absurd (ground (arith, s, e))
      go (ok d, v) s =
          let same : agent ≡ maker = ground (arith, s, e) in
          (
            IsKnown-enroll agent name w w' d
                (rw same (s ∙ ap (λ t. (ok d, t)) (ground (arith, s, e)))),
            ground (arith, s, e),
            same,
          )

  -- What is known of an agent that has come to run.
  pub record IsRunning (store : KeyStore rsa) (config : Option DeviceConfig) (agent : Agent rsa)
      (file : DeviceConfig) (later : KeyStore rsa) (w : World p) : Type 0 where
    pub known : IsKnown agent w
    pub file_written : file ≡ saved rsa agent
    pub id_kept : (old : DeviceConfig) → config ≡ some old → agent.device_id ≡ old.device_id
    pub user : agent.user_id ≡ "alice@troofai.com"
    pub key_kept : is_kept rsa store ≡ true → (initialize rsa later).0.0 ≡ agent.key

  -- An agent that comes to run is known to the hub: the device of its id is enrolled and active, with
  -- the public part of the key that the agent signs with and the agent's hardware flag. The file
  -- holds the agent's ids, the id of an earlier file is kept, the user is the configured one, and
  -- if Windows has a key or its TPM can make one, the next start will have the same key.
  pub main_running :
      (store : KeyStore rsa) (config : Option DeviceConfig) (typed guid : String) (w w' : World p)
      (agent : Agent rsa) (file : DeviceConfig) (later : KeyStore rsa)
      → main rsa p store config typed guid w ≡ (running agent file, (later, w'))
      → IsRunning store config agent file later w'
  unfolding main A.enroll_async
  main_running store config typed guid w w' agent file later e =
      elim (Option-cases (get_tenant_id rsa config typed)) [
        | inl missing ↦ absurd (ground (arith, missing, e))
        | inr (t, there) ↦
            let loaded = initialize rsa (initialize rsa store).1 in
            let maker = set_up_as rsa loaded.0 config guid t "alice@troofai.com" in
            let (known, written, same) =
              enrolled_by-running maker agent "Alice Baker" file w w' (ground (arith, there, e)) in
            let end : later ≡ loaded.1 = ground (arith, there, e) in
            record {
              known = known;
              file_written = written;
              id_kept = λ old h. ap (λ (a : Agent rsa). a.device_id) same ∙ rw h refl;
              user = ap (λ (a : Agent rsa). a.user_id) same;
              key_kept = λ kept.
                  let again : loaded ≡ initialize rsa store =
                    initialize_again rsa store ∙ rw kept refl in
                  rw (end, same, again) (ap (λ x. x.0.0) again);
            }
      ]
