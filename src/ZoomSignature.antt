-- ===== src/ZoomSignature.antt =====
-- apps/web/src/app/api/zoom-signature/route.ts: the token for the Zoom SDK. `jwt.sign` is a parameter,
-- and the time is in milliseconds, later than half a minute after the epoch.
use troofai_mvp.Prelude.{ℕ, ◌+◌, ◌-◌, ◌*◌, ◌/◌, ◌≤◌, String, Option, none, some, arith}
use troofai_mvp.World.{truthy}

pub record SignaturePayload : Type 0 where
  pub sdk_key : String
  pub mn : String
  pub role : ℕ
  pub iat : ℕ
  pub exp : ℕ
  pub token_exp : ℕ

-- The body `{ meetingNumber, role = 0 }`, the number as a text.
pub record SignatureRequest : Type 0 where
  pub meeting_number : String
  pub role : Option ℕ

pub data SignatureReply : Type 0 where
  not_configured : SignatureReply
  signature_issued : String → String → SignatureReply

-- `Math.round(now / 1000) - 30`
abbrev pub issued_at : ℕ → ℕ
issued_at now = (now + 500) / 1000 - 30

abbrev pub signature_payload : String → SignatureRequest → ℕ → SignaturePayload
signature_payload sdk_key request now =
    let iat = issued_at now in
    let exp = iat + 60 * 60 * 2 in
    record {
      sdk_key = sdk_key;
      mn = request.meeting_number;
      role = elim request.role [ none ↦ 0 | some n ↦ n ];
      iat = iat;
      exp = exp;
      token_exp = exp;
    }

module _ (sign : SignaturePayload → String → String) where
  abbrev pub reply_with : Option String → Option String → SignatureRequest → ℕ → SignatureReply
  reply_with (some sdk_key) (some sdk_secret) request now =
      signature_issued (sign (signature_payload sdk_key request now) sdk_secret) sdk_key
  reply_with _ _ request now = not_configured

  -- The credentials come from the environment, and an empty one counts as missing.
  unfoldable pub post : Option String → Option String → SignatureRequest → ℕ → SignatureReply
  post zoom_sdk_key zoom_sdk_secret request now =
      reply_with (truthy zoom_sdk_key) (truthy zoom_sdk_secret) request now

-- A token is valid when it is issued: its second is not before `iat`, and nearly two hours are left.
pub signature_payload_valid :
    (sdk_key : String) (request : SignatureRequest) (now : ℕ)
    → 30000 ≤ now
    → ((signature_payload sdk_key request now).iat ≤ now / 1000)
      × (now / 1000 + 7169 ≤ (signature_payload sdk_key request now).exp)
signature_payload_valid sdk_key request now h = (omega (arith, h), omega (arith, h))
