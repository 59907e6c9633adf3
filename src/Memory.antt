-- ===== src/Memory.antt =====
-- A platform that runs: tables as lists, Redis as an association list, a clock that counts, and a
-- toy signature. The examples use it, and it shows that the documented behaviour can be met.
pub mod Rows
pub mod Entries
pub mod Texts
use Prim.Native.String
use troofai_mvp.Prelude.{
  ℕ, ◌+◌, String, ◌≡◌, refl, ap, Bool, Option, none, some, arith, ◌==◌, if◌then◌else◌,
}
use troofai_mvp.Platform.{Platform, ChallengePayload, StoredChallenge, StoredToken, Codec}
use troofai_mvp.Memory.Rows.{list_table}
use troofai_mvp.Memory.Entries.{list_redis}
use troofai_mvp.Memory.Texts.{
  frame, unframe, unframe-frame, frame_nonempty, bits, value, value-bits,
}

abbrev read : {A : Type 0} → (String → String → Option A) → Option (String × String) → Option A
read f none = none
read f (some (s, rest)) = f s rest

-- One field after the other.
abbrev field : {A : Type 0} → (String → String → Option A) → String → Option A
field f text = read f (unframe text)

unfoldable pub token_text : StoredToken → String
token_text t = frame t.meeting_id (frame t.participant_id (frame t.expires_at ""))

unfoldable pub parse_token : String → Option StoredToken
parse_token = field λ meeting. field λ participant. field λ expires rest.
    some (record { meeting_id = meeting; participant_id = participant; expires_at = expires })

parse-token_text : (t : StoredToken) → parse_token (token_text t) ≡ some t
unfolding token_text parse_token
parse-token_text t =
    rw
      (unframe-frame t.meeting_id _, unframe-frame t.participant_id _, unframe-frame t.expires_at _)
      refl

token_codec : Codec StoredToken
unfolding token_text parse_token parse-token_text
token_codec = record {
  stringify = token_text;
  parse = parse_token;
  parse-stringify = parse-token_text;
  stringify_nonempty = λ t. frame_nonempty t.meeting_id _;
}

unfoldable pub challenge_text : StoredChallenge → String
challenge_text c = frame c.payload.challenge_id (
    frame c.payload.nonce (
      frame c.payload.meeting_id (
        frame c.payload.participant_id (
          frame c.payload.issued_at (
            frame c.payload.expires_at
              (frame c.tenant_id (frame c.device_id (frame c.user_id ""))))))))

unfoldable pub parse_challenge : String → Option StoredChallenge
parse_challenge = field λ id. field λ nonce. field λ meeting. field λ participant. field λ issued.
    field λ expires. field λ tenant. field λ device. field λ user rest. some (record {
      payload = record {
        challenge_id = id;
        nonce = nonce;
        meeting_id = meeting;
        participant_id = participant;
        issued_at = issued;
        expires_at = expires;
      };
      tenant_id = tenant;
      device_id = device;
      user_id = user;
    })

parse-challenge_text : (c : StoredChallenge) → parse_challenge (challenge_text c) ≡ some c
unfolding challenge_text parse_challenge
parse-challenge_text c =
    rw
      (
        unframe-frame c.payload.challenge_id _,
        unframe-frame c.payload.nonce _,
        unframe-frame c.payload.meeting_id _,
        unframe-frame c.payload.participant_id _,
        unframe-frame c.payload.issued_at _,
        unframe-frame c.payload.expires_at _,
        unframe-frame c.tenant_id _,
        unframe-frame c.device_id _,
        unframe-frame c.user_id _,
      )
      refl

challenge_codec : Codec StoredChallenge
unfolding challenge_text parse_challenge parse-challenge_text
challenge_codec = record {
  stringify = challenge_text;
  parse = parse_challenge;
  parse-stringify = parse-challenge_text;
  stringify_nonempty = λ c. frame_nonempty c.payload.challenge_id _;
}

-- The toy signature of a text is the key before the text; an empty key is malformed.
abbrev toy_verify : String → String → String → Option Bool
toy_verify pem text signature = if pem == "" then none else some (signature == String.◌++◌ pem text)

-- The clock counts its readings from 10^6, and random texts are numbered.
unfoldable pub memory : Platform
unfolding list_table list_redis token_codec challenge_codec bits value
memory = record {
  tenants = list_table (λ r. r.id);
  devices = list_table (λ r. r.id);
  meetings = list_table (λ r. r.id);
  participants = list_table (λ r. r.id);
  audit_events = list_table (λ r. r.id);
  redis = list_redis;
  clock = λ n. 1000000 + n;
  clock_forward = λ n. omega arith;
  uuid = λ n. String.◌++◌ "uuid" (bits n);
  random_base64 = λ k n. String.◌++◌ "base64" (bits n);
  random_hex = λ k n. String.◌++◌ "hex" (bits n);
  to_iso = bits;
  from_iso = λ s. some (value s);
  from_iso-to_iso = λ t. ap some (value-bits t);
  challenge_json = challenge_codec;
  token_json = token_codec;
  rsa_verify = toy_verify;
}
