-- ===== src/Challenge/Signing.antt =====
-- What a signature commits the device to.
use troofai_mvp.Prelude.{String, ◌≡◌, refl, List, [], ◌∷◌, All, arith}
use troofai_mvp.Prelude.Text.{IsOneLine, join_lines_injective}
use troofai_mvp.Platform.{StoredChallenge}
use troofai_mvp.Challenge.{signed_material}

-- The fields that are signed, after the version.
abbrev pub signed_fields : StoredChallenge → List String
signed_fields c =
    c.payload.challenge_id ∷ c.tenant_id ∷ c.device_id ∷ c.user_id ∷ c.payload.meeting_id
    ∷ c.payload.participant_id ∷ c.payload.nonce ∷ c.payload.issued_at ∷ c.payload.expires_at ∷ []

version : IsOneLine "troofai-v1"
version = ground arith

-- Two challenges whose fields hold no newline have the same signing text only if they are the same
-- challenge: a signature cannot be carried over to another nonce, device, participant, meeting or
-- deadline.
pub signed_material_injective :
    (a b : StoredChallenge)
    → All IsOneLine (signed_fields a)
    → All IsOneLine (signed_fields b)
    → signed_material a ≡ signed_material b
    → a ≡ b
unfolding signed_material
signed_material_injective a b h k e =
    let same =
      join_lines_injective ("troofai-v1" ∷ signed_fields a) ("troofai-v1" ∷ signed_fields b) refl
        (version, h) (version, k) e in
    ground (arith, same)
