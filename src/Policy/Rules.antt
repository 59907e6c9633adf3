-- ===== src/Policy/Rules.antt =====
-- The policy engine against the rule table of SPEC.md, section 5.
use troofai_mvp.Prelude.{
  ℕ, ◌+◌, ◌≤◌, ◌≡◌, ◌↔◌, Bool, true, false, not, Option, none, some, List, [], ◌∷◌, arith, ltb,
  if◌then◌else◌,
}
use troofai_mvp.Schema.{active, TrustStatus, verified, stale, unknown, failed}
use troofai_mvp.Policy.{PolicyInput, evaluate, heartbeat_stale_ms, is_active}

-- A row of the table: a condition, and the status that it gives.
pub record Rule : Type 0 where
  pub applies : ℕ → PolicyInput → Bool
  pub gives : TrustStatus

-- lastHeartbeat more than 5 minutes ago
abbrev old_heartbeat : ℕ → Option ℕ → Bool
old_heartbeat now none = false
old_heartbeat now (some beat) = ltb (beat + heartbeat_stale_ms) now

-- The table of section 5, in its order.
abbrev pub spec_table : List Rule
spec_table =
    record { applies = λ now i. not (is_active i.device.status); gives = failed }
    ∷ record { applies = λ now i. i.challenge_expired; gives = failed }
    ∷ record { applies = λ now i. not i.signature_valid; gives = failed }
    ∷ record { applies = λ now i. not i.has_meeting_binding; gives = unknown }
    ∷ record { applies = λ now i. old_heartbeat now i.device.last_heartbeat; gives = stale }
    ∷ []

-- Rules are evaluated in order, and the first match wins; if none matches, all checks pass.
abbrev pub first_match : List Rule → ℕ → PolicyInput → TrustStatus
first_match [] now i = verified
first_match (r ∷ rs) now i = if r.applies now i then r.gives else first_match rs now i

-- For every input and time, the status that `evaluate` gives is that of the first row of the
-- specification's table that applies, or VERIFIED if none does.
pub evaluate-first_match :
    (now : ℕ) (i : PolicyInput) → (evaluate now i).status ≡ first_match spec_table now i
unfolding evaluate
evaluate-first_match now i = ground arith

abbrev pub IsFresh : ℕ → Option ℕ → Type 0
IsFresh now none = Unit
IsFresh now (some beat) = now ≤ beat + 300000

-- Everything that a VERIFIED status stands for.
pub record IsTrusted (now : ℕ) (i : PolicyInput) : Type 0 where
  pub enrolled : i.device.status ≡ active
  pub in_time : i.challenge_expired ≡ false
  pub signed : i.signature_valid ≡ true
  pub bound : i.has_meeting_binding ≡ true
  pub fresh : IsFresh now i.device.last_heartbeat

pub verified-IsTrusted :
    (now : ℕ) (i : PolicyInput) → (evaluate now i).status ≡ verified → IsTrusted now i
unfolding evaluate
verified-IsTrusted now i e = ground arith

pub IsTrusted-verified :
    (now : ℕ) (i : PolicyInput) → IsTrusted now i → (evaluate now i).status ≡ verified
unfolding evaluate
IsTrusted-verified now i h = ground arith

-- The status is VERIFIED exactly if the device is active, the challenge is not expired, the
-- signature is valid, there is a meeting binding, and the last heartbeat is absent or at most
-- 300,000 ms old.
pub evaluate-eq-verified_iff :
    (now : ℕ) (i : PolicyInput) → ((evaluate now i).status ≡ verified) ↔ IsTrusted now i
evaluate-eq-verified_iff now i = (verified-IsTrusted now i, IsTrusted-verified now i)

-- An expired challenge fails whatever else holds.
pub expired-failed :
    (now : ℕ) (i : PolicyInput) → i.challenge_expired ≡ true → (evaluate now i).status ≡ failed
unfolding evaluate
expired-failed now i e = ground arith
