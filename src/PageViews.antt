-- ===== src/PageViews.antt =====
-- What the pages of apps/web/src/app show of a row: the texts, and the styles that say how a status is
-- meant. The elements around them, and dates in the format of the locale, are left out.
pub mod Zoom
pub mod Trail
pub mod Rows
pub mod Overview
pub mod Honest
use troofai_mvp.Prelude.{String, Bool, true, false, if◌then◌else◌, ◌==◌}
use troofai_mvp.Schema.{TrustStatus, verified, unverified, stale, unknown, external, failed}

-- A status as the text that the hub's JSON has for it.
abbrev pub status_text : TrustStatus → String
status_text verified = "VERIFIED"
status_text unverified = "UNVERIFIED"
status_text stale = "STALE"
status_text unknown = "UNKNOWN"
status_text external = "EXTERNAL"
status_text failed = "FAILED"
