-- ===== src/Orchestrator.antt =====
-- apps/api/lifeos_api/services/orchestrator.py: the deterministic capture router.
mod Amount
mod Keywords
mod Drafts
pub mod Autonomy
pub mod Routing
pub use Amount.{Money, parse_amount}
unfoldable pub use Keywords.{
  prayers, looks_like_finance, looks_like_work, looks_like_health, looks_like_family,
  looks_like_prayer, looks_like_research, looks_like_memory, looks_like_job,
}
unfoldable pub use Drafts.*
use life_os_vnex.Prelude.{String, List, Option, or_default, if◌then◌else◌}
use life_os_vnex.Prelude.Text.{strip, lower}
use life_os_vnex.Prelude.Env.{Env}

-- `order` is the order in which the set `PRAYERS` is walked, which Python leaves open.
module _ (env : Env) (order : List String) where
  unfoldable pub draft_from_capture : String → Option String → String → Draft
  draft_from_capture capture_id raw_text platform =
      let text = strip (or_default raw_text "") in
      let low = lower text in
      if looks_like_job low
      then job_draft capture_id text
      else if looks_like_finance low
      then finance_draft env capture_id text
      else if looks_like_prayer low
      then prayer_draft order capture_id text platform
      else if looks_like_health low
      then health_draft capture_id text
      else if looks_like_family low
      then family_draft capture_id text
      else if looks_like_work low
      then work_draft capture_id text
      else if looks_like_research low
      then research_draft capture_id text
      else if looks_like_memory low
      then memory_draft capture_id text
      else raw_note_draft capture_id text
