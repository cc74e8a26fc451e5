-- ===== src/Captures/Evidence.antt =====
-- The routing of a capture that was received.
use life_os_vnex.Prelude.{String, ◌≡◌, refl, List, inl, inr}
use life_os_vnex.Prelude.Json.{Fields}
use life_os_vnex.Prelude.Env.{Env}
use life_os_vnex.State.{Store, Result, ok}
use life_os_vnex.Bus.Effects.{Result-cases}
use life_os_vnex.Orchestrator.{Draft}
use life_os_vnex.Providers.{ProviderCompletion}
use life_os_vnex.Captures.{
  CaptureCreate, Received, caught, route_capture, route_or_default, last_resort,
}

-- Whatever the router mode, the provider's completion and the store, the routing of a capture that was
-- received gives a draft; it never raises.
pub routing_gives_draft :
    (env : Env) (timezone : String) (order : List String) (complete : Result ProviderCompletion)
    (mode : String) (q : CaptureCreate) (o : Received) (s : Store)
    → (routed : Draft × Fields) × ((route_or_default env timezone order complete mode q o s).0
        ≡ ok routed)
unfolding route_or_default caught
routing_gives_draft env timezone order complete mode q o s =
    elim (Result-cases
      (route_capture env order complete o.capture_id q.raw_text q.source_platform o.run_id mode
        s).0) [
          | inl (routed, h) ↦ (routed, rw (route_or_default, caught, h) refl)
          | inr (e, h) ↦
              (last_resort env timezone order complete q o e, rw (route_or_default, caught, h) refl)
        ]
