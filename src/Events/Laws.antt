-- ===== src/Events/Laws.antt =====
-- The event stream beside the revocation client: fastapi_m8/_events.py.
use fastapi_m.Base.{ℕ, String, ◌≡◌, Option, some, arith, Option-cases, inl, inr}
use fastapi_m.Http.{Url}
use fastapi_m.Config.{ConsumerServiceSettings}
use fastapi_m.Revocation.Client.{RevocationClient}
use fastapi_m.Deps.Build.{build_revocation_client}
use fastapi_m.Deps.Build.Clients.{revocation-Follows}
use fastapi_m.Events.{EventStreamClient, build_event_stream_client}

module _ (derive_stream_url : Url → Url) (introspection version : String)
    (s : ConsumerServiceSettings) (connect_timeout read_timeout : Option ℕ) where
  -- One set of settings gives the event stream and the revocation checks the same credentials, and the
  -- stream is derived from the address that the checks are sent to, whatever the timeouts.
  event_stream_agrees :
      (e : EventStreamClient) (c : RevocationClient)
      → build_event_stream_client derive_stream_url introspection s connect_timeout read_timeout
        ≡ some e
      → build_revocation_client introspection s version ≡ some c
      → (e.auth_provider ≡ c.auth) × (e.stream_url ≡ derive_stream_url c.url)
  unfolding build_event_stream_client
  event_stream_agrees e c h made = elim (Option-cases s.introspection_url) [
    | inl unset ↦ absurd (ground arith)
    | inr (url, set) ↦
        let follows = revocation-Follows introspection s version c made in
        ground (arith, follows.auth, follows.url)
  ]
