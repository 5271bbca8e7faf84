-- ===== src/Events.antt =====
-- fastapi_m8/_events.py: the builder of the client of the auth event stream, which is the SDK's, as is
-- `derive_stream_url`. The callbacks are handed on and are not modelled.
pub mod Laws
use fastapi_m.Base.{ℕ, String, Option, none, some}
use fastapi_m.Http.{Url}
use fastapi_m.Config.{ConsumerServiceSettings}
use fastapi_m.InternalAuth.{InternalAuth}
use fastapi_m.InternalAuth.Modes.{build_internal_auth}

pub record EventStreamClient : Type 0 where
  pub stream_url : Url
  pub auth_provider : InternalAuth
  pub signing_key : Option String
  pub connect_timeout : ℕ
  pub read_timeout : ℕ

-- an argument that is given, or else a setting; the settings always have both timeouts
abbrev given_or : Option ℕ → ℕ → ℕ
given_or none setting = setting
given_or (some given) setting = given

-- `none` is the `ValueError`
unfoldable pub build_event_stream_client :
    (derive_stream_url : Url → Url) (introspection : String)
    → ConsumerServiceSettings
    → (connect_timeout read_timeout : Option ℕ) → Option EventStreamClient
build_event_stream_client derive_stream_url introspection s connect_timeout read_timeout =
    elim s.introspection_url [
      | none ↦ none
      | some url ↦ some (record {
        stream_url = derive_stream_url url;
        auth_provider = build_internal_auth introspection s;
        signing_key = s.inherited.event_signing_key;
        connect_timeout = given_or connect_timeout s.event_stream_connect_timeout;
        read_timeout = given_or read_timeout s.event_stream_read_timeout;
      })
    ]
