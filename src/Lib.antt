-- ===== src/Lib.antt =====
-- fastapi-m8 is the foundation of the consumer services of an auth service, the issuer. A consumer
-- validates the tokens and API keys of its callers, and asks the issuer about them over private
-- calls. This library models the parts of fastapi_m8 that decide who is let in.
--
-- The parts and their modules, each under the name of the Python object it models:
--   Base          shared names: tests, lists with native lengths, dictionaries, and `Exec`, the monad
--                 of methods that change an object and may raise
--   Http          what httpx, the clock and the SDK's parsers supply: a `Network` is a parameter
--   Revocation    fastapi_m8/_revocation.py: `Cache` is `JtiRevocationCache`, `Events` and `Lifecycle`
--                 are what the event stream does to it, `Client` is `RemoteRevocationClient`,
--                 `Metrics` the registration of its metrics, `Tasks` many calls of the client at once
--   InternalAuth  fastapi_m8/_internal_auth.py: the credentials of private calls, and their modes;
--                 `Tasks` are the calls that wait for the lock of one provider
--   Endpoints     the two functions that derive an endpoint's URL, over code points
--   Config        fastapi_m8/config.py: the settings and their validators
--   App           fastapi_m8/_app.py: `Startup` is the lifespan with the check of credentials,
--                 `HealthRoute` the health route with its cache, `Factory` the middleware and the
--                 routes, `Creation` all that `create_app` returns
--   ApiKey        fastapi_m8/_api_key.py: `Breaker` is `_CircuitBreaker`, `Client` is
--                 `ApiKeyIntrospectionClient` with its semaphore slot, `Tasks` many calls of it at once
--   Deps          fastapi_m8/_deps.py: `Jwt` holds the guards for tokens, `Keys` the ones for API keys,
--                 `Stream` the handler of auth events, `Build` the clients that the settings ask for,
--                 and `Closing` the way back; they call Revocation and ApiKey
--   Events        fastapi_m8/_events.py: the builder of the stream's client
--   Engine        fastapi_m8/_engine.py: the wrapper of the database engine and its sessions
--   PreStart      fastapi_m8/scripts/pre_start.py: the probe of the database before the service starts
--   Package       fastapi_m8/__init__.py: the names that the package exports, and how they resolve
--   ServiceClient, RouteAudit, Health, Compat  the modules of fastapi_m8 with these names
--   Tests         runs on concrete inputs
--
-- An object is a record, and a method takes it, beside a world `W`, and gives both back with its
-- result or its exception: the state that was reached before a `raise` stays. The world stands for
-- peers, the clock and other tasks, and what is done to it is a parameter: a request, a read of the
-- clock, the semaphore. So a theorem holds for every behaviour of the peers. Times, generations and
-- sizes are natural numbers, a time in any fixed unit. Sets and dictionaries are association lists in
-- the order of insertion. The SDK's validators, parsers and policy decisions are parameters too, and
-- what a theorem needs of them is a hypothesis of that theorem.
--
-- No loop needs fuel: each one recurs on a list, on the chunks of a body, on the routes, on the
-- watermarks. The only bounds are the program's own, 10 000 tracked watermarks
-- and 300 attempts of the pre-start probe.
--
-- `Revocation.Cache.Ledger` is the abstract cache: functions for the entries, the watermarks and the
-- dedup ids, with no bound on the users.
--
-- Not modelled: what a middleware of Starlette or of the SDK does to a request; logging,
-- and the rendering of metrics. Where tasks are interleaved, a task runs undisturbed from one `await`
-- to the next: so it is in `Tasks`, and the health checks finish in any order.
pub mod ApiKey
pub mod App
pub mod Base
pub mod Compat
pub mod Config
pub mod Deps
pub mod Endpoints
pub mod Engine
pub mod Events
pub mod Health
pub mod Http
pub mod InternalAuth
pub mod Package
pub mod PreStart
pub mod Revocation
pub mod RouteAudit
pub mod ServiceClient
pub mod Tests
