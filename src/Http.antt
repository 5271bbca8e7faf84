-- ===== src/Http.antt =====
-- What the clients of fastapi_m8 get from httpx, from the clock and from the SDK's parsers. None of
-- this is code of the repository: a `Network` is a parameter of every definition that uses it.
use Prim.Native.Char.{code}
use fastapi_m.Base.{ℕ, String, Bool, Option, List, [], ◌∷◌}
use fastapi_m.Base.Exec.{Result}

-- The code points of a text. URLs are lists of code points, since the program takes them apart.
abbrev pub codes : String → List ℕ
codes String.[] = []
codes (String.◌∷◌ c s) = code c ∷ codes s

abbrev pub Url : Type 0
Url = List ℕ

abbrev pub Headers : Type 0
Headers = List (String × String)

-- An exception that a call raises: `httpx.HTTPStatusError`, a `ConnectError` or `ConnectTimeout`,
-- another `httpx.HTTPError`, or any other `Exception`.
pub data Failure : Type 0 where
  http_status : ℕ → Failure
  connect transport other : Failure

-- the JSON bodies that the program sends
pub data Body : Type 0 where
  exchange : (scopes : List String) → Body
  jti_status : (jti expected_user_id schema_version : String) → Body
  api_key : (key schema_version : String) → Body

pub record Request : Type 0 where
  pub url : Url
  pub headers : Headers
  pub body : Body

pub record Response : Type 0 where
  pub status_code : ℕ
  pub content : List ℕ

-- `JtiStatusResponse` of the SDK
pub data JtiStatus : Type 0 where
  inactive : JtiStatus
  active : (user_id : String) (auth_generation : ℕ) → JtiStatus

-- `W` is the world outside the process: peers, the clock, other tasks. `read_token` is the reply of
-- the exchange, `none` where reading its two fields raises; `read_status` is the SDK's validation
-- of a JTI-status reply, `none` for a `ValueError`.
pub record Network (W : Type 0) : Type 0 where
  pub monotonic : W → ℕ × W
  pub post : Request → W → Result Failure Response × W
  pub is_success : ℕ → Bool
  pub read_token : List ℕ → Option (String × ℕ)
  pub read_status : List ℕ → Option JtiStatus
