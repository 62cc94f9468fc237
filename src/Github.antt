-- ===== src/Github.antt =====
-- internal/provider/github/github.go: the provider's fields, its private key and its App JWT.
pub mod Http
pub mod Token
pub mod Mint
pub mod Requests
pub mod Claims
pub mod Granted
pub mod Refused
use Prim.Native.Char.{Char, code}
use ephemeral_credential_bro.Base.{
  ℕ, String, Bool, ◌==◌, eqb, Option, none, some, List, [], ◌∷◌, ◌++◌, if◌then◌else◌,
}
use ephemeral_credential_bro.Base.Int.{ℤ, pos, ◌-ℤ◌}
use ephemeral_credential_bro.GoTime.{Time, Duration, seconds, negate, add, unix}
use ephemeral_credential_bro.Api.{Bytes}
use ephemeral_credential_bro.Api.Error.{Error, format, new, wrap}
use ephemeral_credential_bro.Effects.{Result, ok, err, Action, pure, raise, observe, ◌>>=◌}
use ephemeral_credential_bro.Handle.Base64
use Http.{Do, JwtClaims, PrivateKey, rsa_key, other_key, Platform}

abbrev pub provider_name : String
provider_name = "github-app"

abbrev pub default_api_base_url : String
default_api_base_url = "https://api.github.com"

abbrev pub jwt_max_lifetime : Duration
jwt_max_lifetime = seconds 600

abbrev pub jwt_clock_skew_guard : Duration
jwt_clock_skew_guard = seconds 60

-- `github.Provider`
pub record GitHubProvider (W : Type 0) : Type 0 where
  pub api_base_url : String
  pub http_client : Option (Do W)
  pub override_now : Option (W → Time × W)

-- The bytes of an ASCII text.
abbrev pub ascii : String → Bytes
ascii String.[] = []
ascii (String.◌∷◌ c s) = code c ∷ ascii s

-- The same digit in the URL alphabet; padding is dropped.
abbrev raw_url_digit : ℕ → Bytes → Bytes
raw_url_digit c rest =
    if eqb c b'+'
    then b'-' ∷ rest
    else if eqb c b'/'
    then b'_' ∷ rest
    else if eqb c b'='
    then rest
    else c ∷ rest

abbrev raw_url_digits : Bytes → Bytes
raw_url_digits [] = []
raw_url_digits (c ∷ rest) = raw_url_digit c (raw_url_digits rest)

-- `base64.RawURLEncoding.EncodeToString`
pub raw_url_encode : Bytes → Bytes
raw_url_encode b = raw_url_digits (ascii (Base64.encode b))

-- The claims of an App JWT that is made at a time.
unfoldable pub jwt_claims : Time → Bytes → JwtClaims
jwt_claims t app_id = record {
  iat = unix (add t (negate jwt_clock_skew_guard));
  exp = unix (add t (jwt_max_lifetime -ℤ jwt_clock_skew_guard));
  iss = app_id;
}

module _ {W Key : Type 0} (platform : Platform W Key) (p : GitHubProvider W) where
  abbrev client_of : Option (Do W) → Do W
  client_of none = platform.default_do
  client_of (some client) = client

  -- `client().Do`
  unfoldable pub send : Do W
  send = client_of p.http_client

  abbrev clock_of : Option (W → Time × W) → W → Time × W
  clock_of none = platform.time_now
  clock_of (some override) = override

  -- `baseURL`
  unfoldable pub base_url : String
  base_url = if p.api_base_url == "" then default_api_base_url else p.api_base_url

  -- `marshalB64`, after the JSON encoder has answered
  abbrev encoded : Result Bytes → Result Bytes
  encoded (ok b) = ok (raw_url_encode b)
  encoded (err e) = err e

  abbrev jwt_header : List (String × String)
  jwt_header = ("alg", "RS256") ∷ ("typ", "JWT") ∷ []

  abbrev dotted : Bytes → Bytes → Bytes
  dotted left right = left ++ b'.' ∷ right

  -- `signAppJWT`
  unfoldable pub sign_app_jwt : Bytes → Key → Action W Bytes
  sign_app_jwt app_id key = observe (clock_of p.override_now) (λ t. do
    header ← λ w. (encoded (platform.marshal_header jwt_header), w)
    claims ← λ w. (encoded (platform.marshal_claims (jwt_claims t app_id)), w)
    signature ← platform.sign_pkcs1v15 key (platform.sha256 (dotted header claims))
    pure (dotted (dotted header claims) (raw_url_encode signature)))

  abbrev pkcs8_key : Result (PrivateKey Key) → Result Key
  pkcs8_key (err e) = err (wrap (format "not a PKCS#1 or PKCS#8 key" []) e)
  pkcs8_key (ok (rsa_key key)) = ok key
  pkcs8_key (ok other_key) = err (new (format "private key is not an RSA key" []))

  abbrev block_key : Option Bytes → Result Key
  block_key none = err (new (format "no PEM block found" []))
  block_key (some block) = elim (platform.parse_pkcs1 block) [
    | ok key ↦ ok key
    | err e ↦ pkcs8_key (platform.parse_pkcs8 block)
  ]

  -- `parsePrivateKey`
  unfoldable pub parse_private_key : Bytes → Result Key
  parse_private_key pem = block_key (platform.pem_decode pem)
