-- ===== src/Github/Http.antt =====
-- Requests and responses of net/http, and the other libraries that internal/provider/github calls:
-- what a `Platform` has is a parameter.
use ephemeral_credential_bro.Base.{ℕ, String, Option, List}
use ephemeral_credential_bro.Base.Int.{ℤ}
use ephemeral_credential_bro.Base.Map.{Map}
use ephemeral_credential_bro.GoTime.{Time}
use ephemeral_credential_bro.Api.{Bytes}
use ephemeral_credential_bro.Api.Error.{Error}
use ephemeral_credential_bro.Effects.{Result, Action}

pub data Method : Type 0 where
  http_get http_post http_delete : Method

-- The texts of the URLs, not rendered: the base URL and what goes into the path.
pub data Url : Type 0 where
  -- `%s/repos/%s/installation`
  installation_url : String → String → Url
  -- `%s/app/installations/%s/access_tokens`
  access_tokens_url : String → ℤ → Url
  -- `…/installation/token`
  token_url : String → Url

-- A header's value is its bytes.
pub record HttpRequest : Type 0 where
  pub method : Method
  pub url : Url
  pub headers : Map Bytes
  pub request_body : Bytes

-- The body is the bytes that can be read.
pub record HttpResponse : Type 0 where
  pub status_code : ℕ
  pub response_body : Bytes

abbrev pub Do : Type 0 → Type 0
Do W = HttpRequest → Action W HttpResponse

-- The two claims of a time and the issuer.
pub record JwtClaims : Type 0 where
  pub iat : ℤ
  pub exp : ℤ
  pub iss : Bytes

pub record CreateTokenRequest : Type 0 where
  pub repositories : List String
  pub permissions : Map String

pub record CreateTokenResponse : Type 0 where
  pub token : Bytes
  pub expires_at : Time

-- What `x509.ParsePKCS8PrivateKey` returns: an RSA key or one of another kind.
pub data PrivateKey (Key : Type 0) : Type 0 where
  rsa_key : Key → PrivateKey Key
  other_key : PrivateKey Key

pub record Platform (W Key : Type 0) : Type 0 where
  -- `http.DefaultClient.Do`
  pub default_do : Do W
  -- why `http.NewRequestWithContext` refuses a method and a URL
  pub request_error : Method → Url → Option Error
  pub time_now : W → Time × W
  -- encoding/pem, crypto/x509, crypto/sha256, crypto/rsa
  pub pem_decode : Bytes → Option Bytes
  pub parse_pkcs1 : Bytes → Result Key
  pub parse_pkcs8 : Bytes → Result (PrivateKey Key)
  pub sha256 : Bytes → Bytes
  pub sign_pkcs1v15 : Key → Bytes → Action W Bytes
  -- encoding/json at the types that are written and read
  pub marshal_header : Map String → Result Bytes
  pub marshal_claims : JwtClaims → Result Bytes
  pub marshal_token_request : CreateTokenRequest → Result Bytes
  pub decode_installation : Bytes → Result ℤ
  pub decode_token : Bytes → Result CreateTokenResponse
  -- a status code's text, and the bytes of a body as a text
  pub body_text : Bytes → String
