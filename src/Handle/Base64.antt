-- ===== src/Handle/Base64.antt =====
-- Go's `base64.StdEncoding`: the encoder, and the decoder, which skips carriage returns and line
-- feeds, wants the padding, and does not look at the unused bits before it.
pub mod RoundTrip
use Prim.Native.Char.{Char, code}
use Prim.Native.String.{char_at}
use ephemeral_credential_bro.Base.{
  ℕ, ◌+◌, ◌-◌, ◌*◌, ◌/◌, ◌%◌, String, Bool, true, false, ◌&&◌, Option, none, some, List, [], ◌∷◌,
  leb, eqb, if◌then◌else◌,
}
use ephemeral_credential_bro.Api.{Bytes}

abbrev alphabet : String
alphabet = "ABCDEFGHIJKLMNOPQRSTUVWXYZabcdefghijklmnopqrstuvwxyz0123456789+/"

-- The character of six bits.
unfoldable pub digit_char : ℕ → Char
digit_char d = char_at alphabet d

abbrev cons4 : ℕ → ℕ → ℕ → ℕ → String → String
cons4 a b c d s =
    String.◌∷◌ (digit_char a)
      (String.◌∷◌ (digit_char b) (String.◌∷◌ (digit_char c) (String.◌∷◌ (digit_char d) s)))

-- `EncodeToString`
unfoldable pub encode : Bytes → String
encode [] = ""
encode (x ∷ []) = String.◌∷◌ (digit_char (x / 4)) (String.◌∷◌ (digit_char (x % 4 * 16)) "==")
encode (x ∷ y ∷ []) =
    String.◌∷◌ (digit_char (x / 4))
      (String.◌∷◌ (digit_char (x % 4 * 16 + y / 16)) (String.◌∷◌ (digit_char (y % 16 * 4)) "="))
encode (x ∷ y ∷ z ∷ r) =
    cons4 (x / 4) (x % 4 * 16 + y / 16) (y % 16 * 4 + z / 64) (z % 64) (encode r)

-- What the decoder makes of one character.
pub data Symbol : Type 0 where
  digit : ℕ → Symbol
  pad line_break bad : Symbol

unfoldable pub symbol : ℕ → Symbol
symbol c =
    if leb b'A' c && leb c b'Z'
    then digit (c - b'A')
    else if leb b'a' c && leb c b'z'
    then digit (c - b'a' + 26)
    else if leb b'0' c && leb c b'9'
    then digit (c - b'0' + 52)
    else if eqb c b'+'
    then digit 62
    else if eqb c b'/'
    then digit 63
    else if eqb c b'='
    then pad
    else if eqb c 10
    then line_break
    else if eqb c 13
    then line_break
    else bad

abbrev keep : Symbol → List Symbol → List Symbol
keep line_break l = l
keep (digit d) l = digit d ∷ l
keep pad l = pad ∷ l
keep bad l = bad ∷ l

symbols : String → List Symbol
symbols String.[] = []
symbols (String.◌∷◌ c s) = keep (symbol (code c)) (symbols s)

abbrev cons3 : ℕ → ℕ → ℕ → Option Bytes → Option Bytes
cons3 x y z none = none
cons3 x y z (some r) = some (x ∷ y ∷ z ∷ r)

-- Groups of four symbols; only the last one may have padding.
decode_groups : List Symbol → Option Bytes
decode_groups [] = some []
decode_groups (digit a ∷ digit b ∷ pad ∷ pad ∷ []) = some ((a * 4 + b / 16) ∷ [])
decode_groups (digit a ∷ digit b ∷ digit c ∷ pad ∷ []) =
    some ((a * 4 + b / 16) ∷ (b % 16 * 16 + c / 4) ∷ [])
decode_groups (digit a ∷ digit b ∷ digit c ∷ digit d ∷ r) =
    cons3 (a * 4 + b / 16) (b % 16 * 16 + c / 4) (c % 4 * 64 + d) (decode_groups r)
decode_groups _ = none

-- `DecodeString`; `none` is a corrupt input.
unfoldable pub decode : String → Option Bytes
unfolding symbols decode_groups
decode s = decode_groups (symbols s)
