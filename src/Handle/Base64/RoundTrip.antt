-- ===== src/Handle/Base64/RoundTrip.antt =====
-- Decoding what was encoded.
use Prim.Native.Char.{code}
use ephemeral_credential_bro.Base.{
  ℕ, zero, suc, ◌+◌, ◌*◌, ◌/◌, ◌%◌, ◌<◌, ◌≡◌, refl, Bool, true, false, if◌then◌else◌, some, [], ◌∷◌,
  arith, eqb,
}
use ephemeral_credential_bro.Api.{Bytes}
use ephemeral_credential_bro.Handle.Base64.{
  encode, decode, symbol, digit_char, Symbol, digit, pad, line_break, bad,
}

abbrev is_digit : ℕ → Symbol → Bool
is_digit d (digit e) = eqb d e
is_digit d pad = false
is_digit d line_break = false
is_digit d bad = false

is_digit→eq : (d : ℕ) (s : Symbol) → is_digit d s ≡ true → s ≡ digit d
is_digit→eq d (digit e) h = ground arith
is_digit→eq d _ h = cc

abbrev reads_back : ℕ → Bool
reads_back d = is_digit d (symbol (code (digit_char d)))

-- Every digit under a bound is read back.
table : ℕ → Bool
table zero = true
table (suc d) = if reads_back d then table d else false

reads_back-table : (bound d : ℕ) → d < bound → table bound ≡ true → reads_back d ≡ true
unfolding table
reads_back-table zero d small all = absurd (omega arith)
reads_back-table (suc bound) d small all = ground (arith, reads_back-table bound d)

table_of_64 : table 64 ≡ true
unfolding table symbol digit_char
table_of_64 = refl

symbol-digit_char : (d : ℕ) → d < 64 → symbol (code (digit_char d)) ≡ digit d
symbol-digit_char d small = is_digit→eq d _ (reads_back-table 64 d small table_of_64)

-- Every element is the value of a byte.
abbrev pub AreBytes : Bytes → Type 0
AreBytes [] = Unit
AreBytes (x ∷ r) = (x < 256) × AreBytes r

symbol-pad : symbol b'=' ≡ pad
unfolding symbol
symbol-pad = refl

-- Decoding the encoding of any bytes gives them back.
pub decode-encode : (b : Bytes) → AreBytes b → decode (encode b) ≡ some b
unfolding decode encode
decode-encode [] h = refl
decode-encode (x ∷ []) h =
    rw
      (
        symbol-digit_char (x / 4) (omega arith),
        symbol-digit_char (x % 4 * 16) (omega arith),
        symbol-pad,
      )
      (ground arith)
decode-encode (x ∷ y ∷ []) h =
    rw
      (
        symbol-digit_char (x / 4) (omega arith),
        symbol-digit_char (x % 4 * 16 + y / 16) (omega arith),
        symbol-digit_char (y % 16 * 4) (omega arith),
        symbol-pad,
      )
      (ground arith)
decode-encode (x ∷ y ∷ z ∷ r) h =
    rw
      (
        symbol-digit_char (x / 4) (omega arith),
        symbol-digit_char (x % 4 * 16 + y / 16) (omega arith),
        symbol-digit_char (y % 16 * 4 + z / 64) (omega arith),
        symbol-digit_char (z % 64) (omega arith),
        decode-encode r h.1.1.1,
      )
      (ground arith)
