-- ===== src/Qr/Encoding.antt =====
-- What src/server/billing/qr-payment.ts calls of the language: `TextEncoder`, `String(n)`,
-- `padStart` and `toUpperCase`; and a thrown error as `none`.
use Prim.Native.Char.{code}
use Prim.Native.String.{String}
use filazero_local.Base.{
  ℕ, zero, suc, ◌+◌, ◌-◌, ◌*◌, ◌/◌, ◌%◌, ◌≡◌, refl, Bool, true, false, ◌&&◌, Option, none, some,
  List, [], ◌∷◌, ◌++◌, map, ltb, leb, if◌then◌else◌, length, Text,
}

-- The units of a literal, which is ASCII.
abbrev pub codes : String → Text
codes String.[] = []
codes (String.◌∷◌ c s) = code c ∷ codes s

-- A thrown error is `none`; what follows it is not reached.
infixl 5 ◌>>=◌
abbrev pub ◌>>=◌ {ℓ κ} : {A : Type ℓ} {B : Type κ} → Option A → (A → Option B) → Option B
none >>= go_on = none
some a >>= go_on = go_on a

pub >>=-eq-some {ℓ κ} :
    {A : Type ℓ} {B : Type κ} (first : Option A) (go_on : A → Option B) {b : B}
    → (first >>= go_on) ≡ some b
    → (a : A) × (first ≡ some a) × (go_on a ≡ some b)
>>=-eq-some none go_on h = cc
>>=-eq-some (some a) go_on h = (a, refl, h)

abbrev pub Bytes : Type 0
Bytes = List ℕ

abbrev pub is_high : ℕ → Bool
is_high c = leb 0xd800 c && leb c 0xdbff

abbrev pub is_low : ℕ → Bool
is_low c = leb 0xdc00 c && leb c 0xdfff

-- The bytes of one code point.
abbrev pub point_bytes : ℕ → Bytes
point_bytes c =
    if ltb c 0x80
    then c ∷ []
    else if ltb c 0x800
    then (0xc0 + c / 64) ∷ (0x80 + c % 64) ∷ []
    else if ltb c 0x10000
    then (0xe0 + c / 4096) ∷ (0x80 + c / 64 % 64) ∷ (0x80 + c % 64) ∷ []
    else (0xf0 + c / 0x40000) ∷ (0x80 + c / 4096 % 64) ∷ (0x80 + c / 64 % 64) ∷ (0x80 + c % 64) ∷ []

-- U+FFFD, which stands for half of a surrogate pair without the other half.
abbrev pub replacement : Bytes
replacement = 0xef ∷ 0xbf ∷ 0xbd ∷ []

abbrev pub alone : ℕ → Bytes
alone c = if is_high c then [] else if is_low c then replacement else point_bytes c

-- The bytes that unit `c` completes, after a high surrogate that still waits or none.
abbrev pub unit_bytes : Option ℕ → ℕ → Bytes
unit_bytes none c = alone c
unit_bytes (some high) c =
    if is_low c
    then point_bytes (0x10000 + (high - 0xd800) * 0x400 + (c - 0xdc00))
    else replacement ++ alone c

abbrev pub waiting : ℕ → Option ℕ
waiting c = if is_high c then some c else none

abbrev pub last_bytes : Option ℕ → Bytes
last_bytes none = []
last_bytes (some high) = replacement

unfoldable pub utf8_after : Option ℕ → Text → Bytes
utf8_after high [] = last_bytes high
utf8_after high (c ∷ s) = unit_bytes high c ++ utf8_after (waiting c) s

-- `new TextEncoder().encode(s)`
unfoldable pub utf8 : Text → Bytes
unfolding utf8_after
utf8 s = utf8_after none s

-- The digit `d`, in lower case above nine.
abbrev pub digit : ℕ → ℕ
digit d = if ltb d 10 then 48 + d else 87 + d

-- The digits of `n`, at most `fuel` of them, in front of `out`.
abbrev pub print_onto : ℕ → ℕ → ℕ → Text → Text
print_onto zero base n out = out
print_onto (suc fuel) base n out = elim (ltb n base) [
  | true ↦ digit (n % base) ∷ out
  | false ↦ print_onto fuel base (n / base) (digit (n % base) ∷ out)
]

-- `n.toString(base)`: a number has no more digits than its value and one.
unfoldable pub to_string : ℕ → ℕ → Text
to_string base n = print_onto (suc n) base n []

abbrev pub zeros : ℕ → Text
zeros zero = []
zeros (suc n) = 48 ∷ zeros n

-- `s.padStart(width, "0")`
abbrev pub pad_start : ℕ → Text → Text
pad_start width s = zeros (width - length s) ++ s

abbrev pub upper : ℕ → ℕ
upper c = if leb 97 c && leb c 122 then c - 32 else c

abbrev pub is_ascii : Text → Bool
is_ascii [] = true
is_ascii (c ∷ s) = ltb c 128 && is_ascii s

-- `s.toUpperCase()`; `unicode` does it for a text with characters outside ASCII.
unfoldable pub to_upper : (Text → Text) → Text → Text
to_upper unicode s = if is_ascii s then map upper s else unicode s
