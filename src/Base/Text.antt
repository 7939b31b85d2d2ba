-- ===== src/Base/Text.antt =====
-- `std::string` as the native text. Every search in the program is for ASCII text, so that the
-- walk over code points finds what the walk over UTF-8 bytes finds.
use Prim.Native.Nat.{ℕ, ◌+◌}
use Prim.Native.Char.{Char, code}
use Prim.Native.String
use Prim.Native.String.{String}
use mathlib.Core.Path.{◌≡◌}
use mathlib.Core.Logic.{◌≢◌}
use mathlib.Core.Bool.{Bool, true, false, not, ◌||◌}
use mathlib.Core.Option.{Option, none, some}
use mathlib.Core.List.{List, [], ◌∷◌}
use native.Mathlib.Omega.{arith}
use text.Mathlib.Text.{◌==◌ as str_eq}
use text.Mathlib.TextEquality.{eq_iff}
use web_socket_ds.Base.Tests.{nat_beq, ltb, if◌then◌else◌}

abbrev pub str_beq : String → String → Bool
str_beq s t = str_eq s t

infixr 65 ◌<>◌
abbrev pub ◌<>◌ : String → String → String
s <> t = String.◌++◌ s t

-- `s.size()` as a test.
abbrev pub is_empty : String → Bool
is_empty s = str_eq s ""

abbrev pub nonempty : String → Bool
nonempty s = not (is_empty s)

-- The characters of a text, as code points.
abbrev pub codes : String → List ℕ
codes String.[] = []
codes (String.◌∷◌ c s) = code c ∷ codes s

abbrev pub same_char : Char → Char → Bool
same_char c d = nat_beq (code c) (code d)

abbrev utf8_size : ℕ → ℕ
utf8_size n = if ltb n 128 then 1 else if ltb n 2048 then 2 else if ltb n 65536 then 3 else 4

-- `s.size()`, in bytes of UTF-8.
unfoldable pub size : String → ℕ
size String.[] = 0
size (String.◌∷◌ c s) = utf8_size (code c) + size s

-- What is left of the text behind a prefix.
unfoldable pub strip_prefix : String → String → Option String
strip_prefix String.[] s = some s
strip_prefix (String.◌∷◌ c p) String.[] = none
strip_prefix (String.◌∷◌ c p) (String.◌∷◌ d s) = if same_char c d then strip_prefix p s else none

abbrev is_found {ℓ} : {A : Type ℓ} → Option A → Bool
is_found none = false
is_found (some a) = true

-- `s.find(needle) != npos`.
unfoldable pub contains : String → String → Bool
unfolding strip_prefix
contains needle String.[] = is_empty needle
contains needle (String.◌∷◌ c s) =
    is_found (strip_prefix needle (String.◌∷◌ c s)) || contains needle s

pub ne_of_beq_false : (s t : String) → str_beq s t ≡ false → s ≢ t
ne_of_beq_false s t h = ground (arith, eq_iff s t)
