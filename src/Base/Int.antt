-- ===== src/Base/Int.antt =====
-- Signed integers, and `std::stoi` with its overflow, and the decimal output of an `int`.
use Prim.Native.Nat.{ℕ, zero, suc, ◌+◌, ◌-◌, ◌*◌, ◌/◌, ◌%◌, ◌^◌}
use Prim.Native.String.{String}
use mathlib.Core.Bool.{Bool, true, false, ◌&&◌, ◌||◌}
use mathlib.Core.Option.{Option, none, some}
use mathlib.Core.List.{List, [], ◌∷◌}
use web_socket_ds.Base.Tests.{ltb, leb, nat_beq, if◌then◌else◌}
use web_socket_ds.Base.Text.{codes, ◌<>◌}

-- `negsuc n` is -(n + 1).
pub data ℤ : Type 0 where
  pos : ℕ → ℤ
  negsuc : ℕ → ℤ

abbrev pub negate : ℕ → ℤ
negate zero = pos 0
negate (suc n) = negsuc n

-- `isspace` in the "C" locale.
abbrev is_space : ℕ → Bool
is_space c = nat_beq c 32 || (leb 9 c && leb c 13)

abbrev is_digit : ℕ → Bool
is_digit c = leb b'0' c && leb c b'9'

skip_spaces : List ℕ → List ℕ
skip_spaces [] = []
skip_spaces (c ∷ s) = if is_space c then skip_spaces s else c ∷ s

-- The digits at the front, as a number; `none` where there is none.
read_digits : Option ℕ → List ℕ → Option ℕ
read_digits acc [] = acc
read_digits none (c ∷ s) = if is_digit c then read_digits (some (c - b'0')) s else none
read_digits (some n) (c ∷ s) =
    if is_digit c then read_digits (some (n * 10 + (c - b'0'))) s else some n

-- A 32-bit `int`: `stoi` throws `out_of_range` beyond it.
abbrev in_int : Bool → ℕ → Option ℤ
in_int false n = if ltb n (2 ^ 31) then some (pos n) else none
in_int true n = if leb n (2 ^ 31) then some (negate n) else none

signed : Bool → Option ℕ → Option ℤ
signed neg none = none
signed neg (some n) = in_int neg n

read_sign : List ℕ → Option ℤ
unfolding read_digits signed
read_sign [] = none
read_sign (c ∷ s) =
    if nat_beq c b'-'
    then signed true (read_digits none s)
    else if nat_beq c b'+'
    then signed false (read_digits none s)
    else signed false (read_digits none (c ∷ s))

-- `std::stoi`; `none` where it throws.
unfoldable pub stoi : String → Option ℤ
unfolding read_sign skip_spaces
stoi s = read_sign (skip_spaces (codes s))

abbrev pub digit : ℕ → String
digit zero = "0"
digit (suc zero) = "1"
digit (suc (suc zero)) = "2"
digit (suc (suc (suc zero))) = "3"
digit (suc (suc (suc (suc zero)))) = "4"
digit (suc (suc (suc (suc (suc zero))))) = "5"
digit (suc (suc (suc (suc (suc (suc zero)))))) = "6"
digit (suc (suc (suc (suc (suc (suc (suc zero))))))) = "7"
digit (suc (suc (suc (suc (suc (suc (suc (suc zero)))))))) = "8"
digit _ = "9"

-- Ten rounds: a 32-bit number has ten digits at most.
unfoldable pub show_from : ℕ → ℕ → String
show_from zero n = ""
show_from (suc f) n =
    let front = show_from f (n / 10) in if ltb n 10 then digit n else front <> digit (n % 10)

-- `stream << n`.
unfoldable pub show_nat : ℕ → String
unfolding show_from
show_nat n = show_from 20 n

unfoldable pub show_int : ℤ → String
unfolding show_nat
show_int (pos n) = show_nat n
show_int (negsuc n) = "-" <> show_nat (n + 1)
