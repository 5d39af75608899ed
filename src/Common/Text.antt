-- ===== src/Common/Text.antt =====
-- Rust's String: concatenation, `join`, decimal printing of unsigned integers, `trim_end_matches`.
use Prim.Native.Nat.{ℕ, zero, suc, ◌/◌, ◌%◌}
use Prim.Native.Char.{code}
use Prim.Native.String.{String}
use text.Mathlib.Text.{◌==◌}
use mathlib.Core.Bool.{◌&&◌}
use mathlib.Core.List.{List, [], ◌∷◌}
use ldp_protocol.Common.Tests.{ltb, eqb, if◌then◌else◌}

infixr 65 ◌<>◌
abbrev pub ◌<>◌ : String → String → String
s <> t = Prim.Native.String.◌++◌ s t

-- [_]::join(sep)
unfoldable pub join : String → List String → String
join sep [] = ""
join sep (s ∷ []) = s
join sep (s ∷ t ∷ r) = s <> sep <> join sep (t ∷ r)

abbrev digit : ℕ → String
digit zero = "0"
digit (suc zero) = "1"
digit (suc (suc zero)) = "2"
digit (suc (suc (suc zero))) = "3"
digit (suc (suc (suc (suc zero)))) = "4"
digit (suc (suc (suc (suc (suc zero))))) = "5"
digit (suc (suc (suc (suc (suc (suc zero)))))) = "6"
digit (suc (suc (suc (suc (suc (suc (suc zero))))))) = "7"
digit (suc (suc (suc (suc (suc (suc (suc (suc zero)))))))) = "8"
digit _ = "9"

-- The digits of `n`, at most `fuel` of them.
print_digits : ℕ → ℕ → String
print_digits zero n = ""
print_digits (suc fuel) n =
    let front = print_digits fuel (n / 10) in if ltb n 10 then digit n else front <> digit (n % 10)

-- `to_string` of a u64: 20 digits are enough below 2^64.
unfoldable pub to_string : ℕ → String
unfolding print_digits
to_string n = print_digits 20 n

-- str::trim_end_matches('/')
unfoldable pub trim_end_slashes : String → String
trim_end_slashes String.[] = ""
trim_end_slashes (String.◌∷◌ c s) =
    let rest = trim_end_slashes s in
    if (rest == "") && eqb (code c) b'/' then "" else String.◌∷◌ c rest
