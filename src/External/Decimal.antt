-- ===== src/External/Decimal.antt =====
-- The decimal text of an integer, as `toString` of a BigNumber gives it.
use Prim.Native.Char.{Char}
use Prim.Native.String.{char_at}
use set_protocol_v2_contract.Common.{ℕ, zero, suc, ◌/◌, ◌%◌, String, if◌then◌else◌, ltb}
use set_protocol_v2_contract.Common.Integer.{ℤ, pos, negsuc}

abbrev digit : ℕ → Char
digit n = char_at "0123456789" n

-- The digits of n before those that are written already. The number bounds the count of its digits.
abbrev pub digits : ℕ → ℕ → String → String
digits zero n written = written
digits (suc fuel) n written =
    let more = String.◌∷◌ (digit (n % 10)) written in
    let rest = digits fuel (n / 10) more in if ltb n 10 then more else rest

abbrev pub decimal : ℤ → String
decimal (pos n) = digits (suc n) n ""
decimal (negsuc n) = String.◌∷◌ "-" (digits (suc (suc n)) (suc n) "")
