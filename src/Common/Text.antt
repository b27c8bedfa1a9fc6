-- ===== src/Common/Text.antt =====
-- `str::len`: the bytes that a text takes in UTF-8.
use Prim.Native.Nat.{ℕ, ◌+◌}
use Prim.Native.Char.{code}
use Prim.Native.String.{String}
use signal_fish_client_rust.Common.Tests.{ltb, if◌then◌else◌}

abbrev pub utf8_width : ℕ → ℕ
utf8_width c = if ltb c 0x80 then 1 else if ltb c 0x800 then 2 else if ltb c 0x10000 then 3 else 4

unfoldable pub utf8_len : String → ℕ
utf8_len String.[] = 0
utf8_len (String.◌∷◌ c s) = utf8_width (code c) + utf8_len s
