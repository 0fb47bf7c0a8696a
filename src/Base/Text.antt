-- ===== src/Base/Text.antt =====
-- The length of a text in bytes, as Rust's `str::len` counts it.
use Prim.Native.Nat.{ℕ, ◌+◌}
use Prim.Native.Char.{code}
use Prim.Native.String.{String}
use operation_monitoring.Base.Tests.{if◌then◌else◌, ltb}

abbrev pub utf8_width : ℕ → ℕ
utf8_width c = if ltb c 128 then 1 else if ltb c 2048 then 2 else if ltb c 65536 then 3 else 4

unfoldable pub str_len : String → ℕ
str_len String.[] = 0
str_len (String.◌∷◌ c s) = utf8_width (code c) + str_len s
