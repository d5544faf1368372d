-- ===== src/Common/Texts.antt =====
-- `String.prototype.trim`.
use Prim.Native.Nat.{ℕ, zero, suc}
use Prim.Native.Char.{code}
use Prim.Native.String.{String, [], ◌∷◌}
use mathlib.Core.Bool.{Bool, ◌&&◌, ◌||◌}
use text.Mathlib.Text.{◌==◌ as text_eq}
use ss_backend.Common.Tests.{leb, ◌==◌, if◌then◌else◌}

-- The white space and line terminators of ECMAScript.
abbrev pub is_space : ℕ → Bool
is_space c =
    leb 9 c && leb c 13
    || c == 32
    || c == 0xa0
    || c == 0x1680
    || leb 0x2000 c && leb c 0x200a
    || c == 0x2028
    || c == 0x2029
    || c == 0x202f
    || c == 0x205f
    || c == 0x3000
    || c == 0xfeff

unfoldable pub trim_start : String → String
trim_start [] = []
trim_start (c ∷ s) = if is_space (code c) then trim_start s else c ∷ s

unfoldable pub trim_end : String → String
trim_end [] = []
trim_end (c ∷ s) =
    let rest = trim_end s in if is_space (code c) && text_eq rest "" then [] else c ∷ rest

unfoldable pub trim : String → String
unfolding trim_start trim_end
trim s = trim_end (trim_start s)

-- `String.prototype.slice` from 0; a character counts as one.
unfoldable pub text_take : ℕ → String → String
text_take zero s = []
text_take (suc n) [] = []
text_take (suc n) (c ∷ s) = c ∷ text_take n s
