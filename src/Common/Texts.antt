-- ===== src/Common/Texts.antt =====
-- `\s` of the source's regular expressions.
use Prim.Native.Char.{Char, code}
use mathlib.Core.Bool.{Bool, ◌||◌, ◌&&◌}
use openclaw_nie_guard.Common.Tests.{leb}
use openclaw_nie_guard.Common.Equality.{◌==◌, nat_eq}

unfoldable pub is_space : Char → Bool
is_space c =
    let n = code c in
    (leb 9 n && leb n 13)
    || n == 32
    || n == 160
    || n == 5760
    || (leb 8192 n && leb n 8202)
    || n == 8232
    || n == 8233
    || n == 8239
    || n == 8287
    || n == 12288
    || n == 65279
