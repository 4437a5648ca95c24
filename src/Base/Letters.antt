-- ===== src/Base/Letters.antt =====
-- `char::is_whitespace`, `char::is_control`, `str::trim` and lower case. The tables of Unicode lower
-- case are not spelled out: `to_lowercase` is a parameter, and what is used of it is that on ASCII
-- text it maps A..Z to a..z and nothing else.
use Prim.Native.Nat.{ℕ, ◌+◌, ◌<◌}
use mathlib.Core.Path.{◌≡◌, refl}
use mathlib.Core.Bool.{Bool, true, ◌&&◌, ◌||◌}
use mathlib.Core.List.{[], ◌∷◌, map, reverse}
use infer_platform.Base.Tests.{leb, ltb, ◌==◌, if◌then◌else◌}
use infer_platform.Base.Lists.{All, all}
use native.Mathlib.Omega.{arith}
use infer_platform.Base.Chars.{Text}

unfoldable pub ascii_lower : ℕ → ℕ
ascii_lower c = if leb b'A' c && leb c b'Z' then c + 32 else c

abbrev pub IsAscii : Text → Type 0
IsAscii = All (λ c. c < 128)

pub all-IsAscii : (t : Text) → all (λ c. ltb c 128) t ≡ true → IsAscii t
all-IsAscii [] h = tt
all-IsAscii (c ∷ t) h = (ground arith, all-IsAscii t (ground arith))

pub record Casing : Type 0 where
  pub to_lowercase : Text → Text
  pub ascii_lem : (t : Text) → IsAscii t → to_lowercase t ≡ map ascii_lower t

-- The casing that leaves everything outside ASCII alone meets the law.
abbrev pub ascii_casing : Casing
ascii_casing = record { to_lowercase = map ascii_lower; ascii_lem = λ t h. refl }

-- The general category Cc.
unfoldable pub is_control : ℕ → Bool
is_control c = leb c 31 || (leb 127 c && leb c 159)

-- The property White_Space.
unfoldable pub is_whitespace : ℕ → Bool
is_whitespace c =
    (leb 9 c && leb c 13)
    || (c == 32)
    || (c == 133)
    || (c == 160)
    || (c == 5760)
    || (leb 8192 c && leb c 8202)
    || (c == 8232)
    || (c == 8233)
    || (c == 8239)
    || (c == 8287)
    || (c == 12288)

unfoldable pub trim_start : Text → Text
unfolding is_whitespace
trim_start [] = []
trim_start (c ∷ t) = if is_whitespace c then trim_start t else c ∷ t

unfoldable pub trim : Text → Text
unfolding trim_start
trim t = reverse (trim_start (reverse (trim_start t)))
