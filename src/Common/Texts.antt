-- ===== src/Common/Texts.antt =====
-- Texts as lists of code points, with their sizes in the two encodings of the browser.
use Prim.Native.Nat.{ℕ, ◌+◌, ◌/◌, ◌%◌}
use mathlib.Core.Path.{◌≡◌, refl, ap, sym, ◌∙◌}
use mathlib.Core.Bool.{Bool, true, false, ◌&&◌, ◌||◌}
use mathlib.Core.List.{List, [], ◌∷◌, ◌++◌, append_assoc}
use friendly_ai_explorer.Common.Tests.{ltb, if◌then◌else◌, within}
use friendly_ai_explorer.Common.Lists.{includes}

-- `new TextEncoder().encode` of one code point.
unfoldable pub utf8_char : ℕ → List ℕ
utf8_char c =
    if ltb c 0x80
    then c ∷ []
    else if ltb c 0x800
    then (0xC0 + c / 64) ∷ (0x80 + c % 64) ∷ []
    else if ltb c 0x10000
    then (0xE0 + c / 4096) ∷ (0x80 + c / 64 % 64) ∷ (0x80 + c % 64) ∷ []
    else (0xF0 + c / 262144) ∷ (0x80 + c / 4096 % 64) ∷ (0x80 + c / 64 % 64) ∷ (0x80 + c % 64) ∷ []

unfoldable pub utf8 : List ℕ → List ℕ
utf8 [] = []
utf8 (c ∷ cs) = utf8_char c ++ utf8 cs

pub utf8-append : (a b : List ℕ) → utf8 (a ++ b) ≡ utf8 a ++ utf8 b
unfolding utf8
utf8-append [] b = refl
utf8-append (c ∷ a) b =
    ap (◌++◌ (utf8_char c)) (utf8-append a b) ∙ sym (append_assoc (utf8_char c) (utf8 a) (utf8 b))

-- `text.length`, in UTF-16 units.
unfoldable pub utf16_length : List ℕ → ℕ
utf16_length [] = 0
utf16_length (c ∷ cs) = (if ltb c 0x10000 then 1 else 2) + utf16_length cs

-- What `trim` removes.
unfoldable pub is_space : ℕ → Bool
is_space c =
    within 9 13 c
    || includes (32 ∷ 0xa0 ∷ 0x1680 ∷ 0x2028 ∷ 0x2029 ∷ 0x202f ∷ 0x205f ∷ 0x3000 ∷ 0xfeff ∷ []) c
    || within 0x2000 0x200a c

unfoldable pub trim_start : List ℕ → List ℕ
trim_start [] = []
trim_start (c ∷ cs) = let rest = trim_start cs in if is_space c then rest else c ∷ cs

unfoldable pub is_nil : List ℕ → Bool
is_nil [] = true
is_nil (c ∷ cs) = false

unfoldable pub trim_end : List ℕ → List ℕ
trim_end [] = []
trim_end (c ∷ cs) = let rest = trim_end cs in if is_nil rest && is_space c then [] else c ∷ rest

-- `text.trim()`
unfoldable pub trim : List ℕ → List ℕ
trim text = trim_end (trim_start text)
