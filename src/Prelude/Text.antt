-- ===== src/Prelude/Text.antt =====
-- Python's `str.strip`, `str.split` at one character, and sets of texts given as lists.
use Prim.Native.Nat.{ℕ, suc}
use Prim.Native.Char.{Char, code}
use Prim.Native.String.{String}
use mathlib.Core.Bool.{Bool, false, ◌&&◌, ◌||◌}
use mathlib.Core.List.{List, [], ◌∷◌}
use mathlib.Core.Path.{◌≡◌, refl}
use native.Mathlib.Omega.{arith}
use text.Mathlib.Text.{◌==◌ as str_eq}
use text.Mathlib.TextEquality.{eq_iff}
use autonomous_ai_job_oreche.Prelude.Tests.{if◌then◌else◌, leb, ◌==◌, truthy}

-- `len(s)`: the number of characters.
abbrev pub str_length : String → ℕ
str_length String.[] = 0
str_length (String.◌∷◌ c s) = suc (str_length s)

-- `chr(c).isspace()` for the characters that `strip` removes.
is_space : ℕ → Bool
is_space c =
    (leb 9 c && leb c 13)
    || (leb 28 c && leb c 32)
    || c == 0x85
    || c == 0xa0
    || c == 0x1680
    || (leb 0x2000 c && leb c 0x200a)
    || c == 0x2028
    || c == 0x2029
    || c == 0x202f
    || c == 0x205f
    || c == 0x3000

lstrip : String → String
unfolding is_space
lstrip String.[] = ""
lstrip (String.◌∷◌ c s) = let rest = lstrip s in if is_space (code c) then rest else String.◌∷◌ c s

rstrip : String → String
unfolding is_space
rstrip String.[] = ""
rstrip (String.◌∷◌ c s) =
    let rest = rstrip s in if is_space (code c) && str_eq rest "" then "" else String.◌∷◌ c rest

unfoldable pub strip : String → String
unfolding lstrip rstrip
strip s = rstrip (lstrip s)

-- One more character in front of the first piece.
push_first : Char → List String → List String
push_first c [] = String.◌∷◌ c "" ∷ []
push_first c (piece ∷ pieces) = String.◌∷◌ c piece ∷ pieces

-- `s.split(",")`: one piece more than there are separators.
unfoldable pub split_commas : String → List String
unfolding push_first
split_commas String.[] = "" ∷ []
split_commas (String.◌∷◌ c s) =
    let rest = split_commas s in if code c == b',' then "" ∷ rest else push_first c rest

-- `{e.strip() for e in pieces if e.strip()}`: a set, as the list of its members.
unfoldable pub stripped : List String → List String
unfolding strip
stripped [] = []
stripped (e ∷ es) = if truthy (strip e) then strip e ∷ stripped es else stripped es

unfoldable pub contains : String → List String → Bool
contains x [] = false
contains x (y ∷ ys) = str_eq x y || contains x ys

-- A stripped set has no empty member.
pub contains-stripped_empty : (es : List String) → contains "" (stripped es) ≡ false
unfolding contains stripped
contains-stripped_empty [] = refl
contains-stripped_empty (e ∷ es) =
    ground (arith, contains-stripped_empty es, eq_iff "" (strip e), eq_iff (strip e) "")

split_test : stripped (split_commas " sleep, ,shell ") ≡ "sleep" ∷ "shell" ∷ []
unfolding stripped split_commas
split_test = refl
