-- ===== src/Output/Texts.antt =====
-- The operations on texts that the log store uses, with their laws.
use Prim.Native.Char.{code}
use autonomous_ai_job_oreche.Prelude.{
  ℕ, zero, suc, ◌+◌, ◌/◌, ◌%◌, min, String, Bool, false, ◌||◌, ◌&&◌, Option, none, some, ◌≡◌, refl,
  arith, ltb, ◌==◌, str_length, if◌then◌else◌,
}

-- `a + b` and `s[:n]`
abbrev pub append_text : String → String → String
append_text String.[] t = t
append_text (String.◌∷◌ c s) t = String.◌∷◌ c (append_text s t)

abbrev pub take_text : ℕ → String → String
take_text zero s = ""
take_text (suc n) String.[] = ""
take_text (suc n) (String.◌∷◌ c s) = String.◌∷◌ c (take_text n s)

-- `s.removeprefix(p)`, or `none` if `s` does not start with `p`
unfoldable pub remove_prefix : String → String → Option String
remove_prefix String.[] s = some s
remove_prefix (String.◌∷◌ a p) String.[] = none
remove_prefix (String.◌∷◌ a p) (String.◌∷◌ b s) =
    if code a == code b then remove_prefix p s else none

-- `s.replace("\\", "/")`
unfoldable pub slashes : String → String
slashes String.[] = ""
slashes (String.◌∷◌ c s) =
    if code c == 92 then String.◌∷◌ "/" (slashes s) else String.◌∷◌ c (slashes s)

-- Reading a text file turns "\r\n" and "\r" into "\n"; the flag says that "\r" came before.
newlines : Bool → String → String
newlines after_cr String.[] = ""
newlines after_cr (String.◌∷◌ c s) =
    let rest = newlines (code c == 13) s in
    if code c == 13
    then String.◌∷◌ "\n" rest
    else if code c == 10 && after_cr
    then rest
    else String.◌∷◌ c rest

unfoldable pub universal_newlines : String → String
unfolding newlines
universal_newlines s = newlines false s

digit : ℕ → String
digit n =
    if n == 0
    then "0"
    else if n == 1
    then "1"
    else if n == 2
    then "2"
    else if n == 3
    then "3"
    else if n == 4
    then "4"
    else if n == 5
    then "5"
    else if n == 6
    then "6"
    else if n == 7
    then "7"
    else if n == 8
    then "8"
    else "9"

-- The decimal digits of a number, on more fuel than it has digits.
digits_on : ℕ → ℕ → String
unfolding digit
digits_on zero n = ""
digits_on (suc fuel) n =
    let rest = append_text (digits_on fuel (n / 10)) (digit (n % 10)) in
    if ltb n 10 then digit n else rest

unfoldable pub decimal : ℕ → String
unfolding digits_on
decimal n = digits_on (suc n) n

decimal_test : decimal 1050 ≡ "1050"
unfolding decimal
decimal_test = refl

pub str_length-append_text :
    (s t : String) → str_length (append_text s t) ≡ str_length s + str_length t
str_length-append_text String.[] t = omega arith
str_length-append_text (String.◌∷◌ c s) t = omega (arith, str_length-append_text s t)

pub str_length-take_text : (n : ℕ) (s : String) → str_length (take_text n s) ≡ min n (str_length s)
str_length-take_text zero s = omega arith
str_length-take_text (suc n) String.[] = omega arith
str_length-take_text (suc n) (String.◌∷◌ c s) = omega (arith, str_length-take_text n s)

pub remove_prefix-append_text : (p s : String) → remove_prefix p (append_text p s) ≡ some s
unfolding remove_prefix
remove_prefix-append_text String.[] s = refl
remove_prefix-append_text (String.◌∷◌ a p) s = ground (arith, remove_prefix-append_text p s)

pub slashes-append_text :
    (s t : String) → slashes (append_text s t) ≡ append_text (slashes s) (slashes t)
unfolding slashes
slashes-append_text String.[] t = refl
slashes-append_text (String.◌∷◌ c s) t = ground (arith, slashes-append_text s t)

text_tail : String → String
text_tail String.[] = ""
text_tail (String.◌∷◌ c s) = s

pub append_text_cancel : (p s t : String) → append_text p s ≡ append_text p t → s ≡ t
append_text_cancel String.[] s t h = h
append_text_cancel (String.◌∷◌ c p) s t h = append_text_cancel p s t (tails h)
  where
    tails :
        String.◌∷◌ c (append_text p s) ≡ String.◌∷◌ c (append_text p t)
        → append_text p s ≡ append_text p t
    tails e = cc

-- A carriage return stands in the text.
abbrev pub has_cr : String → Bool
has_cr String.[] = false
has_cr (String.◌∷◌ c s) = code c == 13 || has_cr s

newlines-no_cr : (s : String) → has_cr s ≡ false → newlines false s ≡ s
unfolding newlines
newlines-no_cr String.[] h = refl
newlines-no_cr (String.◌∷◌ c s) h = ground (arith, newlines-no_cr s)

pub universal_newlines-no_cr : (s : String) → has_cr s ≡ false → universal_newlines s ≡ s
unfolding universal_newlines
universal_newlines-no_cr s h = newlines-no_cr s h
