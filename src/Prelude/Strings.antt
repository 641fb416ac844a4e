-- ===== src/Prelude/Strings.antt =====
-- Texts as sequences of code points: what Python's `str` methods do, on the native `String`.
-- Case mapping is that of the ASCII letters.
use Prim.Native.Nat.{ℕ, zero, suc, ◌+◌, ◌-◌, ◌≤◌}
use Prim.Native.Char.{Char, code}
use Prim.Native.String.{String, ◌++◌}
use Prim.Native.String.append
use mathlib.Core.Path.{◌≡◌, refl, ap, ◌∙◌}
use mathlib.Core.Bool.{Bool, true, false, not, ◌&&◌, ◌||◌}
use mathlib.Core.List.{List, [], ◌∷◌}
use native.Mathlib.Omega.{arith}
use text.Mathlib.Text.{◌==◌}
use text.Mathlib.TextEquality.{Char-path}
use onegov2_spatial_assistan.Prelude.Tests.{ltb, eqb, leb, if◌then◌else◌}

-- `len(s)`
abbrev pub chars : String → ℕ
chars String.[] = 0
chars (String.◌∷◌ c s) = suc (chars s)

-- `s[:n]`
abbrev pub text_take : ℕ → String → String
text_take zero s = String.[]
text_take (suc n) String.[] = String.[]
text_take (suc n) (String.◌∷◌ c s) = String.◌∷◌ c (text_take n s)

-- `s[n:]`
abbrev pub text_drop : ℕ → String → String
text_drop zero s = s
text_drop (suc n) String.[] = String.[]
text_drop (suc n) (String.◌∷◌ c s) = text_drop n s

-- `s.startswith(t)`
abbrev pub has_prefix : String → String → Bool
has_prefix s String.[] = true
has_prefix String.[] (String.◌∷◌ d t) = false
has_prefix (String.◌∷◌ c s) (String.◌∷◌ d t) = eqb (code c) (code d) && has_prefix s t

-- `t in s`
abbrev pub contains_text : String → String → Bool
contains_text String.[] t = has_prefix String.[] t
contains_text (String.◌∷◌ c s) t = has_prefix (String.◌∷◌ c s) t || contains_text s t

-- `t in (a, b, ...)`
abbrev pub one_of : String → List String → Bool
one_of s [] = false
one_of s (t ∷ ts) = s == t || one_of s ts

-- `sep.join(parts)`
abbrev pub join : String → List String → String
join sep [] = ""
join sep (t ∷ []) = t
join sep (t ∷ u ∷ ts) = t ++ (sep ++ join sep (u ∷ ts))

-- The parts set one after the other.
abbrev pub concat : List String → String
concat [] = ""
concat (t ∷ ts) = t ++ concat ts

abbrev pub is_space : ℕ → Bool
is_space c = eqb c 32 || (leb 9 c && leb c 13) || (leb 28 c && leb c 31) || eqb c 133 || eqb c 160

-- `s.lstrip()`, `s.rstrip()`, `s.strip()`
abbrev lstrip : String → String
lstrip String.[] = String.[]
lstrip (String.◌∷◌ c s) = let rest = lstrip s in if is_space (code c) then rest else String.◌∷◌ c s

abbrev rstrip : String → String
rstrip String.[] = String.[]
rstrip (String.◌∷◌ c s) =
    let rest = rstrip s in if rest == "" && is_space (code c) then String.[] else String.◌∷◌ c rest

abbrev pub strip : String → String
strip s = rstrip (lstrip s)

pub text_take-append-drop : (n : ℕ) (s : String) → text_take n s ++ text_drop n s ≡ s
text_take-append-drop zero s = λ i. append.nil s i
text_take-append-drop (suc n) String.[] = λ i. append.nil "" i
text_take-append-drop (suc n) (String.◌∷◌ c s) =
    (λ i. append.cons c (text_take n s) (text_drop n s) i)
    ∙ ap (λ r. String.◌∷◌ c r) (text_take-append-drop n s)

pub chars-text_take : (n : ℕ) (s : String) → n ≤ chars s → chars (text_take n s) ≡ n
chars-text_take zero s h = refl
chars-text_take (suc n) String.[] h = absurd (omega arith)
chars-text_take (suc n) (String.◌∷◌ c s) h = ap suc (chars-text_take n s (omega arith))

pub chars-text_drop : (n : ℕ) (s : String) → chars (text_drop n s) ≡ chars s - n
chars-text_drop zero s = omega arith
chars-text_drop (suc n) String.[] = omega arith
chars-text_drop (suc n) (String.◌∷◌ c s) = omega (arith, chars-text_drop n s)

pub chars-append : (s t : String) → chars (s ++ t) ≡ chars s + chars t
chars-append String.[] t = ap chars (λ i. append.nil t i) ∙ omega arith
chars-append (String.◌∷◌ c s) t =
    ap chars (λ i. append.cons c s t i) ∙ omega (arith, chars-append s t)

pub text_take-append : (s t : String) → text_take (chars s) (s ++ t) ≡ s
text_take-append String.[] t = refl
text_take-append (String.◌∷◌ c s) t =
    ap (text_take (suc (chars s))) (λ i. append.cons c s t i)
    ∙ ap (λ r. String.◌∷◌ c r) (text_take-append s t)

pub text_drop-append : (s t : String) → text_drop (chars s) (s ++ t) ≡ t
text_drop-append String.[] t = λ i. append.nil t i
text_drop-append (String.◌∷◌ c s) t =
    ap (text_drop (suc (chars s))) (λ i. append.cons c s t i) ∙ text_drop-append s t

strings_test : contains_text "de hollandse ijssel" "ijssel" ≡ true
strings_test = refl

join_test : join "|" ("a" ∷ "b" ∷ "c" ∷ []) ≡ "a|b|c"
join_test = refl

abbrev swap_letter : String → String → Char → Char
swap_letter (String.◌∷◌ u us) (String.◌∷◌ l ls) c =
    if eqb (code u) (code c) then l else swap_letter us ls c
swap_letter _ _ c = c

-- `s.lower()`
abbrev pub lower : String → String
lower String.[] = String.[]
lower (String.◌∷◌ c s) =
    String.◌∷◌ (swap_letter "ABCDEFGHIJKLMNOPQRSTUVWXYZ" "abcdefghijklmnopqrstuvwxyz" c) (lower s)

-- `s.upper()`
abbrev pub upper : String → String
upper String.[] = String.[]
upper (String.◌∷◌ c s) =
    String.◌∷◌ (swap_letter "abcdefghijklmnopqrstuvwxyz" "ABCDEFGHIJKLMNOPQRSTUVWXYZ" c) (upper s)

abbrev pub is_digit : Char → Bool
is_digit c = leb b'0' (code c) && leb (code c) b'9'

abbrev pub is_letter : Char → Bool
is_letter c = (leb b'a' (code c) && leb (code c) b'z') || (leb b'A' (code c) && leb (code c) b'Z')

abbrev letters : String → Bool
letters String.[] = true
letters (String.◌∷◌ c s) = is_letter c && letters s

-- `s.isalpha()`
abbrev pub is_alpha : String → Bool
is_alpha s = letters s && not (s == "")

lower_test : lower "Welke KNMI'23" ≡ "welke knmi'23"
lower_test = refl

-- `s <= t`, by code points.
abbrev pub text_le : String → String → Bool
text_le String.[] t = true
text_le (String.◌∷◌ c s) String.[] = false
text_le (String.◌∷◌ c s) (String.◌∷◌ d t) =
    ltb (code c) (code d) || (eqb (code c) (code d) && text_le s t)

pub text_le_total : (s t : String) → text_le s t ≡ false → text_le t s ≡ true
text_le_total String.[] t h = cc
text_le_total (String.◌∷◌ c s) String.[] h = refl
text_le_total (String.◌∷◌ c s) (String.◌∷◌ d t) h = ground (arith, text_le_total s t)

pub text_le_trans : (s t u : String) → text_le s t ≡ true → text_le t u ≡ true → text_le s u ≡ true
text_le_trans String.[] t u h k = refl
text_le_trans (String.◌∷◌ c s) String.[] u h k = cc
text_le_trans (String.◌∷◌ c s) (String.◌∷◌ d t) String.[] h k = cc
text_le_trans (String.◌∷◌ c s) (String.◌∷◌ d t) (String.◌∷◌ e u) h k =
    ground (arith, text_le_trans s t u)

pub text_le_antisym : (s t : String) → text_le s t ≡ true → text_le t s ≡ true → s ≡ t
text_le_antisym String.[] String.[] h k = refl
text_le_antisym String.[] (String.◌∷◌ d t) h k = cc
text_le_antisym (String.◌∷◌ c s) String.[] h k = cc
text_le_antisym (String.◌∷◌ c s) (String.◌∷◌ d t) h k =
    let same : code c ≡ code d = ground arith in
    let rest : s ≡ t = ground (arith, text_le_antisym s t) in
    ap (λ x. String.◌∷◌ x s) (Char-path c d same) ∙ ap (λ r. String.◌∷◌ d r) rest

-- `s.replace(a, b)` for one letter each
abbrev pub replace_letter : String → String → String → String
replace_letter a b String.[] = String.[]
replace_letter a b (String.◌∷◌ c s) = String.◌∷◌ (swap_letter a b c) (replace_letter a b s)

-- Characters before the next white space, and the words behind it.
abbrev split_step : Char → String × List String → String × List String
split_step c (open_word, words) =
    if is_space (code c)
    then ("", if open_word == "" then words else open_word ∷ words)
    else (String.◌∷◌ c open_word, words)

abbrev split_from : String → String × List String
split_from String.[] = ("", [])
split_from (String.◌∷◌ c s) = split_step c (split_from s)

-- `s.split()`
abbrev pub split : String → List String
split s = let (first, words) = split_from s in if first == "" then words else first ∷ words

split_test : split "  wat is   dit " ≡ "wat" ∷ "is" ∷ "dit" ∷ []
split_test = refl

strip_test : strip "  wat is dit \t" ≡ "wat is dit"
strip_test = refl
