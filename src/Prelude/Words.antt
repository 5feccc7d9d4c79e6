-- ===== src/Prelude/Words.antt =====
-- Text as character codes, and the methods of JavaScript strings that the services call.
use vfw.Prelude.{
  ℕ, zero, suc, ◌+◌, ◌/◌, ◌%◌, Bool, true, false, ◌&&◌, ◌||◌, List, [], ◌∷◌, ◌++◌, ltb, leb, ◌==◌,
  if◌then◌else◌,
}

-- `a === b`
unfoldable pub same_text : List ℕ → List ℕ → Bool
same_text [] [] = true
same_text [] (_ ∷ _) = false
same_text (_ ∷ _) [] = false
same_text (a ∷ as') (b ∷ bs) = a == b && same_text as' bs

-- `text.startsWith(prefix)`, the prefix first.
unfoldable pub starts_with : List ℕ → List ℕ → Bool
starts_with [] text = true
starts_with (_ ∷ _) [] = false
starts_with (p ∷ ps) (c ∷ cs) = p == c && starts_with ps cs

-- The characters that `trim` removes: white space and line terminators.
unfoldable pub is_space : ℕ → Bool
is_space c =
    (leb 9 c && leb c 13)
    || c == 32
    || c == 160
    || c == 0x1680
    || (leb 0x2000 c && leb c 0x200a)
    || c == 0x2028
    || c == 0x2029
    || c == 0x202f
    || c == 0x205f
    || c == 0x3000
    || c == 0xfeff

unfoldable pub trim_start : List ℕ → List ℕ
unfolding is_space
trim_start [] = []
trim_start (c ∷ cs) = if is_space c then trim_start cs else c ∷ cs

-- A character in front of a text whose end is trimmed.
unfoldable pub before_trimmed : ℕ → List ℕ → List ℕ
unfolding is_space
before_trimmed c [] = if is_space c then [] else c ∷ []
before_trimmed c (x ∷ xs) = c ∷ x ∷ xs

unfoldable pub trim_end : List ℕ → List ℕ
unfolding before_trimmed
trim_end [] = []
trim_end (c ∷ cs) = before_trimmed c (trim_end cs)

-- `text.trim()`
unfoldable pub trim : List ℕ → List ℕ
unfolding trim_start trim_end
trim text = trim_end (trim_start text)

-- `/i` compares ASCII letters without their case.
unfoldable pub lower : ℕ → ℕ
lower c = if leb b'A' c && leb c b'Z' then c + 32 else c

unfoldable pub matches_at : List ℕ → List ℕ → Bool
unfolding lower
matches_at [] text = true
matches_at (_ ∷ _) [] = false
matches_at (p ∷ ps) (c ∷ cs) = p == lower c && matches_at ps cs

-- `/word/i.test(text)`, for a word in lower case.
unfoldable pub contains_word : List ℕ → List ℕ → Bool
unfolding matches_at
contains_word word [] = matches_at word []
contains_word word (c ∷ cs) = matches_at word (c ∷ cs) || contains_word word cs

unfoldable pub digits : ℕ → ℕ → List ℕ
digits zero n = []
digits (suc fuel) n =
    let rest = digits fuel (n / 10) in
    if ltb n 10 then (48 + n) ∷ [] else rest ++ ((48 + n % 10) ∷ [])

-- `String(n)`: a number has at most n + 1 digits.
unfoldable pub decimal : ℕ → List ℕ
unfolding digits
decimal n = digits (suc n) n
