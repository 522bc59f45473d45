-- ===== src/Cli/Text.antt =====
-- Text as src/ethercat/cli.rs takes it apart, with the methods of `str` that it calls: a line is
-- the list of its ASCII codes, as the console of src/main.rs stores no other character.
use Prim.Native.Char.{code}
use Prim.Native.String.{String}
use rtic_ecmaster.Base.{
  ℕ, ◌+◌, Bool, true, false, ◌&&◌, ◌||◌, Option, none, some, List, [], ◌∷◌, map, leb, ◌==◌,
  if◌then◌else◌, length,
}

abbrev pub codes : String → List ℕ
codes String.[] = []
codes (String.◌∷◌ c s) = code c ∷ codes s

abbrev pub is_empty {ℓ} : {A : Type ℓ} → List A → Bool
is_empty [] = true
is_empty (x ∷ xs) = false

-- `char::is_whitespace` on ASCII.
unfoldable pub is_whitespace : ℕ → Bool
is_whitespace c = c == 32 || (leb 9 c && leb c 13)

-- `to_ascii_lowercase`
abbrev pub to_lower : ℕ → ℕ
to_lower c = if leb b'A' c && leb c b'Z' then c + 32 else c

-- `==` on texts, and `eq_ignore_ascii_case`.
unfoldable pub same : List ℕ → List ℕ → Bool
same [] [] = true
same [] (d ∷ ds) = false
same (c ∷ cs) [] = false
same (c ∷ cs) (d ∷ ds) = c == d && same cs ds

unfoldable pub eq_ignore_ascii_case : List ℕ → List ℕ → Bool
unfolding same
eq_ignore_ascii_case s t = same (map to_lower s) (map to_lower t)

-- `strip_prefix`
unfoldable pub strip_prefix : List ℕ → List ℕ → Option (List ℕ)
strip_prefix [] s = some s
strip_prefix (p ∷ ps) [] = none
strip_prefix (p ∷ ps) (c ∷ cs) = let rest = strip_prefix ps cs in if p == c then rest else none

-- `trim`
unfoldable pub trim_start : List ℕ → List ℕ
unfolding is_whitespace
trim_start [] = []
trim_start (c ∷ cs) = if is_whitespace c then trim_start cs else c ∷ cs

unfoldable pub trim_end : List ℕ → List ℕ
unfolding is_whitespace
trim_end [] = []
trim_end (c ∷ cs) =
    let rest = trim_end cs in if is_whitespace c && is_empty rest then [] else c ∷ rest

unfoldable pub trim : List ℕ → List ℕ
unfolding trim_start trim_end
trim s = trim_end (trim_start s)

-- `split_whitespace`: the word that the text begins with, and the words behind it.
abbrev pub add_word : List ℕ → List (List ℕ) → List (List ℕ)
add_word [] words = words
add_word (c ∷ cs) words = (c ∷ cs) ∷ words

unfoldable pub split_words : List ℕ → List ℕ × List (List ℕ)
unfolding is_whitespace
split_words [] = ([], [])
split_words (c ∷ cs) =
    let (word, words) = split_words cs in
    if is_whitespace c then ([], add_word word words) else (c ∷ word, words)

unfoldable pub split_whitespace : List ℕ → List (List ℕ)
unfolding split_words
split_whitespace s = add_word (split_words s).0 (split_words s).1

-- `push_str` on an empty `heapless::String<N>`: all of the text, or none of it.
abbrev pub fitted : ℕ → List ℕ → List ℕ
fitted room s = if leb (length s) room then s else []
