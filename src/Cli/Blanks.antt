-- ===== src/Cli/Blanks.antt =====
-- Texts without blanks: trimming leaves them, and splitting takes them as one word.
use rtic_ecmaster.Base.{ℕ, ◌<◌, ◌≡◌, refl, ◌∙◌, ap, arith, false, List, [], ◌∷◌, ◌++◌, length, All}
use rtic_ecmaster.Cli.Text.{
  is_whitespace, trim_start, trim_end, trim, add_word, split_words, split_whitespace,
}

-- No blank: every code lies above 32.
abbrev pub IsSolid : List ℕ → Type 0
IsSolid s = All (λ c. 32 < c) s

is_whitespace-solid : (c : ℕ) → 32 < c → is_whitespace c ≡ false
unfolding is_whitespace
is_whitespace-solid c h = ground arith

trim_end-solid : (s : List ℕ) → IsSolid s → trim_end s ≡ s
unfolding trim_end
trim_end-solid [] h = refl
trim_end-solid (c ∷ cs) h = rw (is_whitespace-solid c h.0) (ap (λ t. c ∷ t) (trim_end-solid cs h.1))

pub trim-solid : (s : List ℕ) → IsSolid s → trim s ≡ s
unfolding trim trim_start
trim-solid [] h = trim_end-solid [] h
trim-solid (c ∷ cs) h = rw (is_whitespace-solid c h.0) (trim_end-solid (c ∷ cs) h)

split_words_one : (s : List ℕ) → IsSolid s → split_words s ≡ (s, [])
unfolding split_words
split_words_one [] h = refl
split_words_one (c ∷ cs) h = rw (is_whitespace-solid c h.0, split_words_one cs h.1)

split_words_two : (s t : List ℕ) → IsSolid s → split_words (s ++ (32 ∷ t)) ≡ (s, split_whitespace t)
unfolding split_whitespace split_words is_whitespace
split_words_two [] t h = refl
split_words_two (c ∷ cs) t h = rw (is_whitespace-solid c h.0, split_words_two cs t h.1)

add_word-ne-nil : (s : List ℕ) (words : List (List ℕ)) → 0 < length s → add_word s words ≡ s ∷ words
add_word-ne-nil [] words h = absurd (omega arith)
add_word-ne-nil (c ∷ cs) words h = refl

pub split_whitespace-one : (s : List ℕ) → IsSolid s → 0 < length s → split_whitespace s ≡ s ∷ []
unfolding split_whitespace
split_whitespace-one s h l = rw (split_words_one s h) (add_word-ne-nil s [] l)

pub split_whitespace-two :
    (s t : List ℕ)
    → IsSolid s
    → IsSolid t
    → 0 < length s
    → 0 < length t
    → split_whitespace (s ++ (32 ∷ t)) ≡ s ∷ t ∷ []
unfolding split_whitespace
split_whitespace-two s t hs ht ls lt = rw (split_words_two s t hs) (
    add_word-ne-nil s (split_whitespace t) ls
    ∙ ap (λ (w : List (List ℕ)). s ∷ w) (split_whitespace-one t ht lt))
