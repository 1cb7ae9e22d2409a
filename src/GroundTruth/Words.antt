-- ===== src/GroundTruth/Words.antt =====
-- src/voiceobs/groundtruth/text.py: the word error rate. A word is the list of its characters' code
-- points. Of the characters outside ASCII only U+0130 and U+212A have an ASCII letter in their lower
-- case ("i" and a combining dot, "k"); the others end a word, before and after `lower()`.
pub mod Edits
use Prim.Native.Char.{Char, code}
use Prim.Native.String.{String}
use actioneer_pulse.Common.{
  Bool, true, false, List, [], ◌∷◌, ◌++◌, ◌&&◌, ◌||◌, if◌then◌else◌, leb, ◌==◌, ℕ, suc, ◌+◌, min,
  length, nonempty,
}

abbrev pub Word : Type 0
Word = List ℕ

abbrev pub word_eq : Word → Word → Bool
word_eq [] [] = true
word_eq [] (b ∷ ys) = false
word_eq (a ∷ xs) [] = false
word_eq (a ∷ xs) (b ∷ ys) = a == b && word_eq xs ys

-- `ch.lower()`
abbrev lower : ℕ → List ℕ
lower n =
    if leb 65 n && leb n 90
    then (n + 32) ∷ []
    else if n == 8490
    then 107 ∷ []
    else if n == 304
    then 105 ∷ 775 ∷ []
    else n ∷ []

unfoldable pub lower_text : String → List ℕ
lower_text String.[] = []
lower_text (String.◌∷◌ ch s) = lower (code ch) ++ lower_text s

-- `[a-z0-9]`
abbrev pub is_word : ℕ → Bool
is_word n = (leb 97 n && leb n 122) || (leb 48 n && leb n 57)

-- The word that begins here, and the words after it.
unfoldable pub scan_words : List ℕ → Word × List Word
scan_words [] = ([], [])
scan_words (n ∷ ns) =
    let (word, words) = scan_words ns in
    if is_word n then (n ∷ word, words) else ([], if nonempty word then word ∷ words else words)

-- `_WORD.findall((text or "").lower())`
unfoldable pub normalize : String → List Word
unfolding lower_text scan_words
normalize text =
    let (word, words) = scan_words (lower_text text) in
    if nonempty word then word ∷ words else words

module _ {A : Type 0} (eq : A → A → Bool) where
  -- `0 if r == h else 1`
  unfoldable pub cost : A → A → ℕ
  cost r h = if eq r h then 0 else 1

  -- The cells of a row from column j on: `diag` is prev[j - 1], `left` is cur[j - 1], and the last
  -- argument is prev from j on.
  unfoldable pub fill_row : A → List A → ℕ → ℕ → List ℕ → List ℕ
  unfolding cost
  fill_row r [] diag left ups = []
  fill_row r (h ∷ hyp) diag left [] = []
  fill_row r (h ∷ hyp) diag left (up ∷ ups) =
      let cell = min (min (up + 1) (left + 1)) (diag + cost r h) in
      cell ∷ fill_row r hyp up cell ups

  -- `cur = [i]` and the inner loop.
  unfoldable pub next_row : ℕ → A → List A → List ℕ → List ℕ
  next_row i r hyp [] = i ∷ []
  next_row i r hyp (diag ∷ ups) = i ∷ fill_row r hyp diag i ups

  -- The loop over the reference.
  unfoldable pub rows_from : ℕ → List A → List A → List ℕ → List ℕ
  rows_from i [] hyp prev = prev
  rows_from i (r ∷ ref) hyp prev = rows_from (suc i) ref hyp (next_row i r hyp prev)

-- `list(range(i, i + n + 1))` for n further items.
unfoldable pub range_from : {A : Type 0} → ℕ → List A → List ℕ
range_from i [] = i ∷ []
range_from i (x ∷ xs) = i ∷ range_from (suc i) xs

-- `row[-1]`; a row is never empty.
unfoldable pub last : List ℕ → ℕ
last [] = 0
last (d ∷ []) = d
last (d ∷ e ∷ row) = last (e ∷ row)

-- `prev[-1]` after the loops.
unfoldable pub distance : {A : Type 0} → (A → A → Bool) → List A → List A → ℕ
unfolding rows_from range_from last
distance eq ref hyp = last (rows_from eq 1 ref hyp (range_from 0 hyp))

-- A rate is a fraction of words.
pub record Rate : Type 0 where
  pub errors : ℕ
  pub words : ℕ

unfoldable pub wer : String → String → Rate
unfolding normalize distance
wer reference hypothesis =
    let ref = normalize reference in
    let hyp = normalize hypothesis in
    if nonempty ref
    then record { errors = distance word_eq ref hyp; words = length ref }
    else record { errors = if nonempty hyp then 1 else 0; words = 1 }
