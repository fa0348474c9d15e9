-- ===== src/Calendar/Lines/Folded.antt =====
-- Lines that are folded and written come back from unfoldLines.
use hostrepository.Base.{
  ℕ, zero, suc, ◌≤◌, ◌≡◌, refl, ap, ◌∙◌, ◌-◌, Bool, true, false, not, ◌&&◌, Bool-cases, all-append,
  and_true, leb-true, inl, inr, List, [], ◌∷◌, ◌++◌, ◌==◌, leb, length, take, all, arith,
}
use mathlib.Core.List.{append_assoc, append-nil}
use hostrepository.Base.Text.{Text, drop}
use hostrepository.Calendar.Lines.{
  replace_crlf, replace_cr, add_to_first, split_lines, is_continuation, gather, gather_lines,
  unfold_lines, fold_rest, fold_line, fold_all, join_lines, write_lines,
}

-- No line terminator of the format.
abbrev pub is_inline : ℕ → Bool
is_inline c = not (c == 10) && not (c == 13)

-- One line of text, which no reader takes for the continuation of the line above it.
abbrev pub is_line : Text → Bool
is_line s = all is_inline s && not (is_continuation s)

abbrev pub are_lines : List Text → Bool
are_lines = all is_line

-- What reading does to a code unit that ends no line.
read_code :
    (c : ℕ) (s : Text)
    → is_inline c ≡ true
    → split_lines (replace_cr (replace_crlf (c ∷ s)))
      ≡ add_to_first c (split_lines (replace_cr (replace_crlf s)))
unfolding split_lines replace_cr replace_crlf
read_code c s h =
    let kept : (c == 13) ≡ false = ground arith in
    let inside : (c == 10) ≡ false = ground arith in rw (kept) (rw (kept) (rw (inside) refl))

-- One written line, read back: it is the next line, and what follows is read on its own.
read_line :
    (line rest : Text)
    → all is_inline line ≡ true
    → split_lines (replace_cr (replace_crlf (line ++ (13 ∷ 10 ∷ rest))))
      ≡ line ∷ split_lines (replace_cr (replace_crlf rest))
read_line [] rest h = unfold split_lines replace_cr replace_crlf in refl
read_line (c ∷ line) rest h =
    rw (read_code c (line ++ (13 ∷ 10 ∷ rest)) (ground arith), read_line line rest (ground arith))
      refl

read_lines :
    (lines : List Text)
    → all (all is_inline) lines ≡ true
    → split_lines (replace_cr (replace_crlf (join_lines lines))) ≡ lines ++ ([] ∷ [])
unfolding join_lines
read_lines [] h = unfold split_lines replace_cr replace_crlf in refl
read_lines (line ∷ lines) h =
    rw (read_line line (join_lines lines) (ground arith), read_lines lines (ground arith)) refl

take-append-drop : (n : ℕ) (s : Text) → take n s ++ drop n s ≡ s
take-append-drop zero s = refl
take-append-drop (suc n) [] = refl
take-append-drop (suc n) (c ∷ s) = ap (λ t. c ∷ t) (take-append-drop n s)

length-drop : (n : ℕ) (s : Text) → length (drop n s) ≡ length s - n
length-drop zero s = omega arith
length-drop (suc n) [] = omega arith
length-drop (suc n) (c ∷ s) = let ih = length-drop n s in omega arith

length-take : (n : ℕ) (s : Text) → length (take n s) ≤ n
length-take zero s = omega arith
length-take (suc n) [] = omega arith
length-take (suc n) (c ∷ s) = let ih = length-take n s in omega arith

-- The folded chunks are taken for continuations, and put the text together again.
gather-fold_rest :
    (n : ℕ) (last s : Text) (rest : List Text)
    → length s ≤ n
    → gather last (fold_rest n s ++ rest) ≡ gather (last ++ s) rest
unfolding gather fold_rest
gather-fold_rest zero last [] rest h = rw (append-nil last) refl
gather-fold_rest zero last (c ∷ s) rest h = absurd (omega arith)
gather-fold_rest (suc n) last [] rest h = rw (append-nil last) refl
gather-fold_rest (suc n) last (c ∷ s) rest h =
    let small : length (drop 72 (c ∷ s)) ≤ n = omega (arith, length-drop 72 (c ∷ s)) in
    let ih = gather-fold_rest n (last ++ take 72 (c ∷ s)) (drop 72 (c ∷ s)) rest small in
    ih
    ∙ ap (λ (t : Text). gather t rest)
        (append_assoc last (take 72 (c ∷ s)) (drop 72 (c ∷ s))
          ∙ ap (λ (t : Text). last ++ t) (take-append-drop 72 (c ∷ s)))

gather_new :
    (last line : Text) (rest : List Text)
    → is_continuation line ≡ false
    → gather last (line ∷ rest) ≡ last ∷ gather line rest
unfolding gather
gather_new last line rest h = rw (h, gather) refl

take_continuation : (n : ℕ) (s : Text) → is_continuation (take (suc n) s) ≡ is_continuation s
take_continuation n [] = refl
take_continuation n (c ∷ s) = refl

gather-fold_line :
    (last line : Text) (rest : List Text)
    → is_continuation line ≡ false
    → gather last (fold_line line ++ rest) ≡ last ∷ gather line rest
unfolding fold_line
gather-fold_line last line rest h = elim (Bool-cases (leb (length line) 73)) [
  | inl e ↦ rw e (gather_new last line rest h)
  | inr e ↦ rw e (
      gather_new last (take 73 line) (fold_rest (length line) (drop 73 line) ++ rest)
        (take_continuation 72 line ∙ h)
      ∙ ap (λ (ls : List Text). last ∷ ls)
          (gather-fold_rest (length line) (take 73 line) (drop 73 line) rest
              (omega (arith, length-drop 73 line))
            ∙ ap (λ (t : Text). gather t rest) (take-append-drop 73 line)))
]

gather-fold_all :
    (last : Text) (lines : List Text)
    → are_lines lines ≡ true
    → gather last (fold_all lines ++ ([] ∷ [])) ≡ last ∷ (lines ++ ([] ∷ []))
unfolding fold_all
gather-fold_all last [] h = unfold gather in refl
gather-fold_all last (line ∷ lines) h =
    ap (gather last) (append_assoc (fold_line line) (fold_all lines) ([] ∷ []))
    ∙ gather-fold_line last line (fold_all lines ++ ([] ∷ [])) (ground arith)
    ∙ ap (λ (ls : List Text). last ∷ ls) (gather-fold_all line lines (ground arith))

inline-take : (n : ℕ) (s : Text) → all is_inline s ≡ true → all is_inline (take n s) ≡ true
inline-take zero s h = refl
inline-take (suc n) [] h = refl
inline-take (suc n) (c ∷ s) h = ground (arith, inline-take n s)

inline-drop : (n : ℕ) (s : Text) → all is_inline s ≡ true → all is_inline (drop n s) ≡ true
inline-drop zero s h = h
inline-drop (suc n) [] h = refl
inline-drop (suc n) (c ∷ s) h = inline-drop n s (ground arith)

-- A physical line, as it is written.
abbrev pub is_short : Text → Bool
is_short s = all is_inline s && leb (length s) 73

short-fold_rest : (n : ℕ) (s : Text) → all is_inline s ≡ true → all is_short (fold_rest n s) ≡ true
unfolding fold_rest
short-fold_rest zero s h = refl
short-fold_rest (suc n) [] h = refl
short-fold_rest (suc n) (c ∷ s) h =
    let rest = short-fold_rest n (drop 72 (c ∷ s)) (inline-drop 72 (c ∷ s) h) in
    let whole = inline-take 72 (c ∷ s) h in let size = length-take 72 (c ∷ s) in ground arith

short-fold_line : (line : Text) → all is_inline line ≡ true → all is_short (fold_line line) ≡ true
unfolding fold_line
short-fold_line line h = elim (Bool-cases (leb (length line) 73)) [
  | inl e ↦ rw e (ground arith)
  | inr e ↦
      let size = leb-true (length (take 73 line)) 73 (length-take 73 line) in
      rw e (
        and_true (and_true (inline-take 73 line h) size)
          (short-fold_rest (length line) (drop 73 line) (inline-drop 73 line h)))
]

short-fold_all : (lines : List Text) → are_lines lines ≡ true → all is_short (fold_all lines) ≡ true
unfolding fold_all
short-fold_all [] h = refl
short-fold_all (line ∷ lines) h =
    all-append is_short (fold_line line) (fold_all lines) (short-fold_line line (ground arith))
      (short-fold_all lines (ground arith))

short_inline : (lines : List Text) → all is_short lines ≡ true → all (all is_inline) lines ≡ true
short_inline [] h = refl
short_inline (line ∷ lines) h = ground (arith, short_inline lines)

-- The first line is pushed whatever it begins with; one that begins no continuation is pushed anyway.
gather_first :
    (last line : Text) (lines : List Text)
    → are_lines (line ∷ lines) ≡ true
    → gather last (fold_all (line ∷ lines) ++ ([] ∷ []))
      ≡ last ∷ gather_lines (fold_all (line ∷ lines) ++ ([] ∷ []))
unfolding fold_all fold_line
gather_first last line lines h = elim (Bool-cases (leb (length line) 73)) [
  | inl e ↦ rw e (gather_new last line (fold_all lines ++ ([] ∷ [])) (ground arith))
  | inr e ↦ rw e (
      gather_new last (take 73 line)
        (fold_rest (length line) (drop 73 line) ++ fold_all lines ++ ([] ∷ []))
        (take_continuation 72 line ∙ ground arith))
]

gathered :
    (lines : List Text)
    → are_lines lines ≡ true
    → gather_lines (fold_all lines ++ ([] ∷ [])) ≡ lines ++ ([] ∷ [])
gathered [] h = unfold fold_all gather in refl
gathered (line ∷ lines) h =
    let first = gather_first [] line lines h in
    let whole = gather-fold_all [] (line ∷ lines) h in cc

-- Lines without a line terminator that do not begin like a continuation: folded, every written line
-- has at most 73 code units and no line terminator, and the file that `join` makes of them reads back
-- as the same lines, with the empty one after the last terminator.
pub unfold-write_lines :
    (lines : List Text)
    → are_lines lines ≡ true
    → (all is_short (fold_all lines) ≡ true)
      × (unfold_lines (write_lines lines) ≡ lines ++ ([] ∷ []))
unfold-write_lines lines h =
    let short = short-fold_all lines h in
    (
      short,
      unfold unfold_lines in
          ap gather_lines (read_lines (fold_all lines) (short_inline (fold_all lines) short))
          ∙ gathered lines h,
    )
