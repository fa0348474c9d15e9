-- ===== src/Calendar/Export/Escaped.antt =====
-- escapeIcalText leaves no line terminator, where there was no carriage return.
use hostrepository.Base.{
  ℕ, ◌≡◌, refl, and_true, not-true, all_first, all_rest, Bool, true, not, Bool-cases, inl, inr, [],
  ◌∷◌, ◌==◌, all,
}
use hostrepository.Base.Text.{Text}
use hostrepository.Calendar.Export.{escape_ical_text, escape_code, escape_newlines}
use hostrepository.Calendar.Lines.Folded.{is_inline}

-- A code unit that is no carriage return.
abbrev pub no_return : ℕ → Bool
no_return c = not (c == 13)

-- What holds of the text and of a backslash holds of the escaped text.
escape_code-all :
    (p : ℕ → Bool) (code : ℕ) (s : Text)
    → p 92 ≡ true
    → all p s ≡ true
    → all p (escape_code code s) ≡ true
unfolding escape_code
escape_code-all p code [] k h = refl
escape_code-all p code (c ∷ s) k h =
    let rest = escape_code-all p code s k (all_rest p c s h) in
    let here = all_first p c s h in
    elim (Bool-cases (c == code)) [
      | inl e ↦ rw e (and_true k (and_true here rest))
      | inr e ↦ rw e (and_true here rest)
    ]

escape_newlines-is_inline :
    (s : Text) → all no_return s ≡ true → all is_inline (escape_newlines s) ≡ true
unfolding escape_newlines
escape_newlines-is_inline [] h = refl
escape_newlines-is_inline (c ∷ s) h =
    let rest = escape_newlines-is_inline s (all_rest no_return c s h) in
    let here = not-true (c == 13) (all_first no_return c s h) in
    elim (Bool-cases (c == 10)) [ inl e ↦ rw e rest | inr e ↦ rw e (rw here (rw e (rw here rest))) ]

pub escape_ical_text-is_inline :
    (s : Text) → all no_return s ≡ true → all is_inline (escape_ical_text s) ≡ true
unfolding escape_ical_text
escape_ical_text-is_inline s h =
    escape_code-all is_inline 59 (escape_code 44 (escape_newlines (escape_code 92 s))) refl (
      escape_code-all is_inline 44 (escape_newlines (escape_code 92 s)) refl
        (escape_newlines-is_inline (escape_code 92 s) (escape_code-all no_return 92 s refl h)))
