-- ===== src/Calendar/Lines.antt =====
-- The lines of a calendar file: unfoldLines of lib/calendar/ical.ts and foldLine of
-- lib/calendar/calendarExport.ts, with the `join` that writes the folded lines out.
pub mod Folded
use hostrepository.Base.{
  ℕ, zero, suc, Bool, true, false, ◌&&◌, ◌||◌, List, [], ◌∷◌, ◌++◌, map, ◌==◌, leb, length, take,
  if◌then◌else◌,
}
use hostrepository.Base.Text.{Text, drop, is_empty}

abbrev pub starts_with_code : ℕ → Text → Bool
starts_with_code c [] = false
starts_with_code c (d ∷ s) = d == c

-- `.replace(/\r\n/g, "\n")`
unfoldable pub replace_crlf : Text → Text
replace_crlf [] = []
replace_crlf (c ∷ s) =
    let rest = replace_crlf s in if c == 13 && starts_with_code 10 s then rest else c ∷ rest

-- `.replace(/\r/g, "\n")`
unfoldable pub replace_cr : Text → Text
replace_cr = map (λ c. if c == 13 then 10 else c)

abbrev pub add_to_first : ℕ → List Text → List Text
add_to_first c [] = (c ∷ []) ∷ []
add_to_first c (line ∷ lines) = (c ∷ line) ∷ lines

-- `.split("\n")`
unfoldable pub split_lines : Text → List Text
split_lines [] = [] ∷ []
split_lines (c ∷ s) =
    let lines = split_lines s in if c == 10 then [] ∷ lines else add_to_first c lines

abbrev pub is_continuation : Text → Bool
is_continuation line = starts_with_code 32 line || starts_with_code 9 line

-- The loop, from the line that was pushed last.
unfoldable pub gather : Text → List Text → List Text
gather last [] = last ∷ []
gather last (line ∷ lines) = elim (is_continuation line) [
  | true ↦ gather (last ++ drop 1 line) lines
  | false ↦ last ∷ gather line lines
]

abbrev pub gather_lines : List Text → List Text
gather_lines [] = []
gather_lines (line ∷ lines) = gather line lines

unfoldable pub unfold_lines : Text → List Text
unfold_lines source = gather_lines (split_lines (replace_cr (replace_crlf source)))

-- The rounds of the loop after the first; each takes at least one code unit, so that the length of
-- what remains is enough fuel.
unfoldable pub fold_rest : ℕ → Text → List Text
fold_rest zero remaining = []
fold_rest (suc n) [] = []
fold_rest (suc n) (c ∷ s) = (32 ∷ take 72 (c ∷ s)) ∷ fold_rest n (drop 72 (c ∷ s))

unfoldable pub fold_line : Text → List Text
fold_line line =
    if leb (length line) 73
    then line ∷ []
    else take 73 line ∷ fold_rest (length line) (drop 73 line)

unfoldable pub fold_all : List Text → List Text
fold_all [] = []
fold_all (line ∷ lines) = fold_line line ++ fold_all lines

-- `.join("\r\n") + "\r\n"`, of at least one line.
unfoldable pub join_lines : List Text → Text
join_lines [] = []
join_lines (line ∷ lines) = line ++ (13 ∷ 10 ∷ join_lines lines)

abbrev pub write_lines : List Text → Text
write_lines lines = join_lines (fold_all lines)
