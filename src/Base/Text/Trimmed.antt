-- ===== src/Base/Text/Trimmed.antt =====
-- Texts that `trim` leaves as they are, and texts that are the same.
use hostrepository.Base.{
  ℕ, ◌≡◌, refl, ap, ◌∙◌, and_left, and_right, not-true, Bool, true, false, not, [], ◌∷◌, ◌++◌, all,
  arith,
}
use hostrepository.Base.Text.{Text, is_space, trim, trim_start, trim_end, same_text}

abbrev pub is_solid : ℕ → Bool
is_solid c = not (is_space c)

abbrev pub is_solid_text : Text → Bool
is_solid_text = all is_solid

module _ (c : ℕ) (s : Text) (h : is_solid_text (c ∷ s) ≡ true) where
  pub solid_first : is_space c ≡ false
  solid_first = not-true (is_space c) (and_left (is_solid c) (is_solid_text s) h)

  pub solid_rest : is_solid_text s ≡ true
  solid_rest = and_right (is_solid c) (is_solid_text s) h

pub trim_end_solid : (s : Text) → is_solid_text s ≡ true → trim_end s ≡ s
trim_end_solid [] h = refl
trim_end_solid (c ∷ s) h = rw (solid_first c s h, trim_end_solid s (solid_rest c s h)) refl

pub trim_solid : (s : Text) → is_solid_text s ≡ true → trim s ≡ s
trim_solid [] h = refl
trim_solid (c ∷ s) h = ap trim_start (trim_end_solid (c ∷ s) h) ∙ rw (solid_first c s h) refl

pub same_text_eq : (s t : Text) → same_text s t ≡ true → s ≡ t
same_text_eq [] [] h = refl
same_text_eq (c ∷ s) (d ∷ t) h = ground (arith, same_text_eq s t)
same_text_eq [] (d ∷ t) h = cc
same_text_eq (c ∷ s) [] h = cc

pub same_text_refl : (s : Text) → same_text s s ≡ true
same_text_refl [] = refl
same_text_refl (c ∷ s) = ground (arith, same_text_refl s)

pub same_text-append : (p s t : Text) → same_text (p ++ s) (p ++ t) ≡ same_text s t
same_text-append [] s t = refl
same_text-append (c ∷ p) s t = ground (arith, same_text-append p s t)

pub same_text_sym : (s t : Text) → same_text s t ≡ same_text t s
same_text_sym [] [] = refl
same_text_sym [] (d ∷ t) = refl
same_text_sym (c ∷ s) [] = refl
same_text_sym (c ∷ s) (d ∷ t) = ground (arith, same_text_sym s t)
