-- ===== src/Text/Laws.antt =====
-- Laws of trimming and of the comparison of texts.
use prompt_manager.Base.{
  ◌≡◌, refl, subst, ◌↔◌, inl, inr, true, false, Option, none, some, [], ◌∷◌, arith, Bool-cases,
}
use prompt_manager.Text.Defs.{
  Text, same, is_empty, is_space, trim_left, trim_right, trim_space, optional_string,
}

same_sound : (s t : Text) → same s t ≡ true → s ≡ t
unfolding same
same_sound [] [] h = refl
same_sound [] (b ∷ t) h = cc
same_sound (a ∷ s) [] h = cc
same_sound (a ∷ s) (b ∷ t) h = ground (arith, same_sound s t)

same_refl : (s : Text) → same s s ≡ true
unfolding same
same_refl [] = refl
same_refl (a ∷ s) = ground (arith, same_refl s)

pub same_iff : (s t : Text) → (same s t ≡ true) ↔ (s ≡ t)
same_iff s t = (same_sound s t, λ e. subst (λ u. same s u ≡ true) e (same_refl s))

-- A text that begins with no white space.
abbrev StartsFull : Text → Type 0
StartsFull [] = Unit
StartsFull (c ∷ s) = is_space c ≡ false

trim_left-StartsFull : (s : Text) → StartsFull (trim_left s)
unfolding trim_left
trim_left-StartsFull [] = tt
trim_left-StartsFull (c ∷ s) = ground (arith, trim_left-StartsFull s)

trim_left_of_StartsFull : (s : Text) → StartsFull s → trim_left s ≡ s
unfolding trim_left
trim_left_of_StartsFull [] h = refl
trim_left_of_StartsFull (c ∷ s) h = rw h

trim_right-StartsFull : (s : Text) → StartsFull s → StartsFull (trim_right s)
unfolding trim_right
trim_right-StartsFull [] h = tt
trim_right-StartsFull (c ∷ s) h = ground arith

trim_right_idem : (s : Text) → trim_right (trim_right s) ≡ trim_right s
unfolding trim_right
trim_right_idem [] = refl
trim_right_idem (c ∷ s) = ground (arith, trim_right_idem s)

-- Trimming a second time changes nothing.
pub trim_space_idem : (s : Text) → trim_space (trim_space s) ≡ trim_space s
unfolding trim_space
trim_space_idem s =
    rw
      (trim_left_of_StartsFull (trim_right (trim_left s))
        (trim_right-StartsFull (trim_left s) (trim_left-StartsFull s)))
      (trim_right_idem (trim_left s))

-- A text that is stored as a name or a body: trimmed, and not blank.
pub record IsClean (s : Text) : Type 0 where
  pub trimmed : trim_space s ≡ s
  pub filled : is_empty s ≡ false

pub trim_space-IsClean : (s : Text) → is_empty (trim_space s) ≡ false → IsClean (trim_space s)
trim_space-IsClean s h = record { trimmed = trim_space_idem s; filled = h }

abbrev pub OptionIsClean : Option Text → Type 0
OptionIsClean none = Unit
OptionIsClean (some s) = IsClean s

pub optional_string-IsClean : (s : Text) → OptionIsClean (optional_string s)
unfolding optional_string
optional_string-IsClean s = elim (Bool-cases (is_empty (trim_space s))) [
  | inl blank ↦ rw blank tt
  | inr filled ↦ rw filled (trim_space-IsClean s filled)
]
