-- ===== src/Auth/Laws/Emails.antt =====
-- The address that the loop over GitHub's entries picks.
use prompt_manager.Base.{
  ◌≡◌, refl, ap, ◌∙◌, Bool, true, false, not, ◌&&◌, Bool-cases, inl, inr, Option, none, some, List,
  [], ◌∷◌, first, if◌then◌else◌,
}
use prompt_manager.Text.{Text, is_empty, trim_space}
use prompt_manager.Domain.{oauth_email_missing, Result, ok, err}
use prompt_manager.Auth.Library.{EmailEntry}
use prompt_manager.Auth.GitHub.{candidate_or, counts, pick_email}

abbrev pub is_main : EmailEntry → Bool
is_main entry = counts entry && entry.primary

-- the address of an entry, or what there is else
abbrev pub address_or : Option EmailEntry → Result Text → Result Text
address_or none rest = rest
address_or (some entry) rest = ok (trim_space entry.email)

abbrev candidate_result : Text → Result Text → Result Text
candidate_result candidate rest = if is_empty candidate then rest else ok candidate

kept :
    (candidate email : Text) (rest : Result Text)
    → is_empty email ≡ false
    → candidate_result (candidate_or candidate email) rest ≡ candidate_result candidate (ok email)
kept [] email rest filled = rw filled refl
kept (c ∷ s) email rest filled = refl

counted_filled :
    (entry : EmailEntry) → counts entry ≡ true → is_empty (trim_space entry.email) ≡ false
counted_filled entry h = elim (Bool-cases (is_empty (trim_space entry.email))) [
  | inr filled ↦ filled
  | inl blank ↦ absurd (uncounted entry.verified _ blank h)
]
  where
    uncounted : (v b : Bool) → b ≡ true → (v && not b) ≡ true → ⊥
    uncounted true true e h = cc h
    uncounted true false e h = cc e
    uncounted false b e h = cc h

pick_email_from :
    (candidate : Text) (entries : List EmailEntry)
    → pick_email candidate entries
      ≡ address_or
          (first is_main entries)
          (candidate_result candidate (address_or (first counts entries) (err oauth_email_missing)))
unfolding pick_email
pick_email_from candidate [] = refl
pick_email_from candidate (entry ∷ entries) = elim (Bool-cases (counts entry)) [
  | inr skipped ↦ rw skipped (pick_email_from candidate entries)
  | inl counted ↦ elim (Bool-cases entry.primary) [
    | inl main ↦ rw (counted, main) refl
    | inr other ↦
        rw (counted, other)
          (pick_email_from (candidate_or candidate (trim_space entry.email)) entries
            ∙ ap (address_or (first is_main entries))
                (kept candidate (trim_space entry.email) _ (counted_filled entry counted)))
  ]
]

-- The first entry that is verified and primary decides, and else the first that is verified; an
-- entry without an address does not count.
pub pick_email_lem :
    (entries : List EmailEntry)
    → pick_email [] entries
      ≡ address_or
          (first is_main entries)
          (address_or (first counts entries) (err oauth_email_missing))
pick_email_lem entries = pick_email_from [] entries
