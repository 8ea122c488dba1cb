-- ===== src/Prompt/Diff/Order.antt =====
-- Lists of changes that are sorted by key, and the order of keys.
use prompt_manager.Base.{
  ◌≡◌, refl, sym, ap, ◌∙◌, subst, true, false, Bool-cases, inl, inr, Option, none, some, List, [],
  ◌∷◌, arith, All, first, if◌then◌else◌,
}
use prompt_manager.Text.{Text, same}
use prompt_manager.Text.Laws.{same_iff}
use prompt_manager.Prompt.Diff.Fields.{JsonFieldChange, before, insert_change}

pub before_asym : (s t : Text) → before s t ≡ true → before t s ≡ false
unfolding before
before_asym [] (d ∷ t) h = refl
before_asym [] [] h = absurd (cc h)
before_asym (c ∷ s) [] h = absurd (cc h)
before_asym (c ∷ s) (d ∷ t) h = ground (arith, before_asym s t)

pub before_trans : (s t u : Text) → before s t ≡ true → before t u ≡ true → before s u ≡ true
unfolding before
before_trans [] [] u h k = absurd (cc h)
before_trans [] (d ∷ t) [] h k = absurd (cc k)
before_trans [] (d ∷ t) (e ∷ u) h k = refl
before_trans (c ∷ s) [] u h k = absurd (cc h)
before_trans (c ∷ s) (d ∷ t) [] h k = absurd (cc k)
before_trans (c ∷ s) (d ∷ t) (e ∷ u) h k = ground (arith, before_trans s t u)

pub before_total : (s t : Text) → before s t ≡ false → before t s ≡ false → same s t ≡ true
unfolding before same
before_total [] [] h k = refl
before_total [] (d ∷ t) h k = absurd (cc h)
before_total (c ∷ s) [] h k = absurd (cc k)
before_total (c ∷ s) (d ∷ t) h k = ground (arith, before_total s t)

pub before_irrefl : (s : Text) → before s s ≡ false
unfolding before
before_irrefl [] = refl
before_irrefl (c ∷ s) = ground (arith, before_irrefl s)

-- the change of a key in a list
abbrev pub reported : Text → List JsonFieldChange → Option JsonFieldChange
reported key cs = first (λ c. same c.key key) cs

-- strictly sorted, so that no key comes twice
abbrev pub IsSorted : List JsonFieldChange → Type 0
IsSorted [] = Unit
IsSorted (c ∷ cs) = All (λ (d : JsonFieldChange). before c.key d.key ≡ true) cs × IsSorted cs

All-after :
    (s t : Text) (cs : List JsonFieldChange)
    → before s t ≡ true
    → All (λ (d : JsonFieldChange). before t d.key ≡ true) cs
    → All (λ (d : JsonFieldChange). before s d.key ≡ true) cs
All-after s t [] h a = tt
All-after s t (c ∷ cs) h (e, a) = (before_trans s t c.key h e, All-after s t cs h a)

after-insert_change :
    (s : Text) (c : JsonFieldChange) (cs : List JsonFieldChange)
    → before s c.key ≡ true
    → All (λ (d : JsonFieldChange). before s d.key ≡ true) cs
    → All (λ (d : JsonFieldChange). before s d.key ≡ true) (insert_change c cs)
unfolding insert_change
after-insert_change s c [] h a = (h, tt)
after-insert_change s c (d ∷ ds) h (e, a) = elim (Bool-cases (before d.key c.key)) [
  | inl earlier ↦ rw earlier (e, after-insert_change s c ds h a)
  | inr later ↦ rw later (h, (e, a))
]

reported-none :
    (key : Text) (d : JsonFieldChange) (ds : List JsonFieldChange)
    → reported key (d ∷ ds) ≡ none
    → (same d.key key ≡ false) × (reported key ds ≡ none)
reported-none key d ds h = elim (Bool-cases (same d.key key)) [
  | inl e ↦ absurd (ground arith)
  | inr e ↦ (e, ground arith)
]

before_of_later : (s t : Text) → before t s ≡ false → same t s ≡ false → before s t ≡ true
before_of_later s t later other = elim (Bool-cases (before s t)) [
  | inl e ↦ e
  | inr e ↦ absurd (cc (before_total t s later e, other))
]

pub insert_change-IsSorted :
    (c : JsonFieldChange) (cs : List JsonFieldChange)
    → reported c.key cs ≡ none
    → IsSorted cs
    → IsSorted (insert_change c cs)
unfolding insert_change
insert_change-IsSorted c [] absent sorted = (tt, tt)
insert_change-IsSorted c (d ∷ ds) absent (after, sorted) = elim (Bool-cases (before d.key c.key)) [
  | inl earlier ↦ rw earlier (
      let (other, rest) = reported-none c.key d ds absent in
      (after-insert_change d.key c ds earlier after, insert_change-IsSorted c ds rest sorted))
  | inr later ↦ rw later (
      let (other, rest) = reported-none c.key d ds absent in
      let first_now = before_of_later c.key d.key later other in
      ((first_now, All-after c.key d.key ds first_now after), (after, sorted)))
]

same_both : (s t key : Text) → same s key ≡ true → same t key ≡ true → same s t ≡ true
same_both s t key h k = (same_iff s t).1 ((same_iff s key).0 h ∙ sym ((same_iff t key).0 k))

-- A change that is put in is the one of its key, and the others stay.
pub reported-insert_change :
    (key : Text) (c : JsonFieldChange) (cs : List JsonFieldChange)
    → reported c.key cs ≡ none
    → reported key (insert_change c cs) ≡ (if same c.key key then some c else reported key cs)
unfolding insert_change
reported-insert_change key c [] absent = refl
reported-insert_change key c (d ∷ ds) absent = elim (Bool-cases (before d.key c.key)) [
  | inr later ↦ rw later refl
  | inl earlier ↦
      let (other, rest) = reported-none c.key d ds absent in
      rw earlier
        (ground (arith, reported-insert_change key c ds rest, same_both d.key c.key key, other))
]

-- What comes after a key does not have it.
pub reported-after :
    (s : Text) (cs : List JsonFieldChange)
    → All (λ (d : JsonFieldChange). before s d.key ≡ true) cs
    → reported s cs ≡ none
reported-after s [] a = refl
reported-after s (d ∷ ds) (e, a) = elim (Bool-cases (same d.key s)) [
  | inl h ↦ absurd (cc (before_irrefl s, subst (λ t. before s t ≡ true) ((same_iff d.key s).0 h) e))
  | inr h ↦ rw h (reported-after s ds a)
]

reported_head : (c : JsonFieldChange) (cs : List JsonFieldChange) → reported c.key (c ∷ cs) ≡ some c
reported_head c cs = rw ((same_iff c.key c.key).1 refl) refl

reported_hit :
    (key : Text) (d : JsonFieldChange) (ds : List JsonFieldChange)
    → same d.key key ≡ true
    → reported key (d ∷ ds) ≡ some d
reported_hit key d ds h = rw h refl

tails :
    (key : Text) (c d : JsonFieldChange) (cs ds : List JsonFieldChange)
    → c ≡ d
    → All (λ (x : JsonFieldChange). before c.key x.key ≡ true) cs
    → All (λ (x : JsonFieldChange). before d.key x.key ≡ true) ds
    → reported key (c ∷ cs) ≡ reported key (d ∷ ds)
    → reported key cs ≡ reported key ds
tails key c d cs ds e a b h = elim (Bool-cases (same c.key key)) [
  | inl hit ↦
      let at = (same_iff c.key key).0 hit in
      subst (λ t. reported t cs ≡ reported t ds) at
        (reported-after c.key cs a
          ∙ sym (
              subst (λ (x : JsonFieldChange). reported x.key ds ≡ none) (sym e)
                (reported-after d.key ds b)))
  | inr missed ↦
      let missed_too = subst (λ (x : JsonFieldChange). same x.key key ≡ false) e missed in
      ground arith
]

-- Two sorted lists that report the same changes are the same.
pub IsSorted-unique :
    (cs ds : List JsonFieldChange)
    → IsSorted cs
    → IsSorted ds
    → ((key : Text) → reported key cs ≡ reported key ds)
    → cs ≡ ds
IsSorted-unique [] [] s t h = refl
IsSorted-unique [] (d ∷ ds) s t h = absurd (cc (h d.key, reported_head d ds))
IsSorted-unique (c ∷ cs) [] s t h = absurd (cc (h c.key, reported_head c cs))
IsSorted-unique (c ∷ cs) (d ∷ ds) (a, s) (b, t) h = elim (Bool-cases (before c.key d.key)) [
  | inl e ↦ absurd (
      cc (
        h c.key,
        reported_head c cs,
        reported-after c.key (d ∷ ds) (e, All-after c.key d.key ds e b),
      ))
  | inr e ↦ elim (Bool-cases (before d.key c.key)) [
    | inl k ↦ absurd (
        cc (
          h d.key,
          reported_head d ds,
          reported-after d.key (c ∷ cs) (k, All-after d.key c.key cs k a),
        ))
    | inr k ↦
        let hit = before_total d.key c.key k e in
        let same_head : c ≡ d = cc (reported_head c cs, h c.key, reported_hit c.key d ds hit) in
        ap (λ (x : JsonFieldChange). x ∷ cs) same_head
        ∙ ap (λ (xs : List JsonFieldChange). d ∷ xs)
            (IsSorted-unique cs ds s t (λ key. tails key c d cs ds same_head a b (h key)))
  ]
]
