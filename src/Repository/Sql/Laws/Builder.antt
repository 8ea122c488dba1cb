-- ===== src/Repository/Sql/Laws/Builder.antt =====
-- Each placeholder that a builder gives out is bound to the argument that goes with it.
use prompt_manager.Base.{
  ℕ, suc, ◌+◌, ◌≡◌, refl, sym, ap, ◌∙◌, Bool, true, false, Option, some, List, [], ◌∷◌, ◌++◌, arith,
  length, append_assoc, if◌then◌else◌,
}
use prompt_manager.Text.{Text, same, is_empty, decimal, read_digits, read_number}
use prompt_manager.Text.Numbers.{read_digits-decimal, decimal_filled}
use prompt_manager.Domain.{Prompt}
use prompt_manager.Repository.Sql.Dialect.{Dialect, is_numbered, mark, placeholder, next}
use prompt_manager.Repository.Sql.Statements.{
  Value, Assignment, assigned, Build, begin, add, add_if,
}
use prompt_manager.Repository.Sql.Meaning.{
  nth, nth_of, bound, set_column, set_bound, and_then, assign, placeholders,
}

read_number-decimal : (n : ℕ) → read_number (decimal n) ≡ some n
unfolding read_number
read_number-decimal n = go (decimal n) (decimal_filled n) (read_digits-decimal n)
  where
    go : (s : Text) → is_empty s ≡ false → read_digits 0 s ≡ some n → read_number s ≡ some n
    go [] h k = absurd (cc h)
    go (c ∷ s) h k = k

nth-append :
    (args rest : List Value) (v : Value) → nth (suc (length args)) (args ++ v ∷ rest) ≡ some v
nth-append [] rest v = refl
nth-append (a ∷ as') rest v = nth-append as' rest v

pub bound-mark :
    (numbered : Bool) (args rest : List Value) (v : Value)
    → bound numbered (suc (length args)) (mark numbered (length args + 1)) (args ++ v ∷ rest)
      ≡ some v
unfolding bound same
bound-mark true args rest v =
    ap (λ (o : Option ℕ). nth_of o (args ++ v ∷ rest)) (read_number-decimal (length args + 1))
    ∙ ap (λ (n : ℕ). nth n (args ++ v ∷ rest)) (omega arith)
    ∙ nth-append args rest v
bound-mark false args rest v = nth-append args rest v

pub length-concat : (args : List Value) (v : Value) → length (args ++ v ∷ []) ≡ suc (length args)
length-concat [] v = refl
length-concat (a ∷ as') v = ap (λ (n : ℕ). suc n) (length-concat as' v)

placeholders-concat :
    (sets : List Assignment) (column placeholder : Text)
    → placeholders (sets ++ assigned column placeholder ∷ []) ≡ suc (placeholders sets)
placeholders-concat [] c m = refl
placeholders-concat (assigned column placeholder ∷ sets) c m =
    ap (λ (n : ℕ). suc n) (placeholders-concat sets c m)
placeholders-concat (Assignment.fixed text ∷ sets) c m = placeholders-concat sets c m

-- The builder has collected assignments that take a row to `f` of it, whatever comes behind them.
pub record Denotes (numbered : Bool) (b : Build) (f : ℕ → Prompt → Prompt) : Type 0 where
  pub dialect : is_numbered b.ph.dialect.driver ≡ numbered
  pub index : b.ph.index ≡ length b.args
  pub count : placeholders b.sets ≡ length b.args
  pub runs :
      (rest : List Value) (last : List Assignment) (now : ℕ) (p : Prompt)
      → assign numbered (b.args ++ rest) now 0 (b.sets ++ last) p
        ≡ assign numbered (b.args ++ rest) now (length b.args) last (f now p)

pub next-mark :
    (numbered : Bool) (b : Build) (f : ℕ → Prompt → Prompt)
    → Denotes numbered b f
    → (next b.ph).0 ≡ mark numbered (length b.args + 1)
unfolding next placeholder
next-mark numbered b f h = rw (h.dialect, h.index) refl

-- one assignment with its argument
assign_step :
    (numbered : Bool) (args rest : List Value) (v : Value) (column m : Text)
    (last : List Assignment) (now : ℕ) (p q : Prompt)
    → m ≡ mark numbered (length args + 1)
    → set_column column v p ≡ some q
    → assign numbered (args ++ v ∷ rest) now (length args) (assigned column m ∷ last) p
      ≡ assign numbered (args ++ v ∷ rest) now (suc (length args)) last q
unfolding assign
assign_step numbered args rest v column m last now p q e set =
    let onwards = assign numbered (args ++ v ∷ rest) now (suc (length args)) last in
    ap
      (λ (t : Text).
        and_then (set_bound column (bound numbered (suc (length args)) t (args ++ v ∷ rest)) p)
          onwards)
      e
    ∙ ap (λ (o : Option Value). and_then (set_bound column o p) onwards)
        (bound-mark numbered args rest v)
    ∙ ap (λ (o : Option Prompt). and_then o onwards) set

pub add-Denotes :
    (numbered : Bool) (b : Build) (f : ℕ → Prompt → Prompt) (column : Text) (v : Value)
    (g : Prompt → Prompt)
    → Denotes numbered b f
    → ((p : Prompt) → set_column column v p ≡ some (g p))
    → Denotes numbered (add column v b) (λ now p. g (f now p))
unfolding next
add-Denotes numbered b f column v g h set = record {
  dialect = h.dialect;
  index = ap (λ (n : ℕ). n + 1) h.index ∙ omega (arith, length-concat b.args v);
  count =
      placeholders-concat b.sets column (next b.ph).0
      ∙ ap (λ (n : ℕ). suc n) h.count
      ∙ sym (length-concat b.args v);
  runs = λ rest last now p.
      rw
        (
          append_assoc b.args (v ∷ []) rest,
          append_assoc b.sets (assigned column (next b.ph).0 ∷ []) last,
          length-concat b.args v,
        )
        (h.runs (v ∷ rest) (assigned column (next b.ph).0 ∷ last) now p
          ∙ assign_step numbered b.args rest v column (next b.ph).0 last now (f now p) (g (f now p))
              (next-mark numbered b f h) (set (f now p)));
}

pub add_if-Denotes :
    (has numbered : Bool) (b : Build) (f : ℕ → Prompt → Prompt) (column : Text) (v : Value)
    (g : Prompt → Prompt)
    → Denotes numbered b f
    → ((p : Prompt) → set_column column v p ≡ some (g p))
    → Denotes numbered (add_if has column v b) (λ now p. if has then g (f now p) else f now p)
add_if-Denotes true numbered b f column v g h set = add-Denotes numbered b f column v g h set
add_if-Denotes false numbered b f column v g h set = h

-- a builder that begins with assignments without placeholders
pub begin-Denotes :
    (d : Dialect) (sets : List Assignment) (f : ℕ → Prompt → Prompt)
    → placeholders sets ≡ 0
    → ((rest : List Value) (last : List Assignment) (now : ℕ) (p : Prompt)
        → assign (is_numbered d.driver) rest now 0 (sets ++ last) p
          ≡ assign (is_numbered d.driver) rest now 0 last (f now p))
    → Denotes (is_numbered d.driver) (begin d sets) f
begin-Denotes d sets f none_there runs = record {
  dialect = refl;
  index = refl;
  count = none_there;
  runs = runs;
}
