-- ===== src/Repository/Quiet.antt =====
-- What the repository of prompts does in a quiet world.
use prompt_manager.Base.{
  ℕ, zero, suc, ◌≡◌, ◌≢◌, refl, sym, subst, ap, ◌∙◌, Bool, true, false, ◌⊎◌, inl, inr, none, some,
  List, arith, any, count, first, update, update_none, count_of_first-none, first-none_of_count, [],
  ◌∷◌, Bool-cases,
}
use prompt_manager.Text.{Text, same}
use prompt_manager.Domain.{not_found, other, Prompt, Result, ok, err}
use prompt_manager.Store.{
  World, distinct, ◌>>=◌, exec, affected, found, pure, raise, update_prompts,
}
use prompt_manager.Store.Quiet.{IsQuiet, exec_quiet, query_then_quiet}
use prompt_manager.Repository.Prompts
use prompt_manager.Repository.Prompts.{live_id, with_id, read_one}

abbrev pub with_prompts : List Prompt → World → World
with_prompts rows w = record w { db = record w.db { prompts = rows } }

-- The three outcomes of an UPDATE of prompts that must hit a row: two rows would share a name, no
-- row is hit, or the rows that are hit are changed.
abbrev pub Outcome :
    (Prompt → Bool) → (Prompt → Prompt) → World → Result (Unit {0}) × World → Type 0
Outcome hit set w (err e, w') =
    (w' ≡ w)
    × (((e ≡ not_found) × (count hit w.db.prompts ≡ 0))
        ⊎ ((e ≡ other w.engine.unique_message)
            × (distinct (λ p. p.name) (update hit set w.db.prompts) ≡ false)))
Outcome hit set w (ok _, w') =
    (w' ≡ with_prompts (update hit set w.db.prompts) w) × (first hit w.db.prompts ≢ none)

pub update_quiet :
    (hit : Prompt → Bool) (set : ℕ → Prompt → Prompt) (w : World)
    → IsQuiet w
    → Outcome hit (set w.now) w ((exec (λ now. update_prompts hit (set now)) >>= affected) w)
unfolding ◌>>=◌ affected raise pure update_prompts
update_quiet hit set w q =
    subst (λ r. Outcome hit (set w.now) w (◌>>=◌ (λ _. r) affected w))
      (sym (exec_quiet (λ now. update_prompts hit (set now)) w q))
      (elim (Bool-cases (distinct (λ p. p.name) (update hit (set w.now) w.db.prompts))) [
        | inl unique ↦ rw unique (counted (count hit w.db.prompts) refl)
        | inr shared ↦ rw shared (refl, inr (refl, shared))
      ])
  where
    counted :
        (n : ℕ)
        → count hit w.db.prompts ≡ n
        → Outcome hit
            (set w.now)
            w
            (affected n (with_prompts (update hit (set w.now) w.db.prompts) w))
    counted zero e = (
      ap (λ (rows : List Prompt). with_prompts rows w) (update_none hit (set w.now) w.db.prompts e),
      inl (refl, e),
    )
    counted (suc n) e = (refl, λ missed. cc (count_of_first-none hit w.db.prompts missed, e))

-- An UPDATE after which two rows would share a name fails with the text of the engine.
pub update_quiet_shared :
    (hit : Prompt → Bool) (set : ℕ → Prompt → Prompt) (w : World)
    → IsQuiet w
    → distinct (λ p. p.name) (update hit (set w.now) w.db.prompts) ≡ false
    → (exec (λ now. update_prompts hit (set now)) >>= affected) w
      ≡ (err (other w.engine.unique_message), w)
unfolding ◌>>=◌ update_prompts
update_quiet_shared hit set w q shared =
    ap (λ (r : Result ℕ × World). ◌>>=◌ (λ _. r) affected w)
      (exec_quiet (λ now. update_prompts hit (set now)) w q)
    ∙ rw shared refl

module _ (hit : Prompt → Bool) (set : Prompt → Prompt)
    (kept : (p : Prompt) → (set p).name ≡ p.name) where
  any-update :
      (name : Text) (rows : List Prompt)
      → any (λ p. same name p.name) (update hit set rows) ≡ any (λ p. same name p.name) rows
  any-update name [] = refl
  any-update name (p ∷ rows) = ground (arith, kept p, any-update name rows)

  -- An UPDATE that keeps the names of prompts cannot fail on them.
  pub distinct-update :
      (rows : List Prompt)
      → distinct (λ p. p.name) (update hit set rows) ≡ distinct (λ p. p.name) rows
  distinct-update [] = refl
  distinct-update (p ∷ rows) = ground (arith, kept p, any-update p.name rows, distinct-update rows)

module _ (w : World) (q : IsQuiet w) (id : Text) where
  pub get_by_id_quiet :
      Prompts.get_by_id id w ≡ found (read_one w.db (first (live_id id) w.db.prompts)) w
  unfolding Prompts.get_by_id
  get_by_id_quiet = query_then_quiet w q _ found

-- An UPDATE that keeps the names and hits a row changes the rows that it hits.
pub update_quiet_ok :
    (hit : Prompt → Bool) (set : ℕ → Prompt → Prompt) (w : World) {p : Prompt}
    → IsQuiet w
    → ((now : ℕ) (p : Prompt) → (set now p).name ≡ p.name)
    → distinct (λ p. p.name) w.db.prompts ≡ true
    → first hit w.db.prompts ≡ some p
    → (exec (λ now. update_prompts hit (set now)) >>= affected) w
      ≡ (ok tt, with_prompts (update hit (set w.now) w.db.prompts) w)
update_quiet_ok hit set w q kept names hits = go _ _ (update_quiet hit set w q)
  where
    go :
        (r : Result (Unit {0})) (v : World)
        → Outcome hit (set w.now) w (r, v)
        → ◌≡◌ {A = Result (Unit {0}) × World}
            (r, v)
            (ok tt, with_prompts (update hit (set w.now) w.db.prompts) w)
    go (ok _) v o = ap (λ (u : World). (ok tt, u)) o.0
    go (err e) v (same_world, inl (_, missed)) =
        absurd (cc (first-none_of_count hit w.db.prompts missed, hits))
    go (err e) v (same_world, inr (_, shared)) =
        absurd (cc (distinct-update hit (set w.now) (kept w.now) w.db.prompts, names, shared))
