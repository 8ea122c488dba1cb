-- ===== src/Prompt/Laws/Visibility.antt =====
-- Which prompts the service shows after a deletion or a restoration.
use prompt_manager.Base.{
  ℕ, suc, ◌≡◌, refl, sym, subst, ap, ◌∙◌, Option, none, some, List, arith, first, update,
  first-update_none, Bool-cases, inl, inr,
}
use prompt_manager.Text.{Text, codes}
use prompt_manager.Domain.{prompt_not_found, Prompt, PromptAuditLog, Result, ok, err, Json}
use prompt_manager.Store.{
  Database, World, Action, ◌>>=◌, ◌>>◌, written, found, map_error, missing_as, raise, pure, new_id,
  insert_audit,
}
use prompt_manager.Store.Quiet.{IsQuiet, exec_quiet}
use prompt_manager.Store.Writes.{insert_audit-ok}
use prompt_manager.Repository.Prompts
use prompt_manager.Repository.Prompts.{live_id, read_one, joined}
use prompt_manager.Repository.Audits
use prompt_manager.Repository.Quiet.{Outcome, update_quiet, get_by_id_quiet}
use prompt_manager.Prompt.Inputs.{Service, audit, status_payload}
use prompt_manager.Prompt.Manage.{get_prompt, delete_prompt}

-- A call that has left the prompts alone, and heard of no event.
pub record IsAside (w w' : World) : Type 0 where
  pub quiet : IsQuiet w'
  pub prompts : w'.db.prompts ≡ w.db.prompts

pub IsAside-trans : {u v w : World} → IsAside u v → IsAside v w → IsAside u w
IsAside-trans h k = record { quiet = k.quiet; prompts = k.prompts ∙ h.prompts }

log-IsAside : (a : PromptAuditLog) (w : World) → IsQuiet w → IsAside w (Audits.create a w).1
unfolding Audits.create ◌>>=◌ ◌>>◌ pure
log-IsAside a w q =
    subst (λ r. IsAside w (◌>>◌ (λ _. r) (pure tt) w).1) (sym (exec_quiet _ w q))
      (go (insert_audit (record a { created_at = w.now }) w.engine w.db) refl)
  where
    go :
        (r : Result (ℕ × Database))
        → insert_audit (record a { created_at = w.now }) w.engine w.db ≡ r
        → IsAside w (◌>>◌ (λ _. written none r w) (pure tt) w).1
    go (err e) h = record { quiet = q; prompts = refl }
    go (ok (n, db')) h = record {
      quiet = q;
      prompts = ap (λ (db : Database). db.prompts) (insert_audit-ok w.engine w.db _ h);
    }

pub audit-IsAside :
    (s : Service) (id action : Text) (payload : Json) (actor : Text) (w : World)
    → IsQuiet w
    → IsAside w (audit s id action payload actor w).1
unfolding audit ◌>>=◌ pure new_id
audit-IsAside s id action payload actor w q = elim (Bool-cases s.has_audit_log) [
  | inl logs ↦ rw logs (
      let r = log-IsAside _ (record w { issued = suc w.issued }) q in
      record { quiet = r.quiet; prompts = r.prompts })
  | inr off ↦ rw off (record { quiet = q; prompts = refl })
]

-- What runs aside of the prompts, one call after another, whether or not the first has failed.
pub bind-IsAside :
    {A B : Type 0} (v w : World) (m : Action A) (k : A → Action B)
    → IsAside v (m w).1
    → ((a : A) (w' : World) → IsAside v w' → IsAside v (k a w').1)
    → IsAside v ((m >>= k) w).1
unfolding ◌>>=◌
bind-IsAside {A = A} v w m k h step = go (m w).0 (m w).1 h
  where
    go : (r : Result A) (w' : World) → IsAside v w' → IsAside v (◌>>=◌ (λ _. (r, w')) k w).1
    go (ok a) w' h = step a w' h
    go (err e) w' h = h

-- What GetPrompt answers, from the row that is live under the id.
abbrev pub answer : Database → Option Prompt → Result Prompt
answer db none = err prompt_not_found
answer db (some p) = ok (joined db p)

answer-found :
    (db : Database) (o : Option Prompt) (w : World)
    → map_error (missing_as prompt_not_found) (found (read_one db o)) w ≡ (answer db o, w)
unfolding map_error found raise pure
answer-found db none w = refl
answer-found db (some p) w = refl

pub get_prompt_quiet :
    (id : Text) (w : World)
    → IsQuiet w
    → get_prompt id w ≡ (answer w.db (first (live_id id) w.db.prompts), w)
unfolding get_prompt map_error
get_prompt_quiet id w q =
    ap (λ (r : Result Prompt × World). map_error (missing_as prompt_not_found) (λ _. r) w)
      (get_by_id_quiet w q id)
    ∙ answer-found w.db (first (live_id id) w.db.prompts) w

-- The rows after a deletion at a time.
abbrev pub deleted_rows : Text → ℕ → List Prompt → List Prompt
deleted_rows id now =
    update (live_id id)
      (λ p. record p { status = codes "deleted"; deleted_at = some now; updated_at = now })

-- A deletion that succeeds has marked the live row of its id, and left the other prompts alone.
pub delete_prompt-ok :
    (s : Service) (id actor : Text) (w : World)
    → IsQuiet w
    → (delete_prompt s id actor w).0 ≡ ok tt
    → let w' = (delete_prompt s id actor w).1 in
      IsQuiet w' × (w'.db.prompts ≡ deleted_rows id w.now w.db.prompts)
unfolding delete_prompt Prompts.delete ◌>>◌ ◌>>=◌ map_error
delete_prompt-ok s id actor w q h =
    go _ _
      (update_quiet (live_id id)
        (λ now p. record p { status = codes "deleted"; deleted_at = some now; updated_at = now }) w
        q)
      h
  where
    go :
        (r : Result (Unit {0})) (v : World)
        → Outcome
            (live_id id)
            (λ p. record p {
              status = codes "deleted";
              deleted_at = some w.now;
              updated_at = w.now;
            })
            w
            (r, v)
        → (◌>>◌
            (map_error (missing_as prompt_not_found) (λ _. (r, v)))
            (audit s id (codes "prompt.deleted") (status_payload (codes "deleted")) actor)
            w).0
          ≡ ok tt
        → let w' =
            (◌>>◌
              (map_error (missing_as prompt_not_found) (λ _. (r, v)))
              (audit s id (codes "prompt.deleted") (status_payload (codes "deleted")) actor)
              w).1 in
          IsQuiet w' × (w'.db.prompts ≡ deleted_rows id w.now w.db.prompts)
    go (err e) v o h = absurd (cc h)
    go (ok _) v o h =
        let quiet : IsQuiet v = ap (λ (u : World). u.events) o.0 ∙ q in
        let aside =
          audit-IsAside s id (codes "prompt.deleted") (status_payload (codes "deleted")) actor v
            quiet in
        (aside.quiet, aside.prompts ∙ ap (λ (u : World). u.db.prompts) o.0)

-- In a quiet world, after a deletion that has succeeded, GetPrompt answers that the prompt is not
-- found.
pub get-delete_prompt :
    (s : Service) (id actor : Text) (w : World)
    → IsQuiet w
    → (delete_prompt s id actor w).0 ≡ ok tt
    → let w' = (delete_prompt s id actor w).1 in get_prompt id w' ≡ (err prompt_not_found, w')
get-delete_prompt s id actor w q h =
    let (quiet, rows) = delete_prompt-ok s id actor w q h in
    let gone =
      ap (λ (ps : List Prompt). first (live_id id) ps) rows
      ∙ first-update_none (live_id id) _ w.db.prompts (λ p e. ground arith) in
    get_prompt_quiet id _ quiet
    ∙ ap
        (λ (o : Option Prompt).
          (answer (delete_prompt s id actor w).1.db o, (delete_prompt s id actor w).1))
        gone
