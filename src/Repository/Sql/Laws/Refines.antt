-- ===== src/Repository/Sql/Laws/Refines.antt =====
-- The UPDATE statements refine the operations on the table, whatever the dialect.
use prompt_manager.Base.{
  ℕ, suc, ◌≡◌, refl, ap, ◌∙◌, Bool, true, false, not, ◌&&◌, ◌||◌, Option, none, some, is_some, List,
  [], ◌∷◌, ◌++◌, arith, length, append-nil, if◌then◌else◌,
}
use mathlib.Core.Path.{fun_ext}
use prompt_manager.Text.{Text, codes, same}
use prompt_manager.Domain.{Error, Prompt, PromptUpdateParams, PromptRestoreParams}
use prompt_manager.Store.{Action, exec, affected, ◌>>=◌, update_prompts, raise, pure}
use prompt_manager.Repository.Prompts
use prompt_manager.Repository.Prompts.{live, live_id, deleted_id, apply_update, apply_restore}
use prompt_manager.Repository.Sql.Dialect.{Dialect, is_numbered, next}
use prompt_manager.Repository.Sql.Statements.{
  Value, str, nullable, raw, restore_first, Assignment, fixed, Build, Update, Built, refused,
  nothing, begin, add_if, finish, update_sets, update_statement, restore_sets, restore_statement,
  is_nil, text_of,
}
use prompt_manager.Repository.Sql.Meaning.{
  bound, set_column, assign, placeholders, has_id, holds, hit, changed, or_same, execute,
}
use prompt_manager.Repository.Sql.Laws.Builder.{
  Denotes, bound-mark, next-mark, add_if-Denotes, begin-Denotes,
}

-- The row that a statement changes to, and whether it is hit, from what its builder denotes.
module _ (numbered : Bool) (b : Build) (f g : ℕ → Prompt → Prompt) (id condition : Text)
    (last : List Assignment) (h : Denotes numbered b f)
    (no_more : placeholders (b.sets ++ last) ≡ placeholders b.sets)
    (ends : (args : List Value) (now : ℕ) (p : Prompt)
      → assign numbered args now (length b.args) last p ≡ some (g now p)) where
  finished : Update
  finished = record {
    sets = b.sets ++ last;
    id_placeholder = (next b.ph).0;
    condition = condition;
    args = b.args ++ str id ∷ [];
  }

  finished-changed : (now : ℕ) (p : Prompt) → changed numbered finished now p ≡ g now (f now p)
  unfolding changed finished
  finished-changed now p =
      ap (or_same p) (h.runs (str id ∷ []) last now p ∙ ends (b.args ++ str id ∷ []) now (f now p))

  finished-hit : (p : Prompt) → hit numbered finished p ≡ (same p.id id && holds condition p)
  unfolding hit finished
  finished-hit p =
      ap (λ (o : Option Value). has_id o p && holds condition p)
        (ap (λ (n : ℕ). bound numbered (suc n) (next b.ph).0 (b.args ++ str id ∷ []))
            (no_more ∙ h.count)
          ∙ ap (λ (t : Text). bound numbered (suc (length b.args)) t (b.args ++ str id ∷ []))
              (next-mark numbered b f h)
          ∙ bound-mark numbered b.args [] (str id))

  pub finish-execute :
      (test : Prompt → Bool) (set : ℕ → Prompt → Prompt)
      → ((p : Prompt) → (same p.id id && holds condition p) ≡ test p)
      → ((now : ℕ) (p : Prompt) → g now (f now p) ≡ set now p)
      → execute numbered (finish id condition last b)
        ≡ (exec (λ now. update_prompts test (set now)) >>= affected)
  unfolding execute finished
  finish-execute test set tests sets =
      ap
        (λ (t : Prompt → Bool).
          exec (λ now. update_prompts t (changed numbered finished now)) >>= affected)
        (fun_ext (λ p. finished-hit p ∙ tests p))
      ∙ ap (λ (s : ℕ → Prompt → Prompt). exec (λ now. update_prompts test (s now)) >>= affected)
          (fun_ext (λ now. fun_ext (λ p. finished-changed now p ∙ sets now p)))

-- the row behind the assignments of Update, and of Restore
abbrev updated_row : PromptUpdateParams → Prompt → Prompt
updated_row params p =
    let q = if params.has_name then record p { name = text_of params.name } else p in
    let r = if params.has_description then record q { description = params.description } else q in
    if params.has_tags then record r { tags = params.tags } else r

update_sets-Denotes :
    (d : Dialect) (params : PromptUpdateParams)
    → Denotes (is_numbered d.driver) (update_sets d params) (λ now p. updated_row params p)
unfolding set_column
update_sets-Denotes d params =
    add_if-Denotes params.has_tags _ _ _ (codes "tags") _ (λ p. record p { tags = params.tags })
      (add_if-Denotes params.has_description _ _ _ (codes "description") _
        (λ p. record p { description = params.description })
        (add_if-Denotes params.has_name _ _ _ (codes "name") _
          (λ p. record p { name = text_of params.name })
          (begin-Denotes d [] (λ now p. p) refl (λ rest last now p. refl)) (λ p. refl))
        (λ p. refl))
      (λ p. refl)

abbrev restored_row : PromptRestoreParams → ℕ → Prompt → Prompt
restored_row params now p =
    let o = record p { status = codes "active"; deleted_at = none; updated_at = now } in
    let q = if params.has_description then record o { description = params.description } else o in
    let r = if params.has_tags then record q { tags = params.tags } else q in
    let s = if params.has_created_by then record r { created_by = params.created_by } else r in
    if params.has_body then record s { body = params.body } else s

restore_sets-Denotes :
    (d : Dialect) (params : PromptRestoreParams)
    → Denotes (is_numbered d.driver) (restore_sets d params) (restored_row params)
unfolding set_column assign
restore_sets-Denotes d params =
    add_if-Denotes params.has_body _ _ _ (codes "body") (nullable params.body)
      (λ p. record p { body = params.body })
      (add_if-Denotes params.has_created_by _ _ _ (codes "created_by") (nullable params.created_by)
        (λ p. record p { created_by = params.created_by })
        (add_if-Denotes params.has_tags _ _ _ (codes "tags") (raw params.tags)
          (λ p. record p { tags = params.tags })
          (add_if-Denotes params.has_description _ _ _ (codes "description")
            (nullable params.description) (λ p. record p { description = params.description })
            (begin-Denotes d restore_first
              (λ now p. record p { status = codes "active"; deleted_at = none; updated_at = now })
              refl (λ rest last now p. refl))
            (λ p. refl))
          (λ p. refl))
        (λ p. refl))
      (λ p. refl)

-- The statement of Restore, whatever the dialect and the fields that are given, is the change of the
-- table that the repository is modelled to make.
pub restore_statement-refines :
    (d : Dialect) (id : Text) (params : PromptRestoreParams)
    → execute (is_numbered d.driver) (restore_statement d id params) ≡ Prompts.restore id params
unfolding restore_statement Prompts.restore holds assign
restore_statement-refines d id params =
    finish-execute (is_numbered d.driver) (restore_sets d params) (restored_row params) (λ now p. p)
      id _ [] (restore_sets-Denotes d params)
      (ap placeholders (append-nil (restore_sets d params).sets)) (λ args now p. refl)
      (deleted_id id) (apply_restore params) (λ p. refl) (λ now p. ground arith)

concat-is_nil : (sets : List Assignment) (a : Assignment) → is_nil (sets ++ a ∷ []) ≡ false
concat-is_nil [] a = refl
concat-is_nil (b ∷ sets) a = refl

add_if-is_nil :
    (has : Bool) (column : Text) (v : Value) (b : Build)
    → is_nil (add_if has column v b).sets ≡ (not has && is_nil b.sets)
add_if-is_nil true column v b = concat-is_nil b.sets _
add_if-is_nil false column v b = refl

negations : (x y z : Bool) → (not x && (not y && (not z && true))) ≡ not (z || y || x)
negations x y z = ground arith

update_sets-is_nil :
    (d : Dialect) (params : PromptUpdateParams)
    → is_nil (update_sets d params).sets
      ≡ not (params.has_name || params.has_description || params.has_tags)
update_sets-is_nil d params =
    add_if-is_nil params.has_tags _ _ _
    ∙ ap (λ (b : Bool). not params.has_tags && b)
        (add_if-is_nil params.has_description _ _ _
          ∙ ap (λ (b : Bool). not params.has_description && b)
              (add_if-is_nil params.has_name (codes "name") (str (text_of params.name))
                (begin d [])))
    ∙ negations params.has_tags params.has_description params.has_name

placeholders-fixed :
    (sets : List Assignment) (text : Text)
    → placeholders (sets ++ fixed text ∷ []) ≡ placeholders sets
placeholders-fixed [] t = refl
placeholders-fixed (Assignment.assigned column m ∷ sets) t =
    ap (λ (n : ℕ). suc n) (placeholders-fixed sets t)
placeholders-fixed (fixed text ∷ sets) t = placeholders-fixed sets t

-- the two tests in front of the statement
execute-if :
    (numbered c k k' : Bool) (e : Error) (s : Built) (m : Action (Unit {0}))
    → k ≡ k'
    → (c ≡ false → execute numbered s ≡ m)
    → execute numbered (if c then refused e else if k then nothing else s)
      ≡ (if c then raise e else if k' then pure tt else m)
unfolding execute
execute-if numbered true k k' e s m same_test runs = refl
execute-if numbered false true true e s m same_test runs = refl
execute-if numbered false true false e s m same_test runs = absurd (cc same_test)
execute-if numbered false false true e s m same_test runs = absurd (cc same_test)
execute-if numbered false false false e s m same_test runs = runs refl

-- The statement of Update, whatever the dialect and the fields that are given, is the change of the
-- table that the repository is modelled to make; so are its error and the case without fields.
pub update_statement-refines :
    (d : Dialect) (id : Text) (params : PromptUpdateParams)
    → execute (is_numbered d.driver) (update_statement d id params) ≡ Prompts.update id params
unfolding update_statement Prompts.update holds assign
update_statement-refines d id params =
    execute-if (is_numbered d.driver) (params.has_name && not (is_some params.name)) _ _ _ _ _
      (update_sets-is_nil d params)
      λ named.
        finish-execute (is_numbered d.driver) (update_sets d params) (λ now p. updated_row params p)
          (λ now p. record p { updated_at = now }) id _
          (fixed (codes "updated_at = CURRENT_TIMESTAMP") ∷ []) (update_sets-Denotes d params)
          (placeholders-fixed (update_sets d params).sets _) (λ args now p. refl) (live_id id)
          (apply_update params) (λ p. refl) (λ now p. ground arith)
