-- ===== src/Prompt/Invariant/Activation.antt =====
-- The body of a prompt is that of the version that is marked as its active one.
use prompt_manager.Base.{◌≡◌, refl, Option, none, some, List, All}
use prompt_manager.Text.{Text}
use prompt_manager.Domain.{Error, PromptVersion, Result, ok, err}
use prompt_manager.Store.{
  World, Action, ◌>>=◌, ◌>>◌, query, found, pure, raise, map_error, next_event, advance, answered,
}
use prompt_manager.Store.Keeps.{
  Holds, Holds-advance, Keeps, Keeps-bind, Keeps-affected, keeps_rules,
}
use prompt_manager.Repository.Prompts
use prompt_manager.Repository.Versions
use prompt_manager.Prompt.Inputs.{Service}
use prompt_manager.Prompt.Versions.{add_version}
use prompt_manager.Prompt.Calls.{Call, perform_all}
use prompt_manager.Prompt.Invariant.Methods.{Admits, Holds-perform_all}
use prompt_manager.Prompt.Invariant.Bodies.{
  version_by_id, PromptShowsBody, Shown, Keeps-update_prompts, Keeps-create, Keeps-log,
  Keeps-insert_version, Keeps-update, Keeps-delete, Keeps-restore,
}

Keeps-mark_active :
    (prompt_id id : Text) (v : PromptVersion)
    → Keeps Shown (some (id, v)) (Prompts.update_active_version prompt_id (some id) (some v.body))
unfolding Prompts.update_active_version
Keeps-mark_active prompt_id id v =
    Keeps-bind _ _ (Keeps-update_prompts _ _ λ now db p h q. record { shows = (v, h.1, refl) })
      Keeps-affected

-- A version that is read stays as it is while the prompt is marked.
Keeps-read_version :
    (id : Text) (f : Error → Error) (k rest : PromptVersion → Action (Unit {0}))
    → ((v : PromptVersion) → Keeps Shown (some (id, v)) (k v))
    → ((v : PromptVersion) → Keeps Shown none (rest v))
    → Keeps Shown none (map_error f (Versions.get_by_id id) >>= λ v. k v >> rest v)
unfolding Versions.get_by_id ◌>>=◌ ◌>>◌ map_error query found raise pure
Keeps-read_version id f k rest kk kr = record {
  at = λ w h.
      let w' = advance w in
      go (next_event w).fault (version_by_id id w'.db.versions) w' refl (Holds-advance w h);
}
  where
    forget : (v : PromptVersion) (w : World) → Holds Shown (some (id, v)) w → Holds Shown none w
    forget v w h = record { now = h.now.0; later = h.later }

    rest_kept :
        (v : PromptVersion) (r : Result (Unit {0})) (w : World)
        → Holds Shown none w
        → Holds Shown none (◌>>◌ (λ _. (r, w)) (rest v) w).1
    rest_kept v (ok _) w h = (kr v).at w h
    rest_kept v (err e) w h = h

    go :
        (fault : Option Text) (o : Option PromptVersion) (w : World)
        → version_by_id id w.db.versions ≡ o
        → Holds Shown none w
        → Holds Shown none
            (◌>>=◌ (map_error f (◌>>=◌ (answered fault o) found)) (λ v. k v >> rest v) w).1
    go none (some v) w e h =
        let known : Holds Shown (some (id, v)) w = record { now = (h.now, e); later = h.later } in
        rest_kept v (k v w).0 (k v w).1 (forget v _ ((kk v).at w known))
    go none none w e h = h
    go (some t) o w e h = h

Admits-Shown : Admits Shown none
unfolding add_version Versions.create Versions.get_by_id Versions.get_latest_version_number
Admits-Shown = record {
  create = λ id name input c. Keeps-create id name input;
  update = λ id params c. Keeps-update id params;
  delete = Keeps-delete;
  restore = Keeps-restore;
  log = Keeps-log;
  add_version = λ input prompt body c. search (keeps_rules, Keeps-insert_version) depth 8;
  activate =
      λ id version rest k. Keeps-read_version version _ _ rest (Keeps-mark_active id version) k;
}

-- However calls and the writes of other clients follow one another, and whatever fails, a prompt
-- that has a body has the id of an active version that exists, and the body is that version's, if
-- that held before and the other clients keep it and change no version.
pub perform_all-PromptShowsBody :
    (s : Service) (cs : List Call) (w : World)
    → Holds Shown none w
    → let db = (perform_all s cs w).db in All (PromptShowsBody db.versions) db.prompts
perform_all-PromptShowsBody s cs w h = (Holds-perform_all Admits-Shown s cs w h).now
