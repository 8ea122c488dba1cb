-- ===== src/Http/Response.antt =====
-- pkg/httpx: an answer is the data of a success, or a status with a code and a message.
use prompt_manager.Base.{ℕ}
use prompt_manager.Text.{Text}
use prompt_manager.Domain.{Error, ok, err}
use prompt_manager.Store.{World, Action}

pub data Response (A : Type 0) : Type 0 where
  respond_ok : A → Response A
  respond_error : (status : ℕ) (code message : Text) → Response A

-- A handler answers and changes the world.
abbrev pub Handler : Type 0 → Type 0
Handler A = World → Response A × World

-- if err != nil { …; return }, and the rest of the handler
unfoldable pub answer_with :
    {A B : Type 0} → Action A → (Error → Response B) → (A → Handler B) → Handler B
answer_with call failed rest w =
    let (r, w') = call w in elim r [ ok a ↦ rest a w' | err e ↦ (failed e, w') ]

abbrev pub reply : {A : Type 0} → Response A → Handler A
reply r w = (r, w)
