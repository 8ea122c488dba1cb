-- ===== src/Domain/Values.antt =====
-- JSON values. A `json.RawMessage` stands for the value that it encodes, an empty one for none.
use prompt_manager.Base.{Bool, Option, List, [], ◌∷◌}
use prompt_manager.Text.{Text}

mutual
  pub data Json : Type 0 where
    null : Json
    bool : Bool → Json
    -- a number, by its printed form
    num : Text → Json
    str : Text → Json
    arr : Items → Json
    obj : Members → Json

  pub data Items : Type 0 where
    nil : Items
    cons : Json → Items → Items

  pub data Members : Type 0 where
    end : Members
    member : Text → Json → Members → Members

-- json.RawMessage
abbrev pub RawMessage : Type 0
RawMessage = Option Json

-- json.Marshal of a []string
unfoldable pub marshal_strings : List Text → Json
marshal_strings tags = arr (items tags)
  where
    items : List Text → Items
    items [] = nil
    items (t ∷ ts) = cons (str t) (items ts)
