-- ===== src/Prompt/Diff/Body.antt =====
-- buildBodyDiff.
use prompt_manager.Base.{List, [], ◌∷◌, if◌then◌else◌}
use prompt_manager.Text.{Text, is_empty}

pub data DiffType : Type 0 where
  equal delete insert : DiffType

-- a piece of the library's diff, and DiffSegment
pub record DiffSegment : Type 0 where
  pub type : DiffType
  pub text : Text

-- `patches` is what DiffMain and DiffCleanupSemantic of the library answer
unfoldable pub build_body_diff : List DiffSegment → List DiffSegment
build_body_diff [] = []
build_body_diff (piece ∷ patches) =
    let segments = build_body_diff patches in
    if is_empty piece.text then segments else piece ∷ segments
