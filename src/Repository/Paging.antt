-- ===== src/Repository/Paging.antt =====
-- The bounds of a listing: `limit <= 0` and `offset < 0` are replaced.
use prompt_manager.Base.{ℕ, zero, suc, ℤ, pos, negsuc, pos_part}

-- if limit <= 0 { limit = fallback }
unfoldable pub limit_or : ℕ → ℤ → ℕ
limit_or fallback (pos zero) = fallback
limit_or fallback (pos (suc n)) = suc n
limit_or fallback (negsuc _) = fallback

-- if offset < 0 { offset = 0 }
unfoldable pub offset_of : ℤ → ℕ
offset_of offset = pos_part offset
