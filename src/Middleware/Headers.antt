-- ===== src/Middleware/Headers.antt =====
-- security_headers.go
use prompt_manager.Base.{Bool, List, [], ◌∷◌, if◌then◌else◌}
use prompt_manager.Text.{Text, codes, is_empty, trim_space}
use prompt_manager.Config.Settings.{SecurityHeadersConfig}

abbrev pub set_if : Bool → (name value : Text) → List (Text × Text) → List (Text × Text)
set_if c name value rest = if c then (name, value) ∷ rest else rest

-- a header, unless its value is blank
abbrev pub set_filled : (name value : Text) → List (Text × Text) → List (Text × Text)
set_filled name value rest =
    if is_empty (trim_space value) then rest else (name, trim_space value) ∷ rest

unfoldable pub security_headers : SecurityHeadersConfig → List (Text × Text)
security_headers cfg =
    set_if cfg.content_type_nosniff (codes "X-Content-Type-Options") (codes "nosniff") (
      set_filled (codes "X-Frame-Options") cfg.frame_options (
        set_filled (codes "Referrer-Policy") cfg.referrer_policy (
          set_filled (codes "Content-Security-Policy") cfg.content_security_policy (
            set_filled (codes "X-XSS-Protection") cfg.xss_protection (
              set_filled (codes "Cross-Origin-Opener-Policy") cfg.cross_origin_opener_policy (
                set_filled (codes "Cross-Origin-Embedder-Policy") cfg.cross_origin_embedder_policy (
                  set_filled (codes "Cross-Origin-Resource-Policy") cfg.cross_origin_resource_policy
                    [])))))))
