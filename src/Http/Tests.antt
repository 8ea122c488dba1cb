-- ===== src/Http/Tests.antt =====
-- The theorems on the handlers, at small databases.
use prompt_manager.Base.{◌+◌, ◌≡◌, refl, pos, true, [], arith, length, map, page, ltb}
use prompt_manager.Text.{codes, decimal, atoi}
use prompt_manager.Http.Response.{respond_ok}
use prompt_manager.Http.Query.{is_nonnegative, parse_pagination}
use prompt_manager.Http.Laws.{parse_pagination_bounds, parse_pagination-decimal}
use prompt_manager.Http.Listing.{matching, options, list_prompts_handler_lem}
use prompt_manager.Http.Prompts.Handlers.{list_prompts_handler}
use prompt_manager.Prompt.Run.{service}
use prompt_manager.Prompt.Tests.{filled}
use prompt_manager.Base.{is_positive}
use prompt_manager.Http.Query.{parse_flag, parse_bool}
use prompt_manager.Repository.Prompts.{joined}
use prompt_manager.Text.{trim_space}
use prompt_manager.Domain.{wrapped, oauth_exchange_failed, message}
use prompt_manager.Auth.Library.{AuthService, replied, decoded}
use prompt_manager.Auth.GitHub.{exchange_github_code}
use prompt_manager.Auth.Tests.{s, library}
use prompt_manager.Http.Response.{Response, respond_error}
use prompt_manager.Http.Signin.{CallbackAnswer, signin_error}
use prompt_manager.Http.SigninLaws.{exchange_status}

parse_pagination_bounds_example :
    let (limit, offset) = parse_pagination (codes "-3") (codes "x") in
    (is_positive limit ≡ true) × (is_nonnegative offset ≡ true)
parse_pagination_bounds_example = parse_pagination_bounds (codes "-3") (codes "x")

parse_pagination-decimal_example : parse_pagination (decimal 20) (decimal 40) ≡ (pos 20, pos 40)
parse_pagination-decimal_example =
    parse_pagination-decimal 20 40 (omega arith) (omega arith) (omega arith)

list_prompts_handler_lem_example :
    let rows = matching (options (pos 1) (pos 0) (codes "GREET") []) filled in
    list_prompts_handler (codes "1") (codes "0") (codes "GREET") [] filled ≡ (
      respond_ok (record {
        items = map (joined filled.db) (page 1 0 rows);
        total = length rows;
        limit = pos 1;
        offset = pos 0;
        has_more = ltb (0 + 1) (length rows);
      }),
      filled,
    )
unfolding service parse_pagination atoi parse_flag parse_bool
list_prompts_handler_lem_example =
    list_prompts_handler_lem (codes "1") (codes "0") (codes "GREET") [] 1 0 filled refl refl
      (omega arith) (omega arith)

-- GitHub refuses the code.
abbrev refusing : AuthService
refusing = record s {
  library = record library {
    github = record library.github {
      token = λ url form. replied 400 (codes "Bad Request") (
          decoded (record {
            access_token = [];
            error = codes "bad_verification_code";
            error_description = [];
          }));
    };
  };
}

exchange_status_example :
    ◌≡◌ {A = Response CallbackAnswer}
      (signin_error (wrapped oauth_exchange_failed (codes "Bad Request")))
      (respond_error 500
        (codes "INTERNAL_ERROR")
        (message (wrapped oauth_exchange_failed (codes "Bad Request"))))
unfolding exchange_github_code trim_space
exchange_status_example = exchange_status refusing (codes "code") (codes "state") _ refl refl
