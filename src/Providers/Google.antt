-- ===== src/Providers/Google.antt =====
-- app/core/google_client.py, and `google_login` of app/modules/auth/router.py. `urlencode` is a parameter.
use bridge_pay_backend.Common.{ℕ, Bool, true, ◌∷◌, ◌++◌}
use bridge_pay_backend.Common.Text.{Str, codes, str_eq}
use bridge_pay_backend.Core.Settings.{Settings}
use bridge_pay_backend.Errors.{Result, ◌>>=◌}
use bridge_pay_backend.Json.{Json, Fields, get_item, end}
use bridge_pay_backend.Providers.{json_of}
use bridge_pay_backend.Providers.Mpesa.{text_field, nothing}
use bridge_pay_backend.Providers.Tokens.{Network, Method, raise_for_status}

-- The redirect of a browser with a cookie.
pub record CookieRedirect : Type 0 where
  pub url : Str
  pub cookie : Str
  pub max_age : ℕ
  pub httponly : Bool
  pub secure : Bool

module _ (settings : Settings) (urlencode : Fields → Str) where
  unfoldable pub build_authorization_url : Str → Str
  build_authorization_url state =
      codes "https://accounts.google.com/o/oauth2/v2/auth"
      ++ (b'?'
          ∷ urlencode (
              text_field (codes "client_id") settings.google_client_id (
                text_field (codes "redirect_uri") settings.google_redirect_uri (
                  text_field (codes "response_type") (codes "code") (
                    text_field (codes "scope") (codes "openid email profile") (
                      text_field (codes "state") state (
                        text_field (codes "access_type") (codes "online")
                          (text_field (codes "prompt") (codes "select_account") end))))))))

  -- `google_login`; `state` is `generate_oauth_state()`.
  unfoldable pub google_login : Str → CookieRedirect
  unfolding build_authorization_url
  google_login state = record {
    url = build_authorization_url state;
    cookie = state;
    max_age = 300;
    httponly = true;
    secure = str_eq settings.environment (codes "production");
  }

module _ (net : Network) (settings : Settings) where
  unfoldable pub exchange_code_for_tokens : Str → Result Json
  exchange_code_for_tokens code = do
    body ← raise_for_status (
        net.send (record {
          method = Method.post;
          url = codes "https://oauth2.googleapis.com/token";
          headers = nothing;
          params = nothing;
          body = text_field (codes "code") code (
              text_field (codes "client_id") settings.google_client_id (
                text_field (codes "client_secret") settings.google_client_secret (
                  text_field (codes "redirect_uri") settings.google_redirect_uri
                    (text_field (codes "grant_type") (codes "authorization_code") end))));
        }))
    json_of body

  unfoldable pub get_google_user_info : Json → Result Json
  get_google_user_info access_token = do
    body ← raise_for_status (
        net.send (record {
          method = Method.get;
          url = codes "https://www.googleapis.com/oauth2/v3/userinfo";
          headers =
              text_field (codes "Authorization") (codes "Bearer " ++ net.text_of access_token) end;
          params = nothing;
          body = nothing;
        }))
    json_of body

  -- The `user_info` that `google_callback` goes on with.
  unfoldable pub user_info : Str → Result Json
  unfolding exchange_code_for_tokens get_google_user_info
  user_info code = do
    token_data ← exchange_code_for_tokens code
    access_token ← get_item token_data (codes "access_token")
    get_google_user_info access_token
