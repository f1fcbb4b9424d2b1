-- ===== src/Core/Settings.antt =====
-- app/core/config.py: the settings, with the defaults that stand where the environment says nothing.
pub mod Origins
use Prim.Native.String.{String}
use bridge_pay_backend.Common.{ℕ, Bool, List, [], ◌∷◌, map}
use bridge_pay_backend.Common.Table.{select}
use bridge_pay_backend.Common.Text.{Str, codes, split, stripped, is_given}
use bridge_pay_backend.Common.{Option, some}

-- The settings that the code reads; the URLs of the database and of the queue's results are the engine's.
pub record Settings : Type 0 where
  pub jwt_secret_key : Str
  pub jwt_algorithm : Str
  pub access_token_expire_minutes : ℕ
  pub refresh_token_expire_days : ℕ
  pub environment : Str
  pub allowed_origins : Str
  pub mpesa_env : Str
  pub mpesa_consumer_key : Str
  pub mpesa_consumer_secret : Str
  pub mpesa_shortcode : Str
  pub mpesa_passkey : Str
  pub mpesa_initiator_name : Str
  pub mpesa_initiator_password : Str
  pub mpesa_b2c_cert_path : Str
  pub mpesa_callback_base_url : Str
  pub airtel_env : Str
  pub airtel_client_id : Str
  pub airtel_client_secret : Str
  pub airtel_disbursement_pin : Str
  pub airtel_encryption_public_key_path : Str
  pub google_client_id : Str
  pub google_client_secret : Str
  pub google_redirect_uri : Str
  pub frontend_oauth_complete_url : Str
  pub smtp_host : Str
  pub smtp_port : ℕ
  pub smtp_username : Str
  pub smtp_password : Str
  pub smtp_from_email : Str
  pub smtp_from_name : Str
  pub frontend_base_url : Str

abbrev pub default_settings : Settings
default_settings = record {
  jwt_secret_key = codes "dev-secret-change-me";
  jwt_algorithm = codes "HS256";
  access_token_expire_minutes = 30;
  refresh_token_expire_days = 30;
  environment = codes "development";
  allowed_origins = [];
  mpesa_env = codes "sandbox";
  mpesa_consumer_key = [];
  mpesa_consumer_secret = [];
  mpesa_shortcode = [];
  mpesa_passkey = [];
  mpesa_initiator_name = [];
  mpesa_initiator_password = [];
  mpesa_b2c_cert_path = [];
  mpesa_callback_base_url = [];
  airtel_env = codes "sandbox";
  airtel_client_id = [];
  airtel_client_secret = [];
  airtel_disbursement_pin = [];
  airtel_encryption_public_key_path = [];
  google_client_id = [];
  google_client_secret = [];
  google_redirect_uri = [];
  frontend_oauth_complete_url = [];
  smtp_host = [];
  smtp_port = 587;
  smtp_username = [];
  smtp_password = [];
  smtp_from_email = codes "onboarding@resend.dev";
  smtp_from_name = codes "BridgePay";
  frontend_base_url = codes "http://localhost:3000";
}

-- `[o.strip() for o in self.ALLOWED_ORIGINS.split(",") if o.strip()]`
unfoldable pub allowed_origins_list : Settings → List Str
allowed_origins_list settings =
    select (λ o. is_given (some o)) (map stripped (split b',' settings.allowed_origins))
