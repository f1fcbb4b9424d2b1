-- ===== src/Providers/Airtel.antt =====
-- app/core/airtel_client.py, and the requests that payouts/service.py and deposits/service.py send to Airtel.
use bridge_pay_backend.Common.{ℕ, ◌&&◌, Option, some, ◌++◌, if◌then◌else◌}
use bridge_pay_backend.Common.Int.{pos}
use bridge_pay_backend.Common.Text.{Str, codes, str_eq, is_given}
use bridge_pay_backend.Core.Settings.{Settings}
use bridge_pay_backend.Errors.{Result, ok, ◌>>=◌, ◌>>◌, guard, runtime_error}
use bridge_pay_backend.Json.{Json, Fields, num, obj, field, end}
use bridge_pay_backend.Providers.{Reply}
use bridge_pay_backend.Providers.Mpesa.{text_field, nothing, reply_of, whole_units}
use bridge_pay_backend.Providers.Tokens.{
  Network, HttpRequest, Method, CachedToken, get_access_token,
}

abbrev key_missing : Str
key_missing =
    codes "AIRTEL_ENCRYPTION_PUBLIC_KEY_PATH / AIRTEL_DISBURSEMENT_PIN are not configured — "
    ++ (codes "disbursements need Airtel's public encryption key and a disburser PIN. See "
        ++ codes "https://developers.airtel.africa for how to obtain both.")

module _ (net : Network) (settings : Settings) where
  unfoldable pub get_base_url : Str
  get_base_url =
      if str_eq settings.airtel_env (codes "production")
      then codes "https://openapi.airtel.africa"
      else codes "https://openapiuat.airtel.africa"

  -- The request of `get_access_token`
  unfoldable pub token_request : HttpRequest
  unfolding get_base_url
  token_request = record {
    method = Method.post;
    url = get_base_url ++ codes "/auth/oauth2/token";
    headers =
        text_field (codes "Content-Type") (codes "application/json")
          (text_field (codes "Accept") (codes "*/*") end);
    params = nothing;
    body = text_field (codes "client_id") settings.airtel_client_id (
        text_field (codes "client_secret") settings.airtel_client_secret
          (text_field (codes "grant_type") (codes "client_credentials") end));
  }

  unfoldable pub standard_headers : Json → Fields
  standard_headers access_token =
      text_field (codes "Authorization") (codes "Bearer " ++ net.text_of access_token) (
        text_field (codes "Content-Type") (codes "application/json") (
          text_field (codes "Accept") (codes "*/*") (
            text_field (codes "X-Country") (codes "KE")
              (text_field (codes "X-Currency") (codes "KES") end))))

  unfoldable pub encrypt_disbursement_pin : Result Str
  encrypt_disbursement_pin = do
    guard
        (is_given (some settings.airtel_encryption_public_key_path)
          && is_given (some settings.airtel_disbursement_pin))
        (runtime_error key_missing)
    encrypted ←
        net.encrypt settings.airtel_encryption_public_key_path settings.airtel_disbursement_pin
    ok (net.base64 encrypted)

  -- The `payload` of `create_airtel_payout`
  unfoldable pub disbursement_payload : Str → Str → Str → ℕ → Fields
  unfolding whole_units
  disbursement_payload pin id phone amount =
      field (codes "payee") (obj (text_field (codes "msisdn") phone end)) (
        text_field (codes "reference") (codes "BridgePay payout") (
          text_field (codes "pin") pin (
            field (codes "transaction")
              (obj (
                field (codes "amount") (num (pos (whole_units amount)))
                  (text_field (codes "id") id end)))
              end)))

  -- The `payload` of `create_airtel_deposit`
  unfoldable pub collection_payload : Str → Str → ℕ → Fields
  unfolding whole_units
  collection_payload id phone amount = text_field (codes "reference") (codes "BridgePay deposit") (
      field (codes "subscriber")
        (obj (
          text_field (codes "country") (codes "KE")
            (text_field (codes "currency") (codes "KES") (text_field (codes "msisdn") phone end))))
        (field (codes "transaction")
          (obj (
            field (codes "amount") (num (pos (whole_units amount))) (
              text_field (codes "country") (codes "KE")
                (text_field (codes "currency") (codes "KES") (text_field (codes "id") id end)))))
          end))

  unfoldable pub post_request : Str → Json → Fields → HttpRequest
  unfolding get_base_url standard_headers
  post_request path access_token payload = record {
    method = Method.post;
    url = get_base_url ++ path;
    headers = standard_headers access_token;
    params = nothing;
    body = payload;
  }

  module _ (now : ℕ) (cache : Option CachedToken) (id : Str) where
    -- From the token to the answer, as `create_airtel_payout` asks for a payout, and the token's cache.
    unfoldable pub ask_disbursement : Str → ℕ → Reply × Option CachedToken
    unfolding token_request post_request disbursement_payload encrypt_disbursement_pin
    ask_disbursement phone amount =
        let (token, cache') = get_access_token now (net.send token_request) cache in
        (
          reply_of (do
            access_token ← token
            pin ← encrypt_disbursement_pin
            let payload = disbursement_payload pin id phone amount
            ok (
                net.send
                  (post_request (codes "/standard/v1/disbursements/") access_token payload))),
          cache',
        )

    -- The same of `create_airtel_deposit`
    unfoldable pub ask_collection : Str → ℕ → Reply × Option CachedToken
    unfolding token_request post_request collection_payload
    ask_collection phone amount =
        let (token, cache') = get_access_token now (net.send token_request) cache in
        (
          reply_of (do
            access_token ← token
            let payload = collection_payload id phone amount
            ok (net.send (post_request (codes "/merchant/v1/payments/") access_token payload))),
          cache',
        )
