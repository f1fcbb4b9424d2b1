-- ===== src/Providers/Mpesa.antt =====
-- app/core/mpesa_client.py, and the requests that payouts/service.py and deposits/service.py send to Daraja.
use bridge_pay_backend.Common.{ℕ, ◌/◌, Option, some, [], ◌∷◌, ◌++◌, if◌then◌else◌}
use bridge_pay_backend.Common.Int.{pos}
use bridge_pay_backend.Common.Text.{Str, codes, str_eq, is_given}
use bridge_pay_backend.Core.Settings.{Settings}
use bridge_pay_backend.Errors.{Result, ok, err, ◌>>=◌, ◌>>◌, guard, runtime_error}
use bridge_pay_backend.Json.{Json, Fields, num, str, field, end}
use bridge_pay_backend.Providers.{Reply, failed}
use bridge_pay_backend.Providers.Tokens.{
  Network, HttpRequest, Method, CachedToken, get_access_token,
}

-- The field of a JSON object with a text.
abbrev pub text_field : Str → Str → Fields → Fields
text_field k v fs = field k (str v) fs

-- Headers, a query or a body that is empty.
abbrev pub nothing : Fields
nothing = end

-- What a request that may raise is answered with.
unfoldable pub reply_of : Result Reply → Reply
reply_of (ok reply) = reply
reply_of (err e) = failed e

abbrev certificate_missing : Str
certificate_missing =
    codes "MPESA_B2C_CERT_PATH is not configured — B2C payouts need Safaricom's "
    ++ (codes "public certificate file. See https://developer.safaricom.co.ke for the "
        ++ codes "sandbox cert, or your production approval for the live one.")

-- `int(amount)` of an amount in cents
unfoldable pub whole_units : ℕ → ℕ
whole_units amount = amount / 100

module _ (net : Network) (settings : Settings) where
  unfoldable pub get_base_url : Str
  get_base_url =
      if str_eq settings.mpesa_env (codes "production")
      then codes "https://api.safaricom.co.ke"
      else codes "https://sandbox.safaricom.co.ke"

  -- The request of `get_access_token`
  unfoldable pub token_request : HttpRequest
  unfolding get_base_url
  token_request =
      let credentials = settings.mpesa_consumer_key ++ (b':' ∷ settings.mpesa_consumer_secret) in
      record {
        method = Method.get;
        url = get_base_url ++ codes "/oauth/v1/generate";
        headers = text_field (codes "Authorization") (codes "Basic " ++ net.base64 credentials) end;
        params = text_field (codes "grant_type") (codes "client_credentials") end;
        body = nothing;
      }

  unfoldable pub generate_stk_password : Str → Str
  generate_stk_password timestamp =
      net.base64 (settings.mpesa_shortcode ++ (settings.mpesa_passkey ++ timestamp))

  unfoldable pub generate_security_credential : Result Str
  generate_security_credential = do
    guard (is_given (some settings.mpesa_b2c_cert_path)) (runtime_error certificate_missing)
    encrypted ← net.encrypt settings.mpesa_b2c_cert_path settings.mpesa_initiator_password
    ok (net.base64 encrypted)

  -- The `payload` of `create_mpesa_payout`
  unfoldable pub b2c_payload : Str → Str → ℕ → Fields
  unfolding whole_units
  b2c_payload security_credential phone amount =
      text_field (codes "InitiatorName") settings.mpesa_initiator_name (
        text_field (codes "SecurityCredential") security_credential (
          text_field (codes "CommandID") (codes "BusinessPayment") (
            field (codes "Amount") (num (pos (whole_units amount))) (
              text_field (codes "PartyA") settings.mpesa_shortcode (
                text_field (codes "PartyB") phone (
                  text_field (codes "Remarks") (codes "BridgePay payout") (
                    text_field (codes "QueueTimeOutURL")
                      (settings.mpesa_callback_base_url
                        ++ codes "/api/v1/webhooks/mpesa/b2c-timeout")
                      (text_field (codes "ResultURL")
                        (settings.mpesa_callback_base_url
                          ++ codes "/api/v1/webhooks/mpesa/b2c-result")
                        (text_field (codes "Occasion") [] end)))))))))

  -- The `payload` of `create_mpesa_deposit`
  unfoldable pub stk_payload : Str → Str → Str → ℕ → Fields
  unfolding whole_units
  stk_payload password timestamp phone amount =
      text_field (codes "BusinessShortCode") settings.mpesa_shortcode (
        text_field (codes "Password") password (
          text_field (codes "Timestamp") timestamp (
            text_field (codes "TransactionType") (codes "CustomerPayBillOnline") (
              field (codes "Amount") (num (pos (whole_units amount))) (
                text_field (codes "PartyA") phone (
                  text_field (codes "PartyB") settings.mpesa_shortcode (
                    text_field (codes "PhoneNumber") phone (
                      text_field (codes "CallBackURL")
                        (settings.mpesa_callback_base_url
                          ++ codes "/api/v1/webhooks/mpesa/stk-callback")
                        (text_field (codes "AccountReference") (codes "BridgePay") (
                          text_field (codes "TransactionDesc") (codes "Wallet deposit")
                            end))))))))))

  -- A post under the access token.
  unfoldable pub post_request : Str → Json → Fields → HttpRequest
  unfolding get_base_url
  post_request path access_token payload = record {
    method = Method.post;
    url = get_base_url ++ path;
    headers = text_field (codes "Authorization") (codes "Bearer " ++ net.text_of access_token) end;
    params = nothing;
    body = payload;
  }

  module _ (now : ℕ) (cache : Option CachedToken) where
    -- From the token to the answer, as `create_mpesa_payout` asks for a payout, and the token's cache.
    unfoldable pub ask_b2c : Str → ℕ → Reply × Option CachedToken
    unfolding token_request post_request b2c_payload reply_of
    ask_b2c phone amount =
        let (token, cache') = get_access_token now (net.send token_request) cache in
        (
          reply_of (do
            access_token ← token
            security_credential ← generate_security_credential
            let payload = b2c_payload security_credential phone amount
            ok (
                net.send
                  (post_request (codes "/mpesa/b2c/v1/paymentrequest") access_token payload))),
          cache',
        )

    -- The same of `create_mpesa_deposit`, with the time as `current_timestamp` writes it
    unfoldable pub ask_stk : Str → Str → ℕ → Reply × Option CachedToken
    unfolding token_request post_request stk_payload reply_of generate_stk_password
    ask_stk timestamp phone amount =
        let (token, cache') = get_access_token now (net.send token_request) cache in
        (
          reply_of (do
            access_token ← token
            let payload = stk_payload (generate_stk_password timestamp) timestamp phone amount
            ok (
                net.send
                  (post_request (codes "/mpesa/stkpush/v1/processrequest") access_token payload))),
          cache',
        )
