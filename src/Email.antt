-- ===== src/Email.antt =====
-- app/core/email.py, and the tasks that a Celery worker runs: app/modules/auth/tasks.py,
-- transfers/tasks.py and notifications/tasks.py. The HTML twin of a text is left out, and so are log lines.
use bridge_pay_backend.Common.{ℕ, Bool, true, false, not, ◌&&◌, ◌==◌, some, ◌++◌, if◌then◌else◌}
use bridge_pay_backend.Common.Text.{Str, codes, is_given}
use bridge_pay_backend.Core.Settings.{Settings}

-- A message as `aiosmtplib.send` takes it.
pub record Mail : Type 0 where
  pub sender : Str
  pub to : Str
  pub subject : Str
  pub text_body : Str
  pub hostname : Str
  pub port : ℕ
  pub username : Str
  pub password : Str
  pub use_tls : Bool
  pub start_tls : Bool

unfoldable pub is_configured : Settings → Bool
is_configured settings =
    is_given (some settings.smtp_host)
    && is_given (some settings.smtp_username)
    && is_given (some settings.smtp_password)

-- What a task returns of the message: whom it went to, and whether it was sent.
pub record Sent : Type 0 where
  pub to_email : Str
  pub sent : Bool

-- What `send_transfer_confirmation` returns.
pub record TransferConfirmation : Type 0 where
  pub transaction_id : Str
  pub from_email : Str
  pub to_email : Str
  pub amount : Str
  pub notified : Bool

-- `deliver` tells whether `aiosmtplib.send` came back; false is an exception.
module _ (deliver : Mail → Bool) (settings : Settings) where
  unfoldable pub send_email : Str → Str → Str → Bool
  unfolding is_configured
  send_email to subject text_body =
      if is_configured settings
      then deliver (record {
        sender = settings.smtp_from_name ++ (codes " <" ++ (settings.smtp_from_email ++ codes ">"));
        to = to;
        subject = subject;
        text_body = text_body;
        hostname = settings.smtp_host;
        port = settings.smtp_port;
        username = settings.smtp_username;
        password = settings.smtp_password;
        use_tls = settings.smtp_port == 465;
        start_tls = not (settings.smtp_port == 465);
      })
      else false

  -- A message is sent where there is a server, and else counts as sent.
  abbrev sent_or_mocked : Str → Str → Str → Bool
  sent_or_mocked to subject text_body =
      if is_configured settings then send_email to subject text_body else true

  unfoldable pub send_verification_email : Str → Str → Sent
  unfolding send_email is_configured
  send_verification_email to_email raw_token =
      let verify_url = settings.frontend_base_url ++ (codes "/verify-email?token=" ++ raw_token) in
      record {
        to_email = to_email;
        sent = sent_or_mocked to_email (codes "Verify your BridgePay email") (
            codes "Welcome to BridgePay — confirm your email to get started.\n\nVerify your email: "
            ++ (verify_url
                ++ codes
                    "\n\nIf you didn't create a BridgePay account, you can ignore this email."));
      }

  unfoldable pub send_password_reset_email : Str → Str → Sent
  unfolding send_email is_configured
  send_password_reset_email to_email raw_token =
      let reset_url = settings.frontend_base_url ++ (codes "/reset-password?token=" ++ raw_token) in
      record {
        to_email = to_email;
        sent = sent_or_mocked to_email (codes "Reset your BridgePay password") (
            codes "We received a request to reset your BridgePay password.\n\nReset your password: "
            ++ (reset_url
                ++ codes
                    "\n\nIf you didn't request this, you can ignore this email — your password won't change."));
      }

  -- To the sender of a transfer
  unfoldable pub send_transfer_confirmation : Str → Str → Str → Str → TransferConfirmation
  unfolding send_email is_configured
  send_transfer_confirmation transaction_id from_email to_email amount = record {
    transaction_id = transaction_id;
    from_email = from_email;
    to_email = to_email;
    amount = amount;
    notified = sent_or_mocked from_email (codes "Transfer confirmation") (
        codes "You sent "
        ++ (amount
            ++ (codes " to " ++ (to_email ++ (codes ".\n\nTransaction ID: " ++ transaction_id)))));
  }

  unfoldable pub send_notification_email : Str → Str → Str → Sent
  unfolding send_email is_configured
  send_notification_email to_email title body = record {
    to_email = to_email;
    sent = sent_or_mocked to_email title body;
  }
