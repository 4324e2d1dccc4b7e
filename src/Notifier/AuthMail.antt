-- ===== src/Notifier/AuthMail.antt =====
-- internal/notifier/auth_mail.go: the account emails.
use ticket_watcher.Prelude.{[], String, ◌<>◌}
use ticket_watcher.World.{Message}

-- VerificationMessage
abbrev pub verification_message : String → String → Message
verification_message to link = record {
  to = to;
  subject = "Confirm your email — TicketWatcher";
  html_body =
      "<h2>Confirm your email</h2><p>Confirm your address to start receiving ticket alerts.</p><p><a href=\""
      <> link
      <> "\">Verify my email →</a></p><p style=\"color:#666;font-size:13px\">This link expires in 24 hours. If you didn't create this account, you can ignore this email.</p>";
  text_body =
      "Confirm your email to start receiving ticket alerts:\n\n" <> link
      <> "\n\nThis link expires in 24 hours. If you didn't create this account, ignore this email.";
  headers = [];
}

-- PasswordResetMessage
abbrev pub password_reset_message : String → String → Message
password_reset_message to link = record {
  to = to;
  subject = "Reset your password — TicketWatcher";
  html_body =
      "<h2>Reset your password</h2><p><a href=\"" <> link
      <> "\">Choose a new password →</a></p><p style=\"color:#666;font-size:13px\">This link expires in 1 hour and can be used once. If you didn't request a reset, ignore this email — your password is unchanged.</p>";
  text_body =
      "Reset your TicketWatcher password:\n\n" <> link
      <> "\n\nThis link expires in 1 hour and can be used once. If you didn't request a reset, ignore this email — your password is unchanged.";
  headers = [];
}
