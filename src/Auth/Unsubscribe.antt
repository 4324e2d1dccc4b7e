-- ===== src/Auth/Unsubscribe.antt =====
-- internal/auth/unsubscribe.go: the opt-out token.
use ticket_watcher.Prelude.{
  ap, arith, ℕ, ◌<◌, ◌^◌, ◌≡◌, refl, false, not, Bool-cases, inl, inr, Option, none, some, String,
  ◌<>◌, str_eq, str_eq_self, str_eq_iff, if◌then◌else◌,
}
use ticket_watcher.Prelude.Outcome.{Outcome, ok, err}
use ticket_watcher.Prelude.Text.{append, cut, cut-append, has_char}

pub data TokenError : Type 0 where
  invalid_unsubscribe_token : TokenError

-- What the token uses of Go: `strconv.FormatInt(n, 10)` and `ParseInt(s, 10, 64)`, and the MAC, an
-- HMAC in base64. The id is an int64: ParseInt fails on a number from 2^63 on.
pub record Signer : Type 0 where
  pub format_int : ℕ → String
  pub parse_int : String → Option ℕ
  pub hmac : String → String → String

module _ (g : Signer) where
  -- unsubscribeMAC
  abbrev pub unsubscribe_mac : String → String → String
  unsubscribe_mac secret id = g.hmac secret ("unsubscribe:" <> id)

  -- NewUnsubscribeToken
  abbrev pub new_unsubscribe_token : String → ℕ → String
  new_unsubscribe_token secret user_id =
      let id = g.format_int user_id in append id (append "." (unsubscribe_mac secret id))

  abbrev pub parsed_id : Option ℕ → Outcome TokenError ℕ
  parsed_id none = err invalid_unsubscribe_token
  parsed_id (some user_id) = ok user_id

  abbrev pub parse_parts : String → Option (String × String) → Outcome TokenError ℕ
  parse_parts secret none = err invalid_unsubscribe_token
  parse_parts secret (some (id, mac)) =
      if not (str_eq mac (unsubscribe_mac secret id))
      then err invalid_unsubscribe_token
      else parsed_id (g.parse_int id)

  -- ParseUnsubscribeToken
  abbrev pub parse_unsubscribe_token : String → String → Outcome TokenError ℕ
  parse_unsubscribe_token secret token = parse_parts secret (cut 46 token)

  -- What Go promises of decimal numbers: no digit is a dot, a number of 64 bits with a sign reads
  -- back, and nothing else is read.
  pub record IsDecimal : Type 0 where
    pub no_dot : (n : ℕ) → has_char 46 (g.format_int n) ≡ false
    pub reads_back : (n : ℕ) → n < 2 ^ 63 → g.parse_int (g.format_int n) ≡ some n
    pub in_range : (s : String) (n : ℕ) → g.parse_int s ≡ some n → n < 2 ^ 63

-- A token that the program made is read back as the user it was made for, under the same secret. The
-- id is one of an int64; Go's decimal numbers of that type read back, and have no dot.
pub parse_unsubscribe_token-new :
    (g : Signer) (secret : String) (user_id : ℕ)
    → IsDecimal g
    → user_id < 2 ^ 63
    → parse_unsubscribe_token g secret (new_unsubscribe_token g secret user_id) ≡ ok user_id
parse_unsubscribe_token-new g secret user_id d range =
    let id = g.format_int user_id in
    rw
      (
        cut-append 46 "." id (unsubscribe_mac g secret id) refl (d.no_dot user_id),
        str_eq_self (unsubscribe_mac g secret id),
        d.reads_back user_id range,
      )
      refl

parsed_id-ok :
    (g : Signer) (o : Option ℕ) (user_id : ℕ) → parsed_id g o ≡ ok user_id → o ≡ some user_id
parsed_id-ok g none user_id h = ground (arith, h)
parsed_id-ok g (some n) user_id h = cc

parse_parts-ok :
    (g : Signer) (secret : String) (o : Option (String × String)) (user_id : ℕ)
    → parse_parts g secret o ≡ ok user_id
    → (id : String) × (o ≡ some (id, unsubscribe_mac g secret id)) × (g.parse_int id ≡ some user_id)
parse_parts-ok g secret none user_id h = ground (arith, h)
parse_parts-ok g secret (some (id, mac)) user_id h =
    elim (Bool-cases (str_eq mac (unsubscribe_mac g secret id))) [
      | inl e ↦
          let same = (str_eq_iff mac (unsubscribe_mac g secret id)).0 e in
          (id, ap (λ m. some (id, m)) same, parsed_id-ok g (g.parse_int id) user_id (rw e at h))
      | inr e ↦ ground (arith, rw e at h)
    ]

-- Nothing else is accepted: a token that is read as a user is a number of that user and the MAC of that
-- number under the secret, with a dot between them.
pub parse_unsubscribe_token-signed :
    (g : Signer) (secret token : String) (user_id : ℕ)
    → parse_unsubscribe_token g secret token ≡ ok user_id
    → (id : String) × (cut 46 token ≡ some (id, unsubscribe_mac g secret id))
      × (g.parse_int id ≡ some user_id)
parse_unsubscribe_token-signed g secret token user_id h =
    parse_parts-ok g secret (cut 46 token) user_id h
