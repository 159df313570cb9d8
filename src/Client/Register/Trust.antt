-- ===== src/Client/Register/Trust.antt =====
-- When the client lets its key go, whatever the service does.
use kassandra_service.Common.{
  ℕ, ◌≡◌, ◌⊎◌, Bool, not, ◌||◌, refl, true, false, List, [], ◌∷◌, some, take, drop, All, inl, inr,
  Bool-cases, Option-cases, ==_iff, if◌then◌else◌,
}
use kassandra_service.Common.Bytes.{from_le_bytes}
use kassandra_service.External.{External}
use kassandra_service.Messages.{Result, Result-cases, TlsCiphertext, AckType, ClientMsg, ServerMsg}
use kassandra_service.Ratls.{FmdKeyRegistration, initialize, encrypt_msg, sealed, new, client_send}
use kassandra_service.Process.{feed}
use kassandra_service.Process
use kassandra_service.Client.Register.{
  Answer, Quote, VerifyError, is_zero, verify_tdx, abort_tls, confirmed, send_key, connected,
  attested, reported, register_fmd_key_to_service, Run,
}
use Prim.Native.String.{String}

-- What the crate reads in a report that is accepted: the expected measurements, a signature that
-- holds if the feature `default` is on, and the nonce of the client, in the data that the report is
-- for.
abbrev pub IsTrusted :
    {P : Type 0} → Bool → (List ℕ → Result Quote P) → (Quote → Bool) → List ℕ → ℕ → List ℕ → Type 0
IsTrusted default_feature from_bytes verify report nonce user_data =
    (quote : Quote) × (from_bytes report ≡ Result.ok quote)
    × (is_zero quote.mrtd ≡ true)
    × (is_zero quote.rtmr0 ≡ true)
    × (is_zero quote.rtmr1 ≡ true)
    × ((default_feature ≡ false) ⊎ (verify quote ≡ true))
    × (from_le_bytes (take 8 (drop 32 quote.report_input_data)) ≡ nonce)
    × (quote.report_input_data ≡ user_data)

guarded :
    {A B : Type 0} (b : Bool) (r : Result A B) (x : B) (a : A)
    → (if b then r else Result.err x) ≡ Result.ok a
    → (b ≡ true) × (r ≡ Result.ok a)
guarded true r x a h = (refl, h)
guarded false r x a h = cc h

signed_or_off : (d v : Bool) → (not d || v) ≡ true → (d ≡ false) ⊎ (v ≡ true)
signed_or_off false v h = inl refl
signed_or_off true v h = inr h

verify_tdx-IsTrusted :
    {P : Type 0}
    → (default_feature : Bool) (from_bytes : List ℕ → Result Quote P) (verify : Quote → Bool)
      (report : List ℕ) (nonce : ℕ) (user_data : List ℕ)
    → verify_tdx default_feature from_bytes verify report nonce ≡ Result.ok user_data
    → IsTrusted default_feature from_bytes verify report nonce user_data
unfolding verify_tdx
verify_tdx-IsTrusted default_feature from_bytes verify report nonce user_data h =
    elim (Result-cases (from_bytes report)) [
      | inr (p, f) ↦ cc (rw (verify_tdx, f) at h)
      | inl (quote, f) ↦
          let (mrtd, h0) = guarded _ _ _ user_data (rw (verify_tdx, f) at h) in
          let (rtmr0, h1) = guarded _ _ _ user_data h0 in
          let (rtmr1, h2) = guarded _ _ _ user_data h1 in
          let (signed, h3) = guarded _ _ _ user_data h2 in
          let (fresh, h4) = guarded _ _ _ user_data h3 in
          (quote, f, mrtd, rtmr0, rtmr1, signed_or_off _ _ signed, (==_iff _ nonce).0 fresh, cc h4)
    ]

module _ (e : External) {P : Type 0} (default_feature : Bool) (from_bytes : List ℕ → Result Quote P)
    (verify : Quote → Bool) (verify_text : VerifyError P → String)
    (to_vec : FmdKeyRegistration e → List ℕ) (rng later : e.Rng) (nonce : ℕ)
    (key_reg : FmdKeyRegistration e) where
  abbrev pub client : Run e (verify_tdx default_feature from_bytes verify) verify_text to_vec
  client =
      register_fmd_key_to_service e (verify_tdx default_feature from_bytes verify) verify_text
        to_vec rng later nonce key_reg

  abbrev pub secret : e.EphemeralSecret
  secret = e.random_from_rng rng

  -- The first answer was a report that is accepted, over a public key with which the exchange
  -- contributes, and the ciphertext is the registration under the key that is shared with it.
  abbrev pub IsGuarded :
      List (Answer e (verify_tdx default_feature from_bytes verify) verify_text to_vec)
      → TlsCiphertext
      → Type 0
  IsGuarded answers cipher =
      (report : List ℕ) × (rest : List
        (Answer e (verify_tdx default_feature from_bytes verify) verify_text to_vec))
      × (user_data : List ℕ) × (answers ≡ Result.ok (ServerMsg.ratls report) ∷ rest)
      × IsTrusted default_feature from_bytes verify report nonce user_data
      × (e.was_contributory (e.diffie_hellman secret (take 32 user_data)) ≡ true)
      × (e.encrypt (e.diffie_hellman secret (take 32 user_data)) cipher.nonce (to_vec key_reg)
          ≡ some cipher.payload)

  -- A message that holds the key is guarded.
  abbrev pub IsSafe :
      List (Answer e (verify_tdx default_feature from_bytes verify) verify_text to_vec)
      → ClientMsg
      → Type 0
  IsSafe answers (ClientMsg.ratls_ack (AckType.success cipher)) = IsGuarded answers cipher
  IsSafe answers _ = Unit {0}

  confirmed_silent :
      (rest : List (Answer e (verify_tdx default_feature from_bytes verify) verify_text to_vec))
      → (feed
          (Process.read
            (confirmed e (verify_tdx default_feature from_bytes verify) verify_text to_vec))
          rest).0
        ≡ []
  unfolding feed confirmed
  confirmed_silent [] = refl
  confirmed_silent (Result.ok ServerMsg.key_reg_success ∷ rest) = refl
  confirmed_silent (Result.ok (ServerMsg.error msg) ∷ rest) = refl
  confirmed_silent (Result.ok _ ∷ rest) = refl
  confirmed_silent (Result.err x ∷ rest) = refl

  -- What is sent once the report was looked at.
  attested-IsSafe :
      (report : List ℕ)
      (rest : List (Answer e (verify_tdx default_feature from_bytes verify) verify_text to_vec))
      (v : Result (List ℕ) (VerifyError P))
      → verify_tdx default_feature from_bytes verify report nonce ≡ v
      → All
          (IsSafe (Result.ok (ServerMsg.ratls report) ∷ rest))
          (feed
            (attested e
              (verify_tdx default_feature from_bytes verify)
              verify_text
              to_vec
              (new e rng)
              key_reg
              later
              v)
            rest).0
  unfolding feed attested abort_tls new connected send_key initialize encrypt_msg sealed
  attested-IsSafe report rest (Result.err x) h = (tt, tt)
  attested-IsSafe report rest (Result.ok user_data) h =
      elim (Bool-cases (e.was_contributory shared)) [
        | inr c ↦ rw c (tt, tt)
        | inl c ↦
            elim (Option-cases (e.encrypt shared (e.fill_bytes 12 later).0 (to_vec key_reg))) [
              | inl n ↦ rw (c, connected, n, sealed) tt
              | inr (payload, n) ↦
                  rw (c, connected, n, sealed, confirmed_silent rest)
                    (
                      (
                        report,
                        rest,
                        user_data,
                        refl,
                        verify_tdx-IsTrusted default_feature from_bytes verify report nonce
                            user_data h,
                        c,
                        n,
                      ),
                      tt,
                    )
            ]
      ]
    where
      shared : List ℕ
      shared = e.diffie_hellman secret (take 32 user_data)

  -- Whatever the service answers, the client of a TDX enclave writes no message that holds its key
  -- but the encryption of the registration under the secret that it shares with the public key of a
  -- report, the first answer, whose measurements are the expected ones and which has the nonce of
  -- this session. The signature of the report holds if the client was built with the feature
  -- `default`; without it, as a TDX client is built, nothing is said of the signature.
  pub register-IsSafe :
      (answers : List (Answer e (verify_tdx default_feature from_bytes verify) verify_text to_vec))
      → All (IsSafe answers) (feed client answers).0
  unfolding register_fmd_key_to_service client_send new feed reported
  register-IsSafe [] = (tt, tt)
  register-IsSafe (Result.err x ∷ rest) = (tt, tt)
  register-IsSafe (Result.ok (ServerMsg.ratls report) ∷ rest) = (
    tt,
    attested-IsSafe report rest (verify_tdx default_feature from_bytes verify report nonce) refl,
  )
  register-IsSafe (Result.ok (ServerMsg.error x) ∷ rest) = (tt, tt)
  register-IsSafe (Result.ok _ ∷ rest) = (tt, tt)
