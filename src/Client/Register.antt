-- ===== src/Client/Register.antt =====
-- client/src/ratls.rs: the client's side of a key registration, with the check of the report of
-- client/src/transparent.rs and client/src/tdx.rs.
pub mod Handshake
pub mod Trust
use kassandra_service.Common.{
  ℕ, ◌+◌, Bool, true, false, not, ◌||◌, List, [], ◌∷◌, Option, none, some, Outcome, ok, panic, ◌==◌,
  if◌then◌else◌, length, take, drop,
}
use kassandra_service.Common.Bytes.{from_le_bytes}
use kassandra_service.External.{External}
use kassandra_service.Messages.{Result, TlsCiphertext, AckType, ClientMsg, ServerMsg}
use kassandra_service.Ratls.{
  RatlsError, FmdKeyRegistration, Connection, new, initialize, encrypt_msg, client_send,
}
use kassandra_service.Client.Query.{Error}
use kassandra_service.Enclave.{ratls_text}
use kassandra_service.Process.{Proc, ret, read, write, crash}
use Prim.Native.String.{String}

-- `VerifyError` of the transparent client.
pub data UserData : Type 0 where
  user_data : UserData

-- `TClient::verify_quote`: the report is the data itself, and the nonce is not looked at.
unfoldable pub verify_transparent : List ℕ → ℕ → Result (List ℕ) UserData
verify_transparent report nonce =
    if length report == 64 then Result.ok report else Result.err user_data

-- What the crate `tdx_quote` reads in a quote; the measurements are given as hex.
pub record Quote : Type 0 where
  pub mrtd : List ℕ
  pub rtmr0 : List ℕ
  pub rtmr1 : List ℕ
  pub report_input_data : List ℕ

pub data VerifyError (P : Type 0) : Type 0 where
  quote_parse : P → VerifyError P
  unexpected_mrtd : VerifyError P
  unexpected_rtmr0 : VerifyError P
  unexpected_rtmr1 : VerifyError P
  verification : VerifyError P
  wrong_nonce : ℕ → ℕ → VerifyError P

-- Whether a measurement of 48 bytes is the expected one, all zeros.
unfoldable pub is_zero : List ℕ → Bool
is_zero [] = true
is_zero (b ∷ bs) = let rest = is_zero bs in if b == 0 then rest else false

-- `TdxClient::verify_quote`; `from_bytes` and `verify` are those of the crate, and the signature is
-- only verified if the feature `default` is on.
unfoldable pub verify_tdx :
    {P : Type 0}
    → Bool
    → (List ℕ → Result Quote P)
    → (Quote → Bool)
    → List ℕ
    → ℕ
    → Result (List ℕ) (VerifyError P)
unfolding is_zero
verify_tdx default_feature from_bytes verify report expected = elim (from_bytes report) [
  | Result.err p ↦ Result.err (quote_parse p)
  | Result.ok quote ↦
      let ra_nonce = from_le_bytes (take 8 (drop 32 quote.report_input_data)) in
      if is_zero quote.mrtd
      then (if is_zero quote.rtmr0
          then (if is_zero quote.rtmr1
              then (if not default_feature || verify quote
                  then (if ra_nonce == expected
                      then Result.ok quote.report_input_data
                      else Result.err (wrong_nonce expected ra_nonce))
                  else Result.err verification)
              else Result.err unexpected_rtmr1)
          else Result.err unexpected_rtmr0)
      else Result.err unexpected_mrtd
]

module _ (e : External) {V : Type 0} (verify_quote : List ℕ → ℕ → Result (List ℕ) V)
    (verify_text : V → String) (to_vec : FmdKeyRegistration e → List ℕ) where
  -- What the client reads.
  abbrev pub Answer : Type 0
  Answer = Result ServerMsg Error

  abbrev pub Run : Type 0
  Run = Proc Answer ClientMsg (Result (Unit {0}) Error)

  unfoldable pub abort_tls : String → Run
  abort_tls msg = write (ClientMsg.ratls_ack AckType.fail) (ret (Result.err (Error.ratls msg)))

  unfoldable pub confirmed : Answer → Run
  confirmed (Result.ok ServerMsg.key_reg_success) = ret (Result.ok tt)
  confirmed (Result.ok (ServerMsg.error msg)) = ret (Result.err (Error.server_error msg))
  confirmed _ = ret (Result.err (Error.server_error "Received unexpected message from service"))

  unfoldable pub send_key : Outcome (Result TlsCiphertext (RatlsError e.CborError)) → Run
  unfolding confirmed
  send_key (ok (Result.ok cipher)) =
      write (ClientMsg.ratls_ack (AckType.success cipher)) (read confirmed)
  send_key (ok (Result.err x)) = crash
  send_key panic = crash

  unfoldable pub connected :
      FmdKeyRegistration e → e.Rng → Result (Connection e) (RatlsError e.CborError) → Run
  unfolding send_key abort_tls
  connected key_reg rng (Result.err x) = abort_tls (ratls_text e x)
  connected key_reg rng (Result.ok conn) = send_key (encrypt_msg e conn (to_vec key_reg) rng).0

  unfoldable pub attested : Connection e → FmdKeyRegistration e → e.Rng → Result (List ℕ) V → Run
  unfolding connected abort_tls
  attested conn key_reg rng (Result.err x) = abort_tls (verify_text x)
  attested conn key_reg rng (Result.ok report_data) =
      connected key_reg rng (initialize e conn (take 32 report_data))

  unfoldable pub reported : Connection e → ℕ → FmdKeyRegistration e → e.Rng → Answer → Run
  unfolding attested
  reported conn nonce key_reg rng (Result.ok (ServerMsg.ratls report)) =
      attested conn key_reg rng (verify_quote report nonce)
  reported conn nonce key_reg rng (Result.ok (ServerMsg.error err)) =
      ret (Result.err (Error.server_error err))
  reported conn nonce key_reg rng _ = ret (
      Result.err (
        Error.server_error
          "Establishing RA-TLS connection failed: Could not parse service response as RA report."))

  unfoldable pub greeting : Result ClientMsg (RatlsError e.CborError) → (Answer → Run) → Run
  greeting (Result.ok msg) next = write msg (read next)
  greeting (Result.err x) next = crash

  -- `register_fmd_key_to_service`, once the socket is open: the secret is drawn from `rng`, `nonce` is
  -- the next number drawn, and `later` is the generator behind both.
  unfoldable pub register_fmd_key_to_service : e.Rng → e.Rng → ℕ → FmdKeyRegistration e → Run
  unfolding greeting reported
  register_fmd_key_to_service rng later nonce key_reg =
      greeting (client_send e (new e rng) nonce) (reported (new e rng) nonce key_reg later)
