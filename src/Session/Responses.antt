-- ===== src/Session/Responses.antt =====
-- Responses and requests through a frame.
use sia_satellite.Wire.{good, Wire, State, IsSpecifier, IsShort, WireLaws}
use sia_satellite.Prelude.{
  ℕ, ◌+◌, ◌^◌, ◌≤◌, ◌<◌, ◌≡◌, refl, ap, inl, inr, some, List, [], ◌++◌, append_assoc, arith, length,
}
use sia_satellite.Session.Frames.{read_message-write_message}
use sia_satellite.Session.{
  Aead, AeadLaws, write_message, put_rpc_error, get_rpc_error, success, put_rpc_response,
  get_rpc_response, error_response, response, remote_error, outcome, read_response,
}

module _ (w : Wire) (laws : WireLaws w) where
  error_read :
      {A : Type 0} (p : State A) (f : A → List ℕ → List ℕ) (description rest : List ℕ)
      → IsShort description
      → (get_rpc_response w p
          (good (put_rpc_response w f (error_response (some description)) [] ++ rest))).0
        ≡ inl (record { kind = 0; detail = []; description = description })
  unfolding put_rpc_response get_rpc_response put_rpc_error get_rpc_error
  error_read p f description rest short =
      let zero_kind : IsSpecifier 0 = omega arith in
      let zero_detail : IsShort [] = omega arith in
      simp
        (
          append_assoc, laws.flag, laws.specifier, laws.bytes, laws.text, zero_kind, zero_detail,
          short,
        )
        refl

  success_read :
      {A : Type 0} (p : State A) (f : A → List ℕ → List ℕ) (v : A) (rest : List ℕ)
      → (p (good (f v [] ++ rest))).0 ≡ v
      → (get_rpc_response w p (good (put_rpc_response w f (success v) [] ++ rest))).0 ≡ inr v
  unfolding put_rpc_response get_rpc_response
  success_read p f v rest h = simp (append_assoc, laws.flag, h) refl

  module _ (a : Aead) (aead : AeadLaws a) where
    -- What a party writes as a response, the other reads: the data, if the data's reader undoes its
    -- writer whatever padding follows, and of an error the description. The nonce has its size, the
    -- frame does not exceed the limit, and neither does the limit 63 bits.
    pub read_response-write_message :
        {A : Type 0} (p : State A) (f : A → List ℕ → List ℕ) (padding : ℕ → List ℕ)
        (nonce more description : List ℕ) (v : A) (max_len : ℕ)
        → length nonce ≡ a.nonce_size
        → ((n : ℕ) → length (padding n) ≡ n)
        → ((rest : List ℕ) → (p (good (f v [] ++ rest))).0 ≡ v)
        → IsShort description
        → a.nonce_size + length (put_rpc_response w f (success v) []) + a.overhead ≤ max_len
        → a.nonce_size
            + length (put_rpc_response w f (error_response (some description)) [])
            + a.overhead
          ≤ max_len
        → max_len < 2 ^ 63
        → (read_response w a p max_len
              (write_message w a padding nonce (put_rpc_response w f (success v) []) ++ more)
            ≡ response v)
          × (read_response w a p max_len (
                write_message w a padding nonce
                  (put_rpc_response w f (error_response (some description)) [])
                ++ more)
              ≡ remote_error (record { kind = 0; detail = []; description = description }))
    unfolding read_response
    read_response-write_message p f padding nonce more description v max_len sized pads reads short
          fits fits_error bounded =
        (
          ap outcome (
              read_message-write_message w laws a aead (get_rpc_response w p) padding nonce
                (put_rpc_response w f (success v) []) more (inr v) max_len sized pads
                (λ rest. success_read p f v rest (reads rest)) fits bounded),
          ap outcome (
              read_message-write_message w laws a aead (get_rpc_response w p) padding nonce
                (put_rpc_response w f (error_response (some description)) []) more
                (inl (record { kind = 0; detail = []; description = description })) max_len sized
                pads (λ rest. error_read p f description rest short) fits_error bounded),
        )
