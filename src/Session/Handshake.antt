-- ===== src/Session/Handshake.antt =====
-- provider/network.go: the handshake of `threadedHandleConn`, and the messages of provider/encoding.go
-- that it exchanges. The key pair, the signature, the shared secret and the challenge are parameters.
use sia_satellite.Wire.{
  Decoder, good, failed, put, Wire, State, ◌>>=◌, pure, put_list, get_list, IsKey, IsSpecifier,
  WireLaws,
}
use sia_satellite.Prelude.{
  ℕ, ◌^◌, ◌≤◌, ◌<◌, ◌≡◌, refl, sym, ap, ◌∙◌, subst, ◌≢◌, inl, inr, Bool, true, false, not, List, [],
  arith, ◌==◌, if◌then◌else◌, ==_iff, Bool-cases, length, take, take-all, All, any,
}
use sia_satellite.Wire.Lists.{put-Advances, get_list-put_list}

-- loopEnterSpecifier, cipherChaCha20Poly1305 and cipherNoOverlap
pub record Specifiers : Type 0 where
  pub loop_enter : ℕ
  pub cha_cha : ℕ
  pub no_overlap : ℕ

-- What the session's cryptography answers.
pub record Keys : Type 0 where
  pub public_key : ℕ
  pub sign : ℕ → ℕ
  pub shared_secret : ℕ → ℕ

pub record LoopKeyExchangeRequest : Type 0 where
  pub specifier : ℕ
  pub public_key : ℕ
  pub ciphers : List ℕ

unfoldable pub get_loop_key_exchange_request : Wire → State LoopKeyExchangeRequest
get_loop_key_exchange_request w = do
  specifier ← w.specifier.get
  public_key ← w.key.get
  ciphers ← get_list w w.specifier.get
  pure (record { specifier = specifier; public_key = public_key; ciphers = ciphers })

-- What a renter sends.
unfoldable pub put_loop_key_exchange_request : Wire → LoopKeyExchangeRequest → List ℕ → List ℕ
put_loop_key_exchange_request w r rest =
    put w.specifier r.specifier
      (put w.key r.public_key (put_list w (put w.specifier) r.ciphers rest))

pub record LoopKeyExchangeResponse : Type 0 where
  pub public_key : ℕ
  pub signature : ℕ
  pub cipher : ℕ

-- The signature is written with the count of a string of bytes before it.
unfoldable pub put_loop_key_exchange_response : Wire → LoopKeyExchangeResponse → List ℕ → List ℕ
put_loop_key_exchange_response w r rest =
    put w.key r.public_key
      (put w.bytes (w.signature.layout r.signature) (put w.specifier r.cipher rest))

-- How a handshake ends, with what has been sent. An encoder sends when it is flushed.
pub data Handshake : Type 0 where
  unreadable wrong_specifier no_common_cipher : List ℕ → Handshake
  agreed : List ℕ → ℕ → Handshake

abbrev pub sent : Handshake → List ℕ
sent (unreadable out) = out
sent (wrong_specifier out) = out
sent (no_common_cipher out) = out
sent (agreed out secret) = out

abbrev pub supports_cha_cha : Specifiers → LoopKeyExchangeRequest → Bool
supports_cha_cha s r = any (λ c. c == s.cha_cha) r.ciphers

-- The checks of a request that could be read. The response without a common cipher is encoded, but the
-- encoder is not flushed.
abbrev pub answer : Wire → Specifiers → Keys → LoopKeyExchangeRequest → Handshake
answer w s k r =
    if not (r.specifier == s.loop_enter)
    then wrong_specifier []
    else if not (supports_cha_cha s r)
    then no_common_cipher []
    else agreed
        (put_loop_key_exchange_response w
          (record {
            public_key = k.public_key;
            signature = k.sign r.public_key;
            cipher = s.cha_cha;
          })
          [])
        (k.shared_secret r.public_key)

abbrev pub answered : Wire → Specifiers → Keys → LoopKeyExchangeRequest × Decoder → Handshake
answered w s k (r, failed) = unreadable []
answered w s k (r, good _) = answer w s k r

-- The decoder sees no more than 1024 bytes.
unfoldable pub handshake : Wire → Specifiers → Keys → List ℕ → Handshake
unfolding get_loop_key_exchange_request
handshake w s k incoming =
    answered w s k (get_loop_key_exchange_request w (good (take 1024 incoming)))

pub record LoopKeyExchangeRequestFits (r : LoopKeyExchangeRequest) : Type 0 where
  pub specifier : IsSpecifier r.specifier
  pub public_key : IsKey r.public_key
  pub ciphers : All IsSpecifier r.ciphers
  pub few_ciphers : length r.ciphers < 2 ^ 63

-- How the provider should answer a request, by what it offers.
abbrev pub Answers : Wire → Specifiers → Keys → LoopKeyExchangeRequest → Handshake → Type 0
Answers w s k r (unreadable out) = ⊥
Answers w s k r (wrong_specifier out) = (out ≡ []) × (r.specifier ≢ s.loop_enter)
Answers w s k r (no_common_cipher out) =
    (out ≡ []) × (r.specifier ≡ s.loop_enter) × (supports_cha_cha s r ≡ false)
Answers w s k r (agreed out secret) =
    (out
      ≡ put_loop_key_exchange_response w
          (record {
            public_key = k.public_key;
            signature = k.sign r.public_key;
            cipher = s.cha_cha;
          })
          [])
    × (secret ≡ k.shared_secret r.public_key)
    × (r.specifier ≡ s.loop_enter)
    × (supports_cha_cha s r ≡ true)

answer-Answers :
    (w : Wire) (s : Specifiers) (k : Keys) (r : LoopKeyExchangeRequest)
    → Answers w s k r (answer w s k r)
answer-Answers w s k r = elim (Bool-cases (r.specifier == s.loop_enter)) [
  | inr b ↦ rw b (refl, λ e. ground (arith, b, e))
  | inl b ↦ elim (Bool-cases (supports_cha_cha s r)) [
    | inr c ↦ rw (b, c) (refl, (==_iff r.specifier s.loop_enter).0 b, c)
    | inl c ↦ rw (b, c) (refl, refl, (==_iff r.specifier s.loop_enter).0 b, c)
  ]
]

module _ (w : Wire) (laws : WireLaws w) where
  loop_key_exchange_request-Undoes :
      (r : LoopKeyExchangeRequest) (rest : List ℕ)
      → LoopKeyExchangeRequestFits r
      → get_loop_key_exchange_request w (good (put_loop_key_exchange_request w r rest))
        ≡ (r, good rest)
  unfolding put_loop_key_exchange_request get_loop_key_exchange_request
  loop_key_exchange_request-Undoes r rest fits =
      simp
        (
          laws.specifier,
          laws.key,
          get_list-put_list w laws IsSpecifier (put w.specifier) w.specifier.get laws.specifier
              (λ c rest.
                put-Advances (w.specifier.layout c) rest (omega (arith, laws.specifier_size c))),
          fits.specifier,
          fits.public_key,
          fits.ciphers,
          fits.few_ciphers,
        )
        refl

  -- A request that fits the wire and 1024 bytes, with nothing after it, is answered by what it offers:
  -- only one with the right specifier and a common cipher is agreed on, and gets the response with our
  -- key, the signature and the cipher; the secret is the shared one of its public key. To the others nothing is sent, not even that there is no common cipher.
  pub handshake-Answers :
      (s : Specifiers) (k : Keys) (r : LoopKeyExchangeRequest)
      → LoopKeyExchangeRequestFits r
      → length (put_loop_key_exchange_request w r []) ≤ 1024
      → Answers w s k r (handshake w s k (put_loop_key_exchange_request w r []))
  unfolding handshake
  handshake-Answers s k r fits small =
      let whole = take-all 1024 (put_loop_key_exchange_request w r []) small in
      let read =
        ap (λ i. answered w s k (get_loop_key_exchange_request w (good i))) whole
        ∙ ap (answered w s k) (loop_key_exchange_request-Undoes r [] fits) in
      subst (Answers w s k r) (sym read) (answer-Answers w s k r)
