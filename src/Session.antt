-- ===== src/Session.antt =====
-- modules/rpc.go: messages in sealed frames, and the responses. The cipher, the nonce, the hash and what
-- the unused part of a buffer holds are parameters.
pub mod Frames
pub mod Responses
pub mod Requests
pub mod Handshake
pub mod Examples
use sia_satellite.Wire.{Decoder, good, failed, put, Wire, State, ◌>>=◌, pure}
use sia_satellite.Prelude.{
  ℕ, ◌+◌, ◌-◌, ◌≤◌, max, ◌≡◌, ◌⊎◌, inl, inr, true, false, Option, none, some, List, [], ◌++◌, ltb,
  if◌then◌else◌, length, take, drop,
}

-- cipher.AEAD
pub record Aead : Type 0 where
  pub nonce_size : ℕ
  pub overhead : ℕ
  pub seal : List ℕ → List ℕ → List ℕ
  pub unseal : List ℕ → List ℕ → Option (List ℕ)

pub record AeadLaws (a : Aead) : Type 0 where
  pub length-seal : (nonce plain : List ℕ) → length (a.seal nonce plain) ≡ length plain + a.overhead
  pub unseal-seal : (nonce plain : List ℕ) → a.unseal nonce (a.seal nonce plain) ≡ some plain
  pub small : a.nonce_size + a.overhead ≤ 64

-- MinMessageSize
abbrev pub min_message_size : ℕ
min_message_size = 4096

pub data MessageError : Type 0 where
  unreadable too_large too_small not_authentic : MessageError

pub data Received (A : Type 0) : Type 0 where
  received : A → Received A
  refused : MessageError → Received A

-- The length of the frame that `WriteMessage` sends for a body of this length.
abbrev pub frame_size : Aead → ℕ → ℕ
frame_size a body = max min_message_size (8 + a.nonce_size + body + a.overhead)

-- What lies between the body and the end of the sealed part.
abbrev pub padding_size : Aead → ℕ → ℕ
padding_size a body = frame_size a body - a.overhead - (8 + a.nonce_size + body)

-- `WriteMessage`: the frame for an encoded body.
unfoldable pub write_message : Wire → Aead → (ℕ → List ℕ) → List ℕ → List ℕ → List ℕ
write_message w a padding nonce body =
    put w.word (frame_size a (length body) - 8)
      (nonce ++ a.seal nonce (body ++ padding (padding_size a (length body))))

-- The part of `ReadMessage` behind the checks of the size. An error of the message's own decoder is
-- not looked at.
unfoldable pub open_message : {A : Type 0} → Aead → State A → List ℕ → Received A
open_message a p ciphertext =
    elim (a.unseal (take a.nonce_size ciphertext) (drop a.nonce_size ciphertext)) [
      | none ↦ refused not_authentic
      | some plain ↦ received (p (good plain)).0
    ]

abbrev pub opened : {A : Type 0} → Aead → State A → List ℕ × Decoder → Received A
opened a p (ciphertext, failed) = refused unreadable
opened a p (ciphertext, good _) = open_message a p ciphertext

unfoldable pub read_sized : {A : Type 0} → Wire → Aead → State A → ℕ → ℕ → List ℕ → Received A
read_sized w a p max_len size left =
    if ltb max_len size
    then refused too_large
    else if ltb size (a.nonce_size + a.overhead)
    then refused too_small
    else opened a p (w.raw size (good left))

abbrev pub measured : {A : Type 0} → Wire → Aead → State A → ℕ → ℕ × Decoder → Received A
measured w a p max_len (size, failed) = refused unreadable
measured w a p max_len (size, good left) = read_sized w a p max_len size left

-- `ReadMessage`: the decoder sees no more than the limit of the connection's bytes.
unfoldable pub read_message : {A : Type 0} → Wire → Aead → State A → ℕ → List ℕ → Received A
read_message w a p max_len incoming =
    measured w a p (max min_message_size max_len)
      (w.word.get (good (take (8 + max min_message_size max_len) incoming)))

-- `ReadRequest`: the hash is that of the message, encoded again.
abbrev pub hashed :
    {A : Type 0} → (List ℕ → ℕ) → (A → List ℕ → List ℕ) → Received A → Received (A × ℕ)
hashed hash f (refused e) = refused e
hashed hash f (received r) = received (r, hash (f r []))

unfoldable pub read_request :
    {A : Type 0}
    → Wire
    → Aead
    → (List ℕ → ℕ)
    → State A
    → (A → List ℕ → List ℕ)
    → ℕ
    → List ℕ
    → Received (A × ℕ)
unfolding read_message
read_request w a hash p f max_len incoming = hashed hash f (read_message w a p max_len incoming)

-- RPCError
pub record RpcError : Type 0 where
  pub kind : ℕ
  pub detail : List ℕ
  pub description : List ℕ

unfoldable pub put_rpc_error : Wire → RpcError → List ℕ → List ℕ
put_rpc_error w r rest =
    put w.specifier r.kind (put w.bytes r.detail (put w.text r.description rest))

unfoldable pub get_rpc_error : Wire → State RpcError
get_rpc_error w = do
  kind ← w.specifier.get
  detail ← w.bytes.get
  description ← w.text.get
  pure (record { kind = kind; detail = detail; description = description })

-- RPCResponse; a response without an error may have no data to send.
pub data RpcResponse (A : Type 0) : Type 0 where
  failure : RpcError → RpcResponse A
  success : A → RpcResponse A
  nothing : RpcResponse A

unfoldable pub put_rpc_response :
    {A : Type 0} → Wire → (A → List ℕ → List ℕ) → RpcResponse A → List ℕ → List ℕ
unfolding put_rpc_error
put_rpc_response w f (failure e) rest = put w.flag true (put_rpc_error w e rest)
put_rpc_response w f (success a) rest = put w.flag false (f a rest)
put_rpc_response w f nothing rest = put w.flag false rest

unfoldable pub get_rpc_response : {A : Type 0} → Wire → State A → State (RpcError ⊎ A)
unfolding get_rpc_error
get_rpc_response w p = do
  is_error ← w.flag.get
  if is_error then (get_rpc_error w >>= λ e. pure (inl e)) else (p >>= λ a. pure (inr a))

-- `WriteError`: an error has a description only, and no error is an empty response.
abbrev pub error_response : {A : Type 0} → Option (List ℕ) → RpcResponse A
error_response none = nothing
error_response (some description) =
    failure (record { kind = 0; detail = []; description = description })

-- `ReadResponse`: the data, or the error that was sent.
pub data Response (A : Type 0) : Type 0 where
  response : A → Response A
  remote_error : RpcError → Response A
  broken : MessageError → Response A

abbrev pub outcome : {A : Type 0} → Received (RpcError ⊎ A) → Response A
outcome (refused e) = broken e
outcome (received (inl e)) = remote_error e
outcome (received (inr a)) = response a

unfoldable pub read_response : {A : Type 0} → Wire → Aead → State A → ℕ → List ℕ → Response A
unfolding read_message get_rpc_response
read_response w a p max_len incoming =
    outcome (read_message w a (get_rpc_response w p) max_len incoming)
