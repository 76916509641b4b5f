-- ===== src/Integration/OauthState.antt =====
-- OAuthStateCodec of backend/bothesis/integrations/oauth_state.py. AES-GCM with the associated data,
-- HKDF, base64 and the JSON of a payload are parameters. A time is in microseconds.
pub mod RoundTrip
mod Tests
use bo_thesis.Base.Dict.{Dict, get}
use bo_thesis.Base.Result.{Result, ok, err, ◌>>=◌, require, ◌>>◌}
use bo_thesis.Base.{
  ℕ, zero, suc, ◌+◌, ◌-◌, ◌*◌, ◌/◌, ◌%◌, Bool, true, false, not, ◌||◌, Option, none, some, List, [],
  ◌∷◌, ◌++◌, Str, codes, strip, is_empty, length, take, drop, leb, ltb, nat_beq, list_eq, nat_eq,
  if◌then◌else◌,
}

pub record PendingAuthorization : Type 0 where
  pub tenant_id : Str
  pub user_id : Str
  pub provider_key : Str
  pub connector_key : Str
  pub owner_type : Str
  pub connection_id : Option Str
  pub code_verifier : Str
  pub nonce : Str

-- A value of the payload. `other` is any that is no text, None or whole number.
pub data PayloadValue : Type 0 where
  text : Str → PayloadValue
  null : PayloadValue
  whole : ℕ → PayloadValue
  other : Str → PayloadValue

abbrev pub Payload : Type 0
Payload = Dict Str PayloadValue

-- The libraries that the codec calls; `none` stands for an exception. `loads` gives `none` also
-- for JSON that is no object, which is refused alike.
pub record Codecs (K : Type 0) : Type 0 where
  pub derive : Str → K
  pub encrypt : K → (nonce : Str) → Str → Str
  pub decrypt : K → (nonce : Str) → Str → Option Str
  pub urlsafe_b64encode : Str → Str
  pub urlsafe_b64decode : Str → Option Str
  pub dumps : Payload → Str
  pub loads : Str → Option Payload

pub data StateError : Type 0 where
  not_configured state_invalid state_expired : StateError

-- OAuthStateCodec, with the secret as it was given
pub record OauthStateCodec : Type 0 where
  pub secret : Option Str
  pub lifetime_seconds : ℕ

abbrev pub max_state_bytes : ℕ
max_state_bytes = 2048

abbrev pub microseconds : ℕ
microseconds = 1000000

abbrev pub optional_text : Option Str → PayloadValue
optional_text none = null
optional_text (some t) = text t

-- `pending.nonce or secrets.token_urlsafe(16)`
abbrev pub nonce_or : Str → (token : Str) → Str
nonce_or [] token = token
nonce_or (c ∷ nonce) token = c ∷ nonce

-- s.rstrip("=")
unfoldable pub without_padding : Str → Str
without_padding [] = []
without_padding (c ∷ s) =
    let rest = without_padding s in
    if nat_beq c 61 then (if is_empty rest then [] else c ∷ rest) else c ∷ rest

-- "=" * n
abbrev pub padding : ℕ → Str
padding zero = []
padding (suc n) = 61 ∷ padding n

-- -n % 4
abbrev pub missing_padding : ℕ → ℕ
missing_padding n = (4 - n % 4) % 4

-- _required
unfoldable pub required_text : Payload → Str → Result StateError Str
unfolding get
required_text payload name = elim (get payload name) [
  | some (text (c ∷ value)) ↦ ok (c ∷ value)
  | _ ↦ err state_invalid
]

-- _optional
unfoldable pub optional_field : Payload → Str → Result StateError (Option Str)
unfolding get
optional_field payload name = elim (get payload name) [
  | none ↦ ok none
  | some null ↦ ok none
  | some (text (c ∷ value)) ↦ ok (some (c ∷ value))
  | _ ↦ err state_invalid
]

abbrev pub found : {A : Type 0} → Option A → Result StateError A
found none = err state_invalid
found (some a) = ok a

-- Any exception while the state is decoded makes it invalid, that of `_key` too.
abbrev pub as_invalid : {A : Type 0} → Result StateError A → Result StateError A
as_invalid (ok a) = ok a
as_invalid (err e) = err state_invalid

abbrev pub is_expired : (now : ℕ) → Option PayloadValue → Bool
is_expired now (some (whole seconds)) = leb (seconds * microseconds) now
is_expired now _ = true

-- The fields in the order of the constructor's arguments.
unfoldable pub pending_of : Payload → Result StateError PendingAuthorization
unfolding required_text optional_field
pending_of payload = required_text payload (codes "tenant_id") >>= λ tenant_id.
    required_text payload (codes "user_id") >>= λ user_id.
    required_text payload (codes "provider_key") >>= λ provider_key.
    required_text payload (codes "connector_key") >>= λ connector_key.
    required_text payload (codes "owner_type") >>= λ owner_type.
    optional_field payload (codes "connection_id") >>= λ connection_id.
    required_text payload (codes "code_verifier") >>= λ code_verifier.
    required_text payload (codes "nonce") >>= λ nonce. ok (record {
      tenant_id = tenant_id;
      user_id = user_id;
      provider_key = provider_key;
      connector_key = connector_key;
      owner_type = owner_type;
      connection_id = connection_id;
      code_verifier = code_verifier;
      nonce = nonce;
    })

abbrev pub secret_text : Option Str → Str
secret_text none = []
secret_text (some secret) = secret

module _ (codec : OauthStateCodec) where
  unfoldable pub stored_secret : Str
  stored_secret = strip (secret_text codec.secret)

  -- OAuthStateCodec.configured
  unfoldable pub is_configured : Bool
  unfolding stored_secret
  is_configured = not (is_empty stored_secret)

  -- The payload that `issue` encrypts.
  unfoldable pub payload_of : PendingAuthorization → (token : Str) → (now : ℕ) → Payload
  payload_of pending token now =
      (codes "tenant_id", text pending.tenant_id)
      ∷ ((codes "user_id", text pending.user_id)
          ∷ ((codes "provider_key", text pending.provider_key)
              ∷ ((codes "connector_key", text pending.connector_key)
                  ∷ ((codes "owner_type", text pending.owner_type)
                      ∷ ((codes "connection_id", optional_text pending.connection_id)
                          ∷ ((codes "code_verifier", text pending.code_verifier)
                              ∷ ((codes "nonce", text (nonce_or pending.nonce token))
                                  ∷ ((
                                    codes "exp",
                                    whole (now / microseconds + codec.lifetime_seconds),
                                  )
                                      ∷ []))))))))

  module _ {K : Type 0} (codecs : Codecs K) where
    -- _key
    unfoldable pub key : Result StateError K
    unfolding is_configured
    key = require is_configured not_configured >> ok (codecs.derive stored_secret)

    -- OAuthStateCodec.issue, with the random bytes and the random token it draws
    unfoldable pub issue :
        PendingAuthorization → (nonce token : Str) → (now : ℕ) → Result StateError Str
    unfolding key payload_of without_padding
    issue pending nonce token now = key >>= λ k. ok (
        without_padding (
          codecs.urlsafe_b64encode
            (nonce ++ codecs.encrypt k nonce (codecs.dumps (payload_of pending token now)))))

    unfoldable pub decoded : (normalized : Str) → Result StateError Payload
    unfolding key
    decoded normalized = as_invalid (
        found
          (codecs.urlsafe_b64decode (normalized ++ padding (missing_padding (length normalized))))
        >>= λ envelope. key >>= λ k.
            found (codecs.decrypt k (take 12 envelope) (drop 12 envelope)) >>= λ plaintext.
            found (codecs.loads plaintext))

    -- OAuthStateCodec.read
    unfoldable pub read : (state : Str) → (now : ℕ) → Result StateError PendingAuthorization
    unfolding decoded pending_of
    read state now =
        let normalized = strip state in
        require (not (is_empty normalized || ltb max_state_bytes (length normalized))) state_invalid
        >> (decoded normalized >>= λ payload.
            require (not (is_expired now (get payload (codes "exp")))) state_expired
            >> pending_of payload)
