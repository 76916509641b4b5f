-- ===== src/Integration/OauthState/RoundTrip.antt =====
-- Reading a state that was issued, backend/bothesis/integrations/oauth_state.py.
use Prim.{absurd}
use mathlib.Core.Path.{subst}
use bo_thesis.Base.Dict.{get}
use bo_thesis.Base.Result.{Result, ok, err, require, ◌>>◌}
use bo_thesis.Base.{
  ℕ, zero, suc, ◌+◌, ◌*◌, ◌/◌, ◌%◌, ◌≤◌, ◌<◌, ◌≡◌, ◌≢◌, refl, sym, ap, ◌∙◌, Bool, true, false, not,
  ◌&&◌, ◌||◌, Option, none, some, List, [], ◌∷◌, ◌++◌, Str, codes, strip, is_empty, length,
  length-append, take, drop, All, All-map, is_space, strip-plain, leb, ltb, nat_beq, list_eq,
  nat_eq, if◌then◌else◌, inl, inr, Bool-cases, arith,
}
use bo_thesis.Integration.OauthState.{
  PendingAuthorization, text, Payload, Codecs, StateError, state_expired, OauthStateCodec,
  max_state_bytes, microseconds, optional_text, nonce_or, without_padding, padding, missing_padding,
  required_text, optional_field, stored_secret, is_configured, payload_of, key, issue, decoded,
  is_expired, pending_of, read,
}

-- The alphabet of URL-safe base64.
abbrev pub is_base64 : ℕ → Bool
is_base64 c =
    (leb 48 c && leb c 57)
    || ((leb 65 c && leb c 90) || ((leb 97 c && leb c 122) || (nat_beq c 45 || nat_beq c 95)))

-- What the codec relies on: JSON gives back the payload, AES-GCM and base64 give back what they
-- were given. Base64 makes
-- no text shorter, and pads its alphabet with at most two signs to a multiple of four.
pub record AreCodecs {K : Type 0} (codecs : Codecs K) (payload : Payload) : Type 0 where
  pub loads_dumps : codecs.loads (codecs.dumps payload) ≡ some payload
  pub decrypt_encrypt :
      (k : K) (nonce s : Str) → codecs.decrypt k nonce (codecs.encrypt k nonce s) ≡ some s
  pub decode_encode : (s : Str) → codecs.urlsafe_b64decode (codecs.urlsafe_b64encode s) ≡ some s
  pub grows : (s : Str) → length s ≤ length (codecs.urlsafe_b64encode s)
  pub padded :
      (s : Str)
      → (plain : Str) × (pads : ℕ) × (codecs.urlsafe_b64encode s ≡ plain ++ padding pads)
        × (pads < 3)
        × ((length plain + pads) % 4 ≡ 0)
        × All (λ c. is_base64 c ≡ true) plain

without_padding-padding : (n : ℕ) → without_padding (padding n) ≡ []
unfolding without_padding
without_padding-padding zero = refl
without_padding-padding (suc n) =
    ap (λ s. if is_empty s then [] else 61 ∷ s) (without_padding-padding n)

without_padding-plain :
    (s : Str) (n : ℕ) → All (λ c. is_base64 c ≡ true) s → without_padding (s ++ padding n) ≡ s
unfolding without_padding
without_padding-plain [] n h = without_padding-padding n
without_padding-plain (c ∷ s) n h =
    let plain : nat_beq c 61 ≡ false = ground (arith, h.0) in
    ap
      (λ b.
        if b
        then (if is_empty (without_padding (s ++ padding n))
            then []
            else c ∷ without_padding (s ++ padding n))
        else c ∷ without_padding (s ++ padding n))
      plain
    ∙ ap (λ t. c ∷ t) (without_padding-plain s n h.1)

not_space : (c : ℕ) → is_base64 c ≡ true → is_space c ≡ false
unfolding is_space
not_space c h = ground (arith, h)

state_plain : (s : Str) → All (λ c. is_base64 c ≡ true) s → strip s ≡ s
state_plain s h = strip-plain s (All-map not_space s h)

length-padding : (n : ℕ) → length (padding n) ≡ n
length-padding zero = refl
length-padding (suc n) = ap suc (length-padding n)

take-append : {A : Type 0} (xs ys : List A) (n : ℕ) → length xs ≡ n → take n (xs ++ ys) ≡ xs
take-append [] ys n h = ap (λ m. take m ys) (sym h)
take-append (x ∷ xs) ys zero h = absurd (omega (arith, h))
take-append (x ∷ xs) ys (suc n) h = ap (λ t. x ∷ t) (take-append xs ys n (omega (arith, h)))

drop-append : {A : Type 0} (xs ys : List A) (n : ℕ) → length xs ≡ n → drop n (xs ++ ys) ≡ ys
drop-append [] ys n h = ap (λ m. drop m ys) (sym h)
drop-append (x ∷ xs) ys zero h = absurd (omega (arith, h))
drop-append (x ∷ xs) ys (suc n) h = drop-append xs ys n (omega (arith, h))

required_text-present :
    (payload : Payload) (name value : Str)
    → get payload name ≡ some (text value)
    → value ≢ []
    → required_text payload name ≡ ok value
unfolding required_text
required_text-present payload name [] h nonempty = absurd (nonempty refl)
required_text-present payload name (c ∷ value) h nonempty = rw (h, required_text) refl

optional_field-present :
    (payload : Payload) (name : Str) (value : Option Str)
    → get payload name ≡ some (optional_text value)
    → value ≢ some []
    → optional_field payload name ≡ ok value
unfolding optional_field
optional_field-present payload name none h nonempty = rw (h, optional_field) refl
optional_field-present payload name (some []) h nonempty = absurd (nonempty refl)
optional_field-present payload name (some (c ∷ value)) h nonempty = rw (h, optional_field) refl

-- Every field that is required is there.
pub record IsComplete (pending : PendingAuthorization) (token : Str) : Type 0 where
  pub tenant_id : pending.tenant_id ≢ []
  pub user_id : pending.user_id ≢ []
  pub provider_key : pending.provider_key ≢ []
  pub connector_key : pending.connector_key ≢ []
  pub owner_type : pending.owner_type ≢ []
  pub connection_id : pending.connection_id ≢ some []
  pub code_verifier : pending.code_verifier ≢ []
  pub nonce : nonce_or pending.nonce token ≢ []

-- What is read of an authorization.
abbrev pub carried : PendingAuthorization → (token : Str) → PendingAuthorization
carried pending token = record pending { nonce = nonce_or pending.nonce token }

pending_of-payload_of :
    (codec : OauthStateCodec) (pending : PendingAuthorization) (token : Str) (now : ℕ)
    → IsComplete pending token
    → pending_of (payload_of codec pending token now) ≡ ok (carried pending token)
unfolding pending_of payload_of get
pending_of-payload_of codec pending token now c =
    let payload = payload_of codec pending token now in
    rw (required_text-present payload (codes "tenant_id") pending.tenant_id refl c.tenant_id) (
      rw (required_text-present payload (codes "user_id") pending.user_id refl c.user_id) (
        rw
          (required_text-present payload (codes "provider_key") pending.provider_key refl
            c.provider_key)
          (rw
            (required_text-present payload (codes "connector_key") pending.connector_key refl
              c.connector_key)
            (rw
              (required_text-present payload (codes "owner_type") pending.owner_type refl
                c.owner_type)
              (rw
                (optional_field-present payload (codes "connection_id") pending.connection_id refl
                  c.connection_id)
                (rw
                  (required_text-present payload (codes "code_verifier") pending.code_verifier refl
                    c.code_verifier)
                  (rw
                    (required_text-present payload (codes "nonce") (nonce_or pending.nonce token)
                      refl c.nonce)
                    refl)))))))

unexpired :
    (seconds later : ℕ) (pending : PendingAuthorization)
    → (require (not (leb (seconds * microseconds) later)) state_expired >> ok pending)
      ≡ (if ltb later (seconds * microseconds) then ok pending else err state_expired)
unexpired seconds later pending = elim (Bool-cases (ltb later (seconds * microseconds))) [
  | inl lasts ↦
      let open_still : leb (seconds * microseconds) later ≡ false = ground (arith, lasts) in
      rw lasts (rw open_still refl)
  | inr over ↦
      let closed : leb (seconds * microseconds) later ≡ true = ground (arith, over) in
      rw over (rw closed refl)
]

-- A state that was issued is read back while it lasts, and is refused as expired from then on.
abbrev pub IsRead :
    OauthStateCodec
    → PendingAuthorization
    → (token : Str) → (now later : ℕ) → Result StateError PendingAuthorization
    → Type 0
IsRead codec pending token now later result = result ≡ (
    if ltb later ((now / microseconds + codec.lifetime_seconds) * microseconds)
    then ok (carried pending token)
    else err state_expired)

module _ {K : Type 0} (codec : OauthStateCodec) (codecs : Codecs K) (payload : Payload)
    (are : AreCodecs codecs payload) where
  key-configured :
      is_configured codec ≡ true → key codec codecs ≡ ok (codecs.derive (stored_secret codec))
  unfolding key
  key-configured h = rw h refl

  -- The envelope of a state is found again, whatever it holds.
  decoded-encoded :
      (nonce ciphertext plain : Str) (pads : ℕ)
      → codecs.urlsafe_b64encode (nonce ++ ciphertext) ≡ plain ++ padding pads
      → pads < 3
      → (length plain + pads) % 4 ≡ 0
      → codecs.urlsafe_b64decode (plain ++ padding (missing_padding (length plain)))
        ≡ some (nonce ++ ciphertext)
  decoded-encoded nonce ciphertext plain pads shape lt full =
      let same : missing_padding (length plain) ≡ pads = omega (arith, lt, full) in
      ap (λ n. codecs.urlsafe_b64decode (plain ++ padding n)) same
      ∙ ap codecs.urlsafe_b64decode (sym shape)
      ∙ are.decode_encode (nonce ++ ciphertext)

  decoded-issued :
      (nonce plain : Str) (pads : ℕ)
      → is_configured codec ≡ true
      → length nonce ≡ 12
      → codecs.urlsafe_b64encode (
          nonce
          ++ codecs.encrypt (codecs.derive (stored_secret codec)) nonce (codecs.dumps payload))
        ≡ plain ++ padding pads
      → pads < 3
      → (length plain + pads) % 4 ≡ 0
      → decoded codec codecs plain ≡ ok payload
  unfolding decoded
  decoded-issued nonce plain pads configured twelve shape lt full =
      let k = codecs.derive (stored_secret codec) in
      let ciphertext = codecs.encrypt k nonce (codecs.dumps payload) in
      rw (decoded-encoded nonce ciphertext plain pads shape lt full) (
        rw (key-configured configured) (
          rw (take-append nonce ciphertext 12 twelve) (
            rw (drop-append nonce ciphertext 12 twelve)
              (rw (are.decrypt_encrypt k nonce (codecs.dumps payload)) (rw are.loads_dumps refl)))))

  read-plain :
      (plain : Str) (later : ℕ)
      → All (λ c. is_base64 c ≡ true) plain
      → 0 < length plain
      → length plain ≤ max_state_bytes
      → decoded codec codecs plain ≡ ok payload
      → read codec codecs plain later ≡ (
          require (not (is_expired later (get payload (codes "exp")))) state_expired
          >> pending_of payload)
  unfolding read
  read-plain plain later alphabet some_text short h =
      let shape : not (is_empty plain || ltb max_state_bytes (length plain)) ≡ true =
        by_text plain some_text short in
      rw (state_plain plain alphabet) (rw shape (rw h refl))
    where
      by_text :
          (t : Str)
          → 0 < length t
          → length t ≤ max_state_bytes
          → not (is_empty t || ltb max_state_bytes (length t)) ≡ true
      by_text [] h k = absurd (omega (arith, h))
      by_text (c ∷ t) h k = ground (arith, k)

module _ {K : Type 0} (codec : OauthStateCodec) (codecs : Codecs K) where
  -- A state that was issued for a complete authorization is read back as that authorization until
  -- its lifetime has passed, and is refused as expired from then on, if the codec is configured,
  -- twelve random bytes were drawn, the state is not too long, and the libraries undo what they
  -- encode.
  pub read-issue :
      (pending : PendingAuthorization) (nonce token : Str) (now later : ℕ) {state : Str}
      → AreCodecs codecs (payload_of codec pending token now)
      → is_configured codec ≡ true
      → length nonce ≡ 12
      → IsComplete pending token
      → issue codec codecs pending nonce token now ≡ ok state
      → length state ≤ max_state_bytes
      → IsRead codec pending token now later (read codec codecs state later)
  unfolding issue payload_of get
  read-issue pending nonce token now later {state} are configured twelve complete issued short =
      let payload = payload_of codec pending token now in
      let k = codecs.derive (stored_secret codec) in
      let ciphertext = codecs.encrypt k nonce (codecs.dumps payload) in
      let (plain, pads, shape, lt, full, alphabet) = are.padded (nonce ++ ciphertext) in
      let written : issue codec codecs pending nonce token now ≡ ok plain =
        rw (key-configured codec codecs payload are configured) (
          ap (λ t. ok (without_padding t)) shape
          ∙ ap ok (without_padding-plain plain pads alphabet)) in
      let same : plain ≡ state = cc (written, issued) in
      let longer : 0 < length plain = omega (
        arith,
        are.grows (nonce ++ ciphertext),
        ap length shape,
        length-append plain (padding pads),
        length-padding pads,
        length-append nonce ciphertext,
        twelve,
        lt,
      ) in
      subst (λ t. IsRead codec pending token now later (read codec codecs t later)) same
        (read-plain codec codecs payload are plain later alphabet longer
            (subst (λ t. length t ≤ max_state_bytes) (sym same) short)
            (decoded-issued codec codecs payload are nonce plain pads configured twelve shape lt
              full)
          ∙ ap
              (λ r. require (not (is_expired later (get payload (codes "exp")))) state_expired >> r)
              (pending_of-payload_of codec pending token now complete)
          ∙ expiry)
    where
      expiry :
          (require
              (not (is_expired later (get (payload_of codec pending token now) (codes "exp"))))
              state_expired
            >> ok (carried pending token))
          ≡ (if ltb later ((now / microseconds + codec.lifetime_seconds) * microseconds)
              then ok (carried pending token)
              else err state_expired)
      expiry = unexpired (now / microseconds + codec.lifetime_seconds) later (carried pending token)
