-- ===== src/Integration/OauthState/Tests.antt =====
-- A codec over plain libraries, and the theorem about OAuthStateCodec at it. A number n is written
-- as n letters A and a B, and a text is filled up with the letter C.

use bo_thesis.Base.{
  ℕ, zero, suc, ◌+◌, ◌≤◌, ◌≡◌, refl, sym, ap, ◌∙◌, true, none, some, [], ◌∷◌, ◌++◌, append-nil,
  append_assoc, Str, codes, strip, length, length-append, All, All-append, nat_beq, if◌then◌else◌,
  arith,
}
use bo_thesis.Integration.OauthState.{
  PendingAuthorization, Payload, Codecs, OauthStateCodec, missing_padding, without_padding,
  payload_of, issue, read,
}
use bo_thesis.Integration.OauthState.RoundTrip.{is_base64, AreCodecs, IsRead, read-issue}

abbrev letters : ℕ → ℕ → Str
letters zero c = []
letters (suc n) c = c ∷ letters n c

abbrev unary : Str → Str
unary [] = []
unary (n ∷ s) = letters n 65 ++ (66 ∷ unary s)

abbrev fill : Str → Str
fill s = letters (missing_padding (length s)) 67

abbrev encode : Str → Str
encode s = unary s ++ fill (unary s)

abbrev decode_from : ℕ → Str → Str
decode_from n [] = []
decode_from n (c ∷ s) =
    if nat_beq c 65 then decode_from (suc n) s else if nat_beq c 66 then n ∷ decode_from 0 s else []

decode-letters :
    (n m : ℕ) (s : Str) → decode_from n (letters m 65 ++ (66 ∷ s)) ≡ (n + m) ∷ decode_from 0 s
decode-letters n zero s = ap (λ k. k ∷ decode_from 0 s) (omega arith)
decode-letters n (suc m) s =
    decode-letters (suc n) m s ∙ ap (λ k. k ∷ decode_from 0 s) (omega arith)

decode-fill : (n : ℕ) → decode_from 0 (letters n 67) ≡ []
decode-fill zero = refl
decode-fill (suc n) = refl

decode-unary : (s : Str) (n : ℕ) → decode_from 0 (unary s ++ letters n 67) ≡ s
decode-unary [] n = decode-fill n
decode-unary (m ∷ s) n =
    ap (decode_from 0) (append_assoc (letters m 65) (66 ∷ unary s) (letters n 67))
    ∙ decode-letters 0 m (unary s ++ letters n 67)
    ∙ ap (λ t. (0 + m) ∷ t) (decode-unary s n)
    ∙ ap (λ k. k ∷ s) (omega arith)

length-letters : (n c : ℕ) → length (letters n c) ≡ n
length-letters zero c = refl
length-letters (suc n) c = ap suc (length-letters n c)

unary_grows : (s : Str) → length s ≤ length (unary s)
unary_grows [] = omega arith
unary_grows (n ∷ s) = omega (arith, unary_grows s, length-append (letters n 65) (66 ∷ unary s))

letters-alphabet : (n c : ℕ) → is_base64 c ≡ true → All (λ c. is_base64 c ≡ true) (letters n c)
letters-alphabet zero c h = tt
letters-alphabet (suc n) c h = (h, letters-alphabet n c h)

unary-alphabet : (s : Str) → All (λ c. is_base64 c ≡ true) (unary s)
unary-alphabet [] = tt
unary-alphabet (n ∷ s) =
    All-append (λ c. is_base64 c ≡ true) (letters n 65) (66 ∷ unary s) (letters-alphabet n 65 refl)
      (refl, unary-alphabet s)

abbrev pending : PendingAuthorization
pending = record {
  tenant_id = codes "t1";
  user_id = codes "u1";
  provider_key = codes "google";
  connector_key = codes "google_drive";
  owner_type = codes "user";
  connection_id = none;
  code_verifier = codes "v1";
  nonce = [];
}

abbrev codec : OauthStateCodec
codec = record { secret = some (codes " s "); lifetime_seconds = 600 }

abbrev token : Str
token = codes "n1"

abbrev carried_payload : Payload
carried_payload = payload_of codec pending token 5000000

abbrev libraries : Codecs Str
libraries = record {
  derive = λ secret. secret;
  encrypt = λ key nonce s. s;
  decrypt = λ key nonce s. some s;
  urlsafe_b64encode = encode;
  urlsafe_b64decode = λ s. some (decode_from 0 s);
  dumps = λ payload. 1 ∷ (2 ∷ []);
  loads = λ s. some carried_payload;
}

libraries-AreCodecs : AreCodecs libraries carried_payload
libraries-AreCodecs = record {
  loads_dumps = refl;
  decrypt_encrypt = λ k nonce s. refl;
  decode_encode = λ s. ap some (decode-unary s (missing_padding (length (unary s))));
  grows = λ s. omega (arith, unary_grows s, length-append (unary s) (fill (unary s)));
  padded = λ s. (
    encode s,
    0,
    sym (append-nil (encode s)),
    omega arith,
    omega (
      arith,
      length-append (unary s) (fill (unary s)),
      length-letters (missing_padding (length (unary s))) 67,
    ),
    All-append (λ c. is_base64 c ≡ true) (unary s) (fill (unary s)) (unary-alphabet s)
        (letters-alphabet (missing_padding (length (unary s))) 67 refl),
  );
}

abbrev twelve : Str
twelve = 0 ∷ (1 ∷ (0 ∷ (1 ∷ (0 ∷ (1 ∷ (0 ∷ (1 ∷ (0 ∷ (1 ∷ (0 ∷ (1 ∷ [])))))))))))

abbrev state : Str
state = encode (twelve ++ (1 ∷ (2 ∷ [])))

read-issue_example : IsRead codec pending token 5000000 9000000 (read codec libraries state 9000000)
unfolding issue strip without_padding payload_of
read-issue_example =
    read-issue codec libraries pending twelve token 5000000 9000000 libraries-AreCodecs refl refl
      (record {
        tenant_id = λ e. cc;
        user_id = λ e. cc;
        provider_key = λ e. cc;
        connector_key = λ e. cc;
        owner_type = λ e. cc;
        connection_id = λ e. cc;
        code_verifier = λ e. cc;
        nonce = λ e. cc;
      })
      refl (omega arith)
