-- ===== src/Cookie/Laws.antt =====
-- Round trip, key rotation and the meaning of acceptance for pkg/cookie/signed.go.
use accessgate.Base.{
  String, ◌≡◌, refl, ◌∙◌, ◌↔◌, inl, inr, some, List, [], ◌∷◌, eq_iff, eq_refl, ◌==◌, Bool-cases,
  Option-cases,
}
use accessgate.Base.Text.{cut}
use accessgate.Crypto.{Crypto, CryptoLaws}
use accessgate.Crypto.Parts.{cut-append}
use accessgate.Cookie.{SignedManager, session_id, signed_sep, sign, encode, verify_with, decode}

-- One of the manager's keys, the primary one or an older one.
pub data IsKey (k : String) : List String → Type 0 where
  here : {keys : List String} → IsKey k (k ∷ keys)
  there : {j : String} {keys : List String} → IsKey k keys → IsKey k (j ∷ keys)

module _ (c : Crypto) where
  -- A value signed with any of the keys is accepted, whichever key comes first.
  verify_with-key :
      {key : String} (keys : List String) (payload : String)
      → IsKey key keys
      → (s : String) → c.decode64 payload ≡ some s
      → verify_with c keys payload (c.hmac key payload) ≡ some s
  unfolding verify_with
  verify_with-key [] payload k s e = elim k [ ]
  verify_with-key {key} (_ ∷ keys) payload here s e = rw (eq_refl (c.hmac key payload)) e
  verify_with-key {key} (j ∷ keys) payload (there k) s e =
      elim (Bool-cases (c.hmac key payload == c.hmac j payload)) [
        | inl same ↦ rw same e
        | inr other ↦ rw other (verify_with-key keys payload k s e)
      ]

  encode-sign :
      (m : SignedManager) (s : String) → encode c m (session_id s) ≡ sign c m.primary (c.encode64 s)
  unfolding encode
  encode-sign m s = refl

  decode-parts :
      (m : SignedManager) (raw : String) {payload sig64 sig : String}
      → cut b'.' raw ≡ some (payload, sig64)
      → c.decode64 sig64 ≡ some sig
      → decode c m raw ≡ verify_with c (m.primary ∷ m.older) payload sig
  unfolding decode
  decode-parts m raw parts decoded = rw (parts, decoded, decode)

  decode-eq-some :
      (m : SignedManager) (raw s : String)
      → decode c m raw ≡ some s
      → (payload : String) × (sig64 : String) × (sig : String) × (cut b'.' raw
          ≡ some (payload, sig64))
        × (c.decode64 sig64 ≡ some sig)
        × (verify_with c (m.primary ∷ m.older) payload sig ≡ some s)
  unfolding decode
  decode-eq-some m raw s h = elim (Option-cases (cut b'.' raw)) [
    | inl whole ↦ absurd (cc (rw (whole, decode) at h))
    | inr ((payload, sig64), parts) ↦ elim (Option-cases (c.decode64 sig64)) [
      | inl garbled ↦ absurd (cc (rw (parts, garbled, decode) at h))
      | inr (sig, decoded) ↦ (payload, sig64, sig, parts, decoded, rw (parts, decoded, decode) at h)
    ]
  ]

module _ (c : Crypto) (laws : CryptoLaws c) where
  cut-sign :
      (secret s : String)
      → cut b'.' (sign c secret (c.encode64 s))
        ≡ some (c.encode64 s, c.encode64 (c.hmac secret (c.encode64 s)))
  unfolding sign
  cut-sign secret s = cut-append b'.' signed_sep (c.encode64 s) _ refl (laws.no_dot s)

  -- A cookie that one manager issues is read back, to the same session id, by every manager that
  -- has the issuer's signing key as its primary or as an older key.
  pub decode-encode :
      (issuer reader : SignedManager) (s : String)
      → IsKey issuer.primary (reader.primary ∷ reader.older)
      → decode c reader (encode c issuer (session_id s)) ≡ some s
  decode-encode issuer reader s known = rw (encode-sign c issuer s) (
      decode-parts c reader _ (cut-sign issuer.primary s) (laws.decode-encode _)
      ∙ verify_with-key c (reader.primary ∷ reader.older) (c.encode64 s) known s
          (laws.decode-encode s))

module _ (c : Crypto) where
  -- `raw` is a payload and a signature, the signature is the payload's under one of the keys, and
  -- the payload encodes `s`.
  pub record IsSigned (keys : List String) (raw s : String) : Type 0 where
    pub payload : String
    pub sig64 : String
    pub key : String
    pub parts : cut b'.' raw ≡ some (payload, sig64)
    pub known : IsKey key keys
    pub signature : c.decode64 sig64 ≡ some (c.hmac key payload)
    pub content : c.decode64 payload ≡ some s

  verify_with_sound :
      (keys : List String) (payload sig s : String)
      → verify_with c keys payload sig ≡ some s
      → (key : String) × IsKey key keys × (sig ≡ c.hmac key payload) × (c.decode64 payload ≡ some s)
  unfolding verify_with
  verify_with_sound [] payload sig s h = cc
  verify_with_sound (key ∷ keys) payload sig s h = elim (Bool-cases (sig == c.hmac key payload)) [
    | inl same ↦ (key, here, (eq_iff _ _).0 same, rw same at h)
    | inr other ↦
        let (k, known, same, content) = verify_with_sound keys payload sig s (rw other at h) in
        (k, there known, same, content)
  ]

  decode_sound :
      (m : SignedManager) (raw s : String)
      → decode c m raw ≡ some s
      → IsSigned (m.primary ∷ m.older) raw s
  decode_sound m raw s h =
      let (payload, sig64, sig, parts, decoded, e) = decode-eq-some c m raw s h in
      let (key, known, same, content) = verify_with_sound (m.primary ∷ m.older) payload sig s e in
      record {
        payload = payload;
        sig64 = sig64;
        key = key;
        parts = parts;
        known = known;
        signature = rw (← same) decoded;
        content = content;
      }

  decode_complete :
      (m : SignedManager) (raw s : String)
      → IsSigned (m.primary ∷ m.older) raw s
      → decode c m raw ≡ some s
  decode_complete m raw s h =
      decode-parts c m raw h.parts h.signature
      ∙ verify_with-key c (m.primary ∷ m.older) h.payload h.known s h.content

-- A cookie is accepted as `s` exactly when its second part is the signature of its first part
-- under one of the manager's keys, and the first part encodes `s`.
pub decode-IsSigned_iff :
    (c : Crypto) (m : SignedManager) (raw s : String)
    → (decode c m raw ≡ some s) ↔ IsSigned c (m.primary ∷ m.older) raw s
decode-IsSigned_iff c m raw s = (decode_sound c m raw s, decode_complete c m raw s)
