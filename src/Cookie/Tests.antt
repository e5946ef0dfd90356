-- ===== src/Cookie/Tests.antt =====
-- Runs of pkg/cookie/signed.go, and the theorems at sample inputs.
use accessgate.Base.{◌≡◌, refl, ◌↔◌, none, some, [], ◌∷◌}
use accessgate.Base.Text.{cut}
use accessgate.Crypto.Sample.{sample_crypto, sample_laws}
use accessgate.Cookie.{SignedManager, session_id, encode, decode}
use accessgate.Cookie.Laws.{here, there, decode-encode, IsSigned, decode-IsSigned_iff}

abbrev before : SignedManager
before = record { primary = "old-key"; older = [] }

abbrev rotated : SignedManager
rotated = record { primary = "new-key"; older = "old-key" ∷ [] }

abbrev stranger : SignedManager
stranger = record { primary = "another"; older = [] }

runs :
    (encode sample_crypto before (session_id "a.b") ≡ "a%db.old-key:a%%db")
    × (decode sample_crypto rotated "a%db.old-key:a%%db" ≡ some "a.b")
    × (decode sample_crypto stranger "a%db.old-key:a%%db" ≡ none)
    × (decode sample_crypto before "a%db" ≡ none)
unfolding encode decode sample_crypto cut
runs = (refl, refl, refl, refl)

decode-encode_example :
    decode sample_crypto rotated (encode sample_crypto before (session_id "a.b")) ≡ some "a.b"
decode-encode_example = decode-encode sample_crypto sample_laws before rotated "a.b" (there here)

decode-IsSigned_iff_example :
    (decode sample_crypto rotated "a%db.old-key:a%%db" ≡ some "a.b")
    ↔ IsSigned sample_crypto ("new-key" ∷ "old-key" ∷ []) "a%db.old-key:a%%db" "a.b"
decode-IsSigned_iff_example = decode-IsSigned_iff sample_crypto rotated "a%db.old-key:a%%db" "a.b"
