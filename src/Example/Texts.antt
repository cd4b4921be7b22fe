-- ===== src/Example/Texts.antt =====
-- The property of base64url at an input.
use one_time_note.Base.{◌≡◌, ◌↔◌, some, [], ◌∷◌, arith}
use one_time_note.Base.Text.{codes}
use one_time_note.Codec.{b64_encode, b64_decode}
use one_time_note.Codec.RoundTrip.{b64_decode_iff}

b64_decode_iff_example :
    (b64_decode (codes "AQJ_") ≡ some (1 ∷ 2 ∷ 127 ∷ []))
    ↔ (codes "AQJ_" ≡ b64_encode (1 ∷ 2 ∷ 127 ∷ []))
b64_decode_iff_example = b64_decode_iff (codes "AQJ_") (1 ∷ 2 ∷ 127 ∷ []) (λ p. cc) (omega arith)
