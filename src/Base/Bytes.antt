-- ===== src/Base/Bytes.antt =====
-- 32-bit words as four bytes, lowest first: how a little-endian host lays them out in a buffer.
use nach_os.Base.{ℕ, ◌+◌, ◌*◌, ◌/◌, ◌%◌, ◌^◌, ◌<◌, ◌≡◌, refl, List, [], ◌∷◌, arith, length, All}

unfoldable pub words_bytes : List ℕ → List ℕ
words_bytes [] = []
words_bytes (w ∷ ws) =
    w % 256 ∷ w / 256 % 256 ∷ w / 65536 % 256 ∷ w / 16777216 % 256 ∷ words_bytes ws

-- Bytes left over at the end make no word.
unfoldable pub bytes_words : List ℕ → List ℕ
bytes_words (a ∷ b ∷ c ∷ d ∷ bs) = (a + 256 * b + 65536 * c + 16777216 * d) ∷ bytes_words bs
bytes_words bs = []

pub bytes_words-words_bytes :
    (ws : List ℕ) → All (λ w. w < 2 ^ 32) ws → bytes_words (words_bytes ws) ≡ ws
unfolding bytes_words words_bytes
bytes_words-words_bytes [] h = refl
bytes_words-words_bytes (w ∷ ws) h = ground (arith, bytes_words-words_bytes ws h.1)

pub length-words_bytes : (ws : List ℕ) → length (words_bytes ws) ≡ 4 * length ws
unfolding words_bytes
length-words_bytes [] = refl
length-words_bytes (w ∷ ws) = omega (arith, length-words_bytes ws)
