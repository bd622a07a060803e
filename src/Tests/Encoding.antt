-- ===== src/Tests/Encoding.antt =====
-- Lists of byte strings as one text, for stand-ins of formats.
use cross_network_market_mak.Prelude.{ℕ, zero, suc, ◌≡◌, refl, List, [], ◌∷◌, ◌++◌}
use cross_network_market_mak.Prelude.Text.{Text}
use cross_network_market_mak.Core.Primitives.{Bytes}

-- Zero ends an element.
abbrev pub written_bytes : Bytes → Text → Text
written_bytes [] t = 0 ∷ t
written_bytes (c ∷ b) t = suc c ∷ written_bytes b t

abbrev pub written : List Bytes → Text
written [] = []
written (b ∷ bs) = written_bytes b (written bs)

abbrev onto_first : ℕ → List Bytes → List Bytes
onto_first c [] = (c ∷ []) ∷ []
onto_first c (b ∷ bs) = (c ∷ b) ∷ bs

abbrev pub read_back : Text → List Bytes
read_back [] = []
read_back (zero ∷ t) = [] ∷ read_back t
read_back (suc c ∷ t) = onto_first c (read_back t)

pub read_back-bytes : (b : Bytes) (t : Text) → read_back (written_bytes b t) ≡ b ∷ read_back t
read_back-bytes [] t = refl
read_back-bytes (c ∷ b) t = rw (read_back-bytes b t) refl

pub read_back-written : (w : List Bytes) → read_back (written w) ≡ w
read_back-written [] = refl
read_back-written (b ∷ w) = rw (read_back-bytes b (written w), read_back-written w) refl

read_back-line_bytes :
    (b : Bytes) (w : List Bytes)
    → read_back (written w ++ 10 ∷ []) ≡ w ++ (9 ∷ []) ∷ []
    → read_back (written_bytes b (written w) ++ 10 ∷ []) ≡ b ∷ w ++ (9 ∷ []) ∷ []
read_back-line_bytes [] w h = rw h refl
read_back-line_bytes (c ∷ b) w h = rw (read_back-line_bytes b w h) refl

-- What follows the elements is read as one more.
pub read_back-line : (w : List Bytes) → read_back (written w ++ 10 ∷ []) ≡ w ++ (9 ∷ []) ∷ []
read_back-line [] = refl
read_back-line (b ∷ w) = read_back-line_bytes b w (read_back-line w)
