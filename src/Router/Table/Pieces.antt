-- ===== src/Router/Table/Pieces.antt =====
-- Patterns with the texts that fill them in.
use async_uv.Base.{
  ◌≤◌, ◌≡◌, refl, ◌≢◌, false, Option, none, some, List, [], ◌∷◌, ◌++◌, arith, ◌==◌, length, All, ap,
  ◌∙◌,
}
use async_uv.Base.Bytes.{Bytes, cut_at}
use async_uv.Router.Node.{static, param, classify, parse_param_segment}
use async_uv.Router.Matching.{Captures, from_slash}

-- A segment of a pattern with the text that a path has for it.
pub data Piece : Type 0 where
  fixed : Bytes → Piece
  filled : Bytes → Bytes → Piece

abbrev pub segment_of : Piece → Bytes
segment_of (fixed s) = s
segment_of (filled s text) = s

abbrev pub text_of : Piece → Bytes
text_of (fixed s) = s
text_of (filled s text) = text

-- A text between slashes.
abbrev pub IsSegment : Bytes → Type 0
IsSegment s = (s ≢ []) × All (λ c. c ≢ b'/') s

-- The segment is classified as what the piece says.
abbrev pub IsPiece : Piece → Type 0
IsPiece (fixed s) = IsSegment s × (classify s ≡ static)
IsPiece (filled s text) = IsSegment s × IsSegment text × (classify s ≡ param)

-- `/` before each text.
abbrev pub path_of : List Bytes → Bytes
path_of [] = []
path_of (s ∷ texts) = b'/' ∷ (s ++ path_of texts)

abbrev pub captures_of : List Piece → Captures
captures_of [] = []
captures_of (fixed s ∷ pieces) = captures_of pieces
captures_of (filled s text ∷ pieces) = ((parse_param_segment s).1, text) ∷ captures_of pieces

pub length-segment : (s : Bytes) → IsSegment s → 1 ≤ length s
length-segment [] h = absurd (h.0 refl)
length-segment (c ∷ s) h = omega arith

pub cut_at-end :
    (text : Bytes) (texts : List Bytes)
    → All (λ c. c ≢ b'/') text
    → ((cut_at b'/' (text ++ path_of texts)).0 ≡ text)
      × (from_slash (cut_at b'/' (text ++ path_of texts)) ≡ path_of texts)
unfolding cut_at
cut_at-end [] [] h = (refl, refl)
cut_at-end [] (s ∷ texts) h = (refl, refl)
cut_at-end (c ∷ text) texts h =
    let other : (c == b'/') ≡ false = ground (arith, h.0) in
    let (a, b) = cut_at-end text texts h.1 in
    rw other (ap (λ x. c ∷ x) a, from_slash-cons (cut_at b'/' (text ++ path_of texts)) ∙ b)
  where
    from_slash-cons : (q : Bytes × Option Bytes) → from_slash (c ∷ q.0, q.1) ≡ from_slash q
    from_slash-cons (before, none) = refl
    from_slash-cons (before, some rest) = refl
