-- ===== src/Worker/Assets.antt =====
-- The asset ids of the worker.
use Prim.Native.String
use polymarket_signal_autopi.Base.{
  ◌≡◌, refl, ap, ◌∙◌, true, false, String, List, [], ◌∷◌, map, All, ◌==◌, text_eq,
}
use polymarket_signal_autopi.Text.{
  trim_space, lacks, join, split_on-join, is_blank, trim_space_blank, trim_space_pad,
}
use polymarket_signal_autopi.Worker.Env.{kept_parts, parse_asset_ids, as_set}

-- A piece of the text between two commas: spaces, or an id with spaces before and after it.
pub data Piece : Type 0 where
  gap : String → Piece
  entry : String → String → String → Piece

unfoldable pub text_of : Piece → String
text_of (gap spaces) = spaces
text_of (entry before id after) = String.◌++◌ before (String.◌++◌ id after)

unfoldable pub ids_of : List Piece → List String
ids_of [] = []
ids_of (gap spaces ∷ pieces) = ids_of pieces
ids_of (entry before id after ∷ pieces) = id ∷ ids_of pieces

-- The id of a piece has no space around it and is not empty; what is around it are spaces, if anything.
unfoldable pub IsPiece : Piece → Type 0
IsPiece (gap spaces) = is_blank spaces ≡ true
IsPiece (entry before id after) =
    (is_blank before ≡ true) × (is_blank after ≡ true) × (trim_space id ≡ id) × (id == "" ≡ false)

kept_pieces :
    (pieces : List Piece) → All IsPiece pieces → kept_parts (map text_of pieces) ≡ ids_of pieces
unfolding kept_parts ids_of text_of IsPiece
kept_pieces [] h = refl
kept_pieces (gap spaces ∷ pieces) (h, hs) =
    rw (trim_space_blank spaces h, kept_pieces pieces hs) refl
kept_pieces (entry before id after ∷ pieces) ((b, a, trimmed, n), hs) =
    rw (trim_space_pad before id after b a trimmed n, n, kept_pieces pieces hs) refl

kept_ids : (pieces : List Piece) → All IsPiece pieces → kept_parts (ids_of pieces) ≡ ids_of pieces
unfolding kept_parts ids_of IsPiece
kept_ids [] h = refl
kept_ids (gap spaces ∷ pieces) (h, hs) = kept_ids pieces hs
kept_ids (entry before id after ∷ pieces) ((b, a, trimmed, n), hs) =
    rw (trimmed, n, kept_ids pieces hs) refl

-- Where the pieces between the commas are spaces or ids with spaces around them, none with a comma in
-- it: the ids are read back, in order, without their spaces, and no other; and they are the keys of their
-- set.
pub parse_asset_ids-join :
    (piece : Piece) (pieces : List Piece)
    → All IsPiece (piece ∷ pieces)
    → All (λ t. lacks b',' t ≡ true) (map text_of (piece ∷ pieces))
    → let read = parse_asset_ids (join "," (map text_of (piece ∷ pieces))) in
      (read ≡ ids_of (piece ∷ pieces)) × (as_set read ≡ ids_of (piece ∷ pieces))
unfolding parse_asset_ids as_set
parse_asset_ids-join piece pieces h l =
    let parts = split_on-join b',' "," (text_of piece) (map text_of pieces) refl l in
    let read = ap kept_parts parts ∙ kept_pieces (piece ∷ pieces) h in
    (read, ap kept_parts read ∙ kept_ids (piece ∷ pieces) h)
