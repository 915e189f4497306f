-- ===== src/PostCondition/Pieces.antt =====
-- packages/transactions/src/pc.ts and wire/helpers.ts: the pieces of the text that names an asset.
use funai_sdk.Prelude.{◌≡◌, refl, true, false, [], ◌∷◌, ◌++◌, arith, ◌<◌, length, append_assoc}
use funai_sdk.Js.Text.{JsString, includes, before_front, after_front, before_all}
use funai_sdk.Platform.{Platform}
use funai_sdk.Clarity.Names.{is_empty-false}
use funai_sdk.Wire.Create.{create_asset}
use funai_sdk.PostCondition.Builder.{
  validate_funai_address, is_contract_id, asset_text, before_colons, after_colons, at_colons,
  starts_colon, tail,
}
use funai_sdk.PostCondition.ToWire.{first_piece, other_pieces, parse_asset_string}

-- A text without the characters that `split(/\.|::/)` cuts at.
pub record IsPiece (text : JsString) : Type 0 where
  pub no_dot : includes b'.' text ≡ false
  pub no_colon : includes b':' text ≡ false

IsPiece-tail : (c : _) (cs : JsString) → IsPiece (c ∷ cs) → IsPiece cs
unfolding includes
IsPiece-tail c cs h = record {
  no_dot = (let d = h.no_dot in ground arith);
  no_colon = (let d = h.no_colon in ground arith);
}

first_piece_dot : (s t : JsString) → IsPiece s → first_piece (s ++ (b'.' ∷ t)) ≡ s
unfolding first_piece at_colons includes
first_piece_dot [] t h = refl
first_piece_dot (c ∷ cs) t h =
    let p = h.no_dot in
    let q = h.no_colon in let rest = first_piece_dot cs t (IsPiece-tail c cs h) in ground arith

other_pieces_dot : (s t : JsString) → IsPiece s → other_pieces (s ++ (b'.' ∷ t)) ≡ t
unfolding other_pieces at_colons includes
other_pieces_dot [] t h = refl
other_pieces_dot (c ∷ cs) t h =
    let p = h.no_dot in
    let q = h.no_colon in let rest = other_pieces_dot cs t (IsPiece-tail c cs h) in ground arith

first_piece_colons : (s t : JsString) → IsPiece s → first_piece (s ++ (b':' ∷ b':' ∷ t)) ≡ s
unfolding first_piece at_colons starts_colon includes
first_piece_colons [] t h = refl
first_piece_colons (c ∷ cs) t h =
    let p = h.no_dot in
    let q = h.no_colon in let rest = first_piece_colons cs t (IsPiece-tail c cs h) in ground arith

other_pieces_colons : (s t : JsString) → IsPiece s → other_pieces (s ++ (b':' ∷ b':' ∷ t)) ≡ t
unfolding other_pieces at_colons starts_colon tail includes
other_pieces_colons [] t h = refl
other_pieces_colons (c ∷ cs) t h =
    let p = h.no_dot in
    let q = h.no_colon in let rest = other_pieces_colons cs t (IsPiece-tail c cs h) in ground arith

first_piece_all : (s : JsString) → IsPiece s → first_piece s ≡ s
unfolding first_piece at_colons includes
first_piece_all [] h = refl
first_piece_all (c ∷ cs) h =
    let p = h.no_dot in
    let q = h.no_colon in let rest = first_piece_all cs (IsPiece-tail c cs h) in ground arith

pub before_colons_front :
    (s t : JsString) → includes b':' s ≡ false → before_colons (s ++ (b':' ∷ b':' ∷ t)) ≡ s
unfolding before_colons at_colons starts_colon includes
before_colons_front [] t h = refl
before_colons_front (c ∷ cs) t h = ground (arith, before_colons_front cs t)

pub after_colons_front :
    (s t : JsString) → includes b':' s ≡ false → after_colons (s ++ (b':' ∷ b':' ∷ t)) ≡ t
unfolding after_colons at_colons starts_colon tail includes
after_colons_front [] t h = refl
after_colons_front (c ∷ cs) t h = ground (arith, after_colons_front cs t)

pub before_colons_all : (s : JsString) → includes b':' s ≡ false → before_colons s ≡ s
unfolding before_colons at_colons includes
before_colons_all [] h = refl
before_colons_all (c ∷ cs) h = ground (arith, before_colons_all cs)

-- The three pieces of the text of an asset, found again by `parseAssetString`.
pub parse_asset_string-asset_text :
    (env : Platform)
    → (address name token : JsString) → IsPiece address
    → IsPiece name
    → IsPiece token
    → parse_asset_string env (asset_text (address ++ (b'.' ∷ name)) token)
      ≡ create_asset env address name token
unfolding parse_asset_string asset_text
parse_asset_string-asset_text env address name token ha hn ht =
    rw (append_assoc address (b'.' ∷ name) (b':' ∷ b':' ∷ token)) (
      rw
        (
          first_piece_dot address (name ++ (b':' ∷ b':' ∷ token)) ha,
          other_pieces_dot address (name ++ (b':' ∷ b':' ∷ token)) ha,
          first_piece_colons name token hn,
          other_pieces_colons name token hn,
          first_piece_all token ht,
        )
        refl)

pub is_contract_id-parts :
    (env : Platform)
    → (address name : JsString) → IsPiece address
    → IsPiece name
    → 0 < length address
    → 0 < length name
    → validate_funai_address env address ≡ true
    → is_contract_id env (address ++ (b'.' ∷ name)) ≡ true
unfolding is_contract_id
is_contract_id-parts env address name ha hn la ln valid =
    rw
      (
        before_front b'.' address name ha.no_dot,
        after_front b'.' address name ha.no_dot,
        before_all b'.' name hn.no_dot,
        valid,
        is_empty-false address la,
        is_empty-false name ln,
      )
      (ground arith)
