-- ===== src/PostCondition/ToWire.antt =====
-- packages/transactions/src/postcondition.ts and wire/helpers.ts: post-conditions as texts, and on
-- the wire.
use funai_sdk.Prelude.{◌||◌, [], ◌∷◌, ◌==◌, if◌then◌else◌}
use funai_sdk.Js.Text.{JsString, str_eq, before, after, includes}
use funai_sdk.Js.Result.{Result, ok, ◌>>=◌}
use funai_sdk.Platform.{Platform}
use funai_sdk.Wire.Types.{AssetWire, PostConditionPrincipalWire, origin}
use funai_sdk.Wire.Create.{create_asset, create_standard_principal, create_contract_principal}
use funai_sdk.PostCondition.Types.{
  FungibleConditionCode, equal, greater, greater_equal, less, less_equal, NonFungibleConditionCode,
  sends, does_not_send, PostConditionWire, stx, fungible, non_fungible,
}
use funai_sdk.PostCondition.Builder.{
  FungibleComparator, eq, gt, gte, lt, lte, NonFungibleComparator, sent, not_sent, PostCondition,
  stx_post_condition, ft_post_condition, nft_post_condition, origin_text, at_colons, tail,
}

unfoldable pub fungible_comparator_mapping : FungibleComparator → FungibleConditionCode
fungible_comparator_mapping eq = equal
fungible_comparator_mapping gt = greater
fungible_comparator_mapping lt = less
fungible_comparator_mapping gte = greater_equal
fungible_comparator_mapping lte = less_equal

unfoldable pub non_fungible_comparator_mapping : NonFungibleComparator → NonFungibleConditionCode
non_fungible_comparator_mapping sent = sends
non_fungible_comparator_mapping not_sent = does_not_send

-- `split(/\.|::/)`: the text in front of the first dot or `::`, and what follows that.
unfoldable pub first_piece : JsString → JsString
first_piece [] = []
first_piece (c ∷ cs) = if c == b'.' || at_colons c cs then [] else c ∷ first_piece cs

unfoldable pub other_pieces : JsString → JsString
other_pieces [] = []
other_pieces (c ∷ cs) =
    if c == b'.' then cs else if at_colons c cs then tail cs else other_pieces cs

-- The type of the text says that it has a dot, and `::` behind it, so that there are three pieces.
unfoldable pub parse_asset_string : Platform → JsString → Result AssetWire
parse_asset_string env id =
    create_asset env (first_piece id) (first_piece (other_pieces id))
      (first_piece (other_pieces (other_pieces id)))

unfoldable pub parse_principal_string : Platform → JsString → Result PostConditionPrincipalWire
parse_principal_string env text =
    if includes b'.' text
    then create_contract_principal env (before b'.' text) (before b'.' (after b'.' text))
    else create_standard_principal env text

-- `address === 'origin' ? … : parsePrincipalString(address)`
unfoldable pub principal_to_wire : Platform → JsString → Result PostConditionPrincipalWire
principal_to_wire env address =
    if str_eq address origin_text then ok origin else parse_principal_string env address

unfoldable pub post_condition_to_wire : Platform → PostCondition → Result PostConditionWire
post_condition_to_wire env (stx_post_condition address condition amount) = do
  sender ← principal_to_wire env address
  ok (stx sender (fungible_comparator_mapping condition) amount)
post_condition_to_wire env (ft_post_condition address condition amount asset) = do
  sender ← principal_to_wire env address
  asset_wire ← parse_asset_string env asset
  ok (fungible sender (fungible_comparator_mapping condition) amount asset_wire)
post_condition_to_wire env (nft_post_condition address condition asset asset_id) = do
  sender ← principal_to_wire env address
  asset_wire ← parse_asset_string env asset
  ok (non_fungible sender (non_fungible_comparator_mapping condition) asset_wire asset_id)
