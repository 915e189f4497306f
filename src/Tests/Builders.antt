-- ===== src/Tests/Builders.antt =====
-- Built post-conditions on the sample platform.
use funai_sdk.Prelude.{◌≡◌, refl, ◌∷◌, ◌++◌, arith}
use funai_sdk.Prelude.Int.{pos}
use funai_sdk.Js.Text.{JsString, js, includes}
use funai_sdk.Js.Result.{◌>>=◌}
use funai_sdk.Clarity.Types.{ClarityValue, bool_true}
use funai_sdk.Platform.Sample.{sample_platform}
use funai_sdk.Wire.Create.{create_contract_principal}
use funai_sdk.PostCondition.Types.{
  equal, less_equal, less, greater_equal, greater, sends, does_not_send,
}
use funai_sdk.PostCondition.Builder.{
  PartialNft, nft, principal, will_send_eq, will_send_lte, will_send_lt, will_send_gte,
  will_send_gt, will_send_asset, will_not_send_asset, asset_name, contract_and_token, asset_text,
  validate_funai_address,
}
use funai_sdk.PostCondition.ToWire.{principal_to_wire}
use funai_sdk.PostCondition.Pieces.{IsPiece}
use funai_sdk.PostCondition.Built.{
  built_ft, built_nft, ft_wire, nft_wire, nft-overloads, principal_to_wire-principal,
  post_condition_to_wire-ft, post_condition_to_wire-nft,
}

abbrev sender : JsString
sender = js "Wabc0123"

abbrev contract_address : JsString
contract_address = js "Pdef4567"

abbrev contract_name : JsString
contract_name = js "market"

abbrev token_name : JsString
token_name = js "ticket"

abbrev contract_id : JsString
contract_id = contract_address ++ (b'.' ∷ contract_name)

abbrev keeps : PartialNft
keeps = will_not_send_asset sender

abbrev asset_id : ClarityValue
asset_id = bool_true

contract_address-IsPiece : IsPiece contract_address
unfolding includes
contract_address-IsPiece = record { no_dot = refl; no_colon = refl }

contract_name-IsPiece : IsPiece contract_name
unfolding includes
contract_name-IsPiece = record { no_dot = refl; no_colon = refl }

token_name-IsPiece : IsPiece token_name
unfolding includes
token_name-IsPiece = record { no_dot = refl; no_colon = refl }

nft-overloads_example :
    nft sample_platform keeps (asset_name (asset_text contract_id token_name)) asset_id
    ≡ nft sample_platform keeps (contract_and_token contract_id token_name) asset_id
nft-overloads_example =
    nft-overloads sample_platform keeps contract_id token_name asset_id (unfold includes in refl)
      (unfold includes in refl) (omega arith) (omega arith)

principal_to_wire-principal_example :
    (principal sample_platform contract_id >>= principal_to_wire sample_platform)
    ≡ create_contract_principal sample_platform contract_address contract_name
principal_to_wire-principal_example =
    principal_to_wire-principal sample_platform contract_address contract_name
      contract_address-IsPiece contract_name-IsPiece (omega arith) (omega arith)
      (unfold validate_funai_address in refl)

post_condition_to_wire-ft_example :
    let built = built_ft sample_platform contract_address contract_name token_name in
    let wire = ft_wire sample_platform contract_address contract_name token_name sender (pos 7) in
    (built (will_send_eq sender (pos 7)) ≡ wire equal)
    × (built (will_send_lte sender (pos 7)) ≡ wire less_equal)
    × (built (will_send_lt sender (pos 7)) ≡ wire less)
    × (built (will_send_gte sender (pos 7)) ≡ wire greater_equal)
    × (built (will_send_gt sender (pos 7)) ≡ wire greater)
post_condition_to_wire-ft_example =
    post_condition_to_wire-ft sample_platform contract_address contract_name
      contract_address-IsPiece contract_name-IsPiece (omega arith) (omega arith)
      (unfold validate_funai_address in refl) token_name token_name-IsPiece sender (pos 7)

post_condition_to_wire-nft_example :
    let built = built_nft sample_platform contract_address contract_name token_name asset_id in
    let wire = nft_wire sample_platform contract_address contract_name token_name sender asset_id in
    (built (will_send_asset sender) ≡ wire sends)
    × (built (will_not_send_asset sender) ≡ wire does_not_send)
post_condition_to_wire-nft_example =
    post_condition_to_wire-nft sample_platform contract_address contract_name
      contract_address-IsPiece contract_name-IsPiece (omega arith) (omega arith)
      (unfold validate_funai_address in refl) token_name token_name-IsPiece sender asset_id
