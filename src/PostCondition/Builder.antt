-- ===== src/PostCondition/Builder.antt =====
-- packages/transactions/src/pc.ts and postcondition-types.ts: the builder of post-conditions. An
-- amount is the integer that its decimal text stands for.
use funai_sdk.Prelude.{ℕ, Bool, true, false, ◌&&◌, ◌||◌, not, [], ◌∷◌, ◌++◌, ◌==◌, if◌then◌else◌}
use funai_sdk.Prelude.Int.{ℤ}
use funai_sdk.Js.Text.{JsString, js, before, after, includes}
use funai_sdk.Js.Result.{Result, ok, guard, ◌>>=◌, ◌>>◌, invalid_contract_id, invalid_asset_name}
use funai_sdk.Platform.{Platform}
use funai_sdk.Clarity.Types.{ClarityValue}
use funai_sdk.Clarity.Names.{is_empty, parse_contract_id}

pub data FungibleComparator : Type 0 where
  eq gt gte lt lte : FungibleComparator

pub data NonFungibleComparator : Type 0 where
  sent not_sent : NonFungibleComparator

-- Addresses and assets are texts.
pub data PostCondition : Type 0 where
  stx_post_condition : JsString → FungibleComparator → ℤ → PostCondition
  ft_post_condition : JsString → FungibleComparator → ℤ → JsString → PostCondition
  nft_post_condition : JsString → NonFungibleComparator → JsString → ClarityValue → PostCondition

-- `try { c32addressDecode(address); return true; } catch { return false; }`
unfoldable pub validate_funai_address : Platform → JsString → Bool
validate_funai_address env address = elim (env.c32_address_decode address) [
  | ok decoded ↦ true
  | _ ↦ false
]

-- A name is there where the text has a dot, and then it is not empty.
unfoldable pub is_contract_id : Platform → JsString → Bool
is_contract_id env contract_id =
    not (is_empty (before b'.' contract_id))
    && validate_funai_address env (before b'.' contract_id)
    && not (includes b'.' contract_id && is_empty (before b'.' (after b'.' contract_id)))

-- The address of a `PartialPcWithPrincipal`.
unfoldable pub principal : Platform → JsString → Result JsString
principal env text = guard (is_contract_id env text) invalid_contract_id >> ok text

abbrev pub origin_text : JsString
origin_text = js "origin"

pub record PartialFt : Type 0 where
  pub address : JsString
  pub amount : ℤ
  pub code : FungibleComparator

pub record PartialNft : Type 0 where
  pub address : JsString
  pub code : NonFungibleComparator

unfoldable pub will_send_eq : JsString → ℤ → PartialFt
will_send_eq address amount = record { address = address; amount = amount; code = eq }

unfoldable pub will_send_lte : JsString → ℤ → PartialFt
will_send_lte address amount = record { address = address; amount = amount; code = lte }

unfoldable pub will_send_lt : JsString → ℤ → PartialFt
will_send_lt address amount = record { address = address; amount = amount; code = lt }

unfoldable pub will_send_gte : JsString → ℤ → PartialFt
will_send_gte address amount = record { address = address; amount = amount; code = gte }

unfoldable pub will_send_gt : JsString → ℤ → PartialFt
will_send_gt address amount = record { address = address; amount = amount; code = gt }

unfoldable pub will_send_asset : JsString → PartialNft
will_send_asset address = record { address = address; code = sent }

unfoldable pub will_not_send_asset : JsString → PartialNft
will_not_send_asset address = record { address = address; code = not_sent }

unfoldable pub ufunai : PartialFt → PostCondition
ufunai pc = stx_post_condition pc.address pc.code pc.amount

-- `${contractId}::${tokenName}`
unfoldable pub asset_text : JsString → JsString → JsString
asset_text contract_id token_name = contract_id ++ (b':' ∷ b':' ∷ token_name)

unfoldable pub ft : Platform → PartialFt → JsString → JsString → Result PostCondition
ft env pc contract_id token_name =
    guard (is_contract_id env contract_id) invalid_contract_id
    >> ok (ft_post_condition pc.address pc.code pc.amount (asset_text contract_id token_name))

-- Does `::` stand in front of the text `c ∷ cs`?
unfoldable pub starts_colon : JsString → Bool
starts_colon [] = false
starts_colon (c ∷ cs) = c == b':'

unfoldable pub at_colons : ℕ → JsString → Bool
at_colons c cs = c == b':' && starts_colon cs

unfoldable pub tail : JsString → JsString
tail [] = []
tail (c ∷ cs) = cs

-- `split('::')[0]`, and the part that follows the first `::`.
unfoldable pub before_colons : JsString → JsString
before_colons [] = []
before_colons (c ∷ cs) = if at_colons c cs then [] else c ∷ before_colons cs

unfoldable pub after_colons : JsString → JsString
after_colons [] = []
after_colons (c ∷ cs) = if at_colons c cs then tail cs else after_colons cs

pub record Nft : Type 0 where
  pub contract_address : JsString
  pub contract_name : JsString
  pub token_name : JsString

unfoldable pub parse_nft : JsString → Result Nft
parse_nft asset_name = do
  let contract_id = before_colons asset_name
  let token = before_colons (after_colons asset_name)
  guard (not (is_empty contract_id || is_empty token)) invalid_asset_name
  (address, name) ← parse_contract_id contract_id
  ok (record { contract_address = address; contract_name = name; token_name = token })

-- The asset is given by one text, or by a contract and a token.
pub data NftArgs : Type 0 where
  asset_name : JsString → NftArgs
  contract_and_token : JsString → JsString → NftArgs

unfoldable pub get_nft_args : NftArgs → Result Nft
get_nft_args (asset_name text) = parse_nft text
get_nft_args (contract_and_token contract_id token) = do
  (address, name) ← parse_contract_id contract_id
  ok (record { contract_address = address; contract_name = name; token_name = token })

unfoldable pub nft : Platform → PartialNft → NftArgs → ClarityValue → Result PostCondition
nft env pc args asset_id = do
  parsed ← get_nft_args args
  guard (validate_funai_address env parsed.contract_address) invalid_contract_id
  ok (
      nft_post_condition pc.address pc.code
        (asset_text (parsed.contract_address ++ (b'.' ∷ parsed.contract_name)) parsed.token_name)
        asset_id)
