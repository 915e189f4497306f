-- ===== src/PostCondition/Built.antt =====
-- packages/transactions/src/pc.ts and postcondition.ts: built post-conditions on the wire.
use funai_sdk.Prelude.{
  ◌≡◌, refl, true, false, [], ◌∷◌, ◌++◌, arith, ◌<◌, length, Bool-cases, inl, inr,
}
use funai_sdk.Prelude.Int.{ℤ}
use funai_sdk.Js.Text.{JsString, includes, str_eq, str_eq→eq, before_front, after_front, before_all}
use funai_sdk.Js.Result.{Result, ok, ◌>>=◌}
use funai_sdk.Platform.{Platform}
use funai_sdk.Clarity.Types.{ClarityValue}
use funai_sdk.Clarity.Names.{is_empty-false, parse_contract_id-parts}
use funai_sdk.Wire.Create.{create_asset, create_contract_principal}
use funai_sdk.PostCondition.Types.{
  FungibleConditionCode, equal, less_equal, less, greater_equal, greater, NonFungibleConditionCode,
  sends, does_not_send, PostConditionWire, fungible, non_fungible,
}
use funai_sdk.PostCondition.Builder.{
  principal, origin_text, PartialFt, PartialNft, ft, nft, asset_text, validate_funai_address,
  parse_nft, asset_name, contract_and_token, get_nft_args, will_send_eq, will_send_lte,
  will_send_lt, will_send_gte, will_send_gt, will_send_asset, will_not_send_asset,
}
use funai_sdk.PostCondition.ToWire.{
  principal_to_wire, parse_principal_string, post_condition_to_wire, fungible_comparator_mapping,
  non_fungible_comparator_mapping,
}
use funai_sdk.PostCondition.Pieces.{
  IsPiece, parse_asset_string-asset_text, is_contract_id-parts, before_colons_front,
  after_colons_front, before_colons_all,
}

includes-dot : (s t : JsString) → includes b'.' (s ++ (b'.' ∷ t)) ≡ true
unfolding includes
includes-dot [] t = refl
includes-dot (c ∷ cs) t = ground (arith, includes-dot cs t)

origin_text-no_dot : includes b'.' origin_text ≡ false
unfolding includes
origin_text-no_dot = refl

origin_text-differs :
    (text : JsString) → includes b'.' text ≡ true → str_eq text origin_text ≡ false
origin_text-differs text h = elim (Bool-cases (str_eq text origin_text)) [
  | inl e ↦ let same = str_eq→eq text origin_text e in let none = origin_text-no_dot in cc
  | inr e ↦ e
]

-- The two overloads of `nft` agree: for a contract and a token, neither empty and without colons,
-- the text `contract::token` builds the post-condition that the contract and the token build, or
-- is refused alike.
pub nft-overloads :
    (env : Platform)
    → (pc : PartialNft) → (contract_id token : JsString) → (asset_id : ClarityValue)
    → includes b':' contract_id ≡ false
    → includes b':' token ≡ false
    → 0 < length contract_id
    → 0 < length token
    → nft env pc (asset_name (asset_text contract_id token)) asset_id
      ≡ nft env pc (contract_and_token contract_id token) asset_id
unfolding nft get_nft_args parse_nft asset_text
nft-overloads env pc contract_id token asset_id hc ht lc lt =
    rw
      (
        before_colons_front contract_id token hc,
        after_colons_front contract_id token hc,
        before_colons_all token ht,
        is_empty-false contract_id lc,
        is_empty-false token lt,
      )
      refl

module _ (env : Platform) (address name token : JsString) where
  -- What is built for the contract and the token, brought to the wire.
  abbrev pub built_ft : PartialFt → Result PostConditionWire
  built_ft pc = ft env pc (address ++ (b'.' ∷ name)) token >>= post_condition_to_wire env

  abbrev pub built_nft : ClarityValue → PartialNft → Result PostConditionWire
  built_nft asset_id pc =
      nft env pc (contract_and_token (address ++ (b'.' ∷ name)) token) asset_id
      >>= post_condition_to_wire env

  -- The condition on the wire: the sender, a code, and the asset of the three names.
  abbrev pub ft_wire : JsString → ℤ → FungibleConditionCode → Result PostConditionWire
  ft_wire sender amount code = do
    sender_wire ← principal_to_wire env sender
    asset ← create_asset env address name token
    ok (fungible sender_wire code amount asset)

  abbrev pub nft_wire :
      JsString → ClarityValue → NonFungibleConditionCode → Result PostConditionWire
  nft_wire sender asset_id code = do
    sender_wire ← principal_to_wire env sender
    asset ← create_asset env address name token
    ok (non_fungible sender_wire code asset asset_id)

module _ (env : Platform) (address name : JsString) (ha : IsPiece address) (hn : IsPiece name)
    (la : 0 < length address) (ln : 0 < length name)
    (valid : validate_funai_address env address ≡ true) where
  -- For an address that `c32addressDecode` takes and a name, neither empty, without dots and
  -- colons: `Pc.principal` accepts the text of the contract, and `postConditionToWire` reads it as
  -- the contract principal that `createContractPrincipal` makes.
  pub principal_to_wire-principal :
      (principal env (address ++ (b'.' ∷ name)) >>= principal_to_wire env)
      ≡ create_contract_principal env address name
  unfolding principal principal_to_wire parse_principal_string
  principal_to_wire-principal =
      rw
        (
          is_contract_id-parts env address name ha hn la ln valid,
          origin_text-differs (address ++ (b'.' ∷ name)) (includes-dot address name),
          includes-dot address name,
          before_front b'.' address name ha.no_dot,
          after_front b'.' address name ha.no_dot,
          before_all b'.' name hn.no_dot,
        )
        refl

  built_ft_lem :
      (token : JsString)
      → IsPiece token
      → (pc : PartialFt)
      → built_ft env address name token pc
        ≡ ft_wire env address name token pc.address pc.amount (fungible_comparator_mapping pc.code)
  unfolding ft post_condition_to_wire
  built_ft_lem token ht pc =
      rw
        (
          is_contract_id-parts env address name ha hn la ln valid,
          parse_asset_string-asset_text env address name token ha hn ht,
        )
        refl

  built_nft_lem :
      (token : JsString)
      → IsPiece token
      → (pc : PartialNft) → (asset_id : ClarityValue)
      → built_nft env address name token asset_id pc
        ≡ nft_wire env address name token pc.address asset_id
            (non_fungible_comparator_mapping pc.code)
  unfolding nft get_nft_args post_condition_to_wire
  built_nft_lem token ht pc asset_id =
      rw
        (
          parse_contract_id-parts address name ha.no_dot hn.no_dot la ln,
          valid,
          parse_asset_string-asset_text env address name token ha hn ht,
        )
        refl

  -- For an address that `c32addressDecode` takes and a name, neither empty, without dots and
  -- colons, and a token without them: what `willSendEq`, `willSendLte`, `willSendLt`,
  -- `willSendGte` and `willSendGt` of a sender and an amount build by `ft` for the contract and
  -- the token goes to the wire, or is refused, as the fungible condition on the sender, the amount
  -- and the asset that `createAsset` makes of the three names, with the code Equal, LessEqual,
  -- Less, GreaterEqual and Greater in turn.
  pub post_condition_to_wire-ft :
      (token : JsString)
      → IsPiece token
      → (sender : JsString) → (amount : ℤ)
      → (let built = built_ft env address name token in
          let wire = ft_wire env address name token sender amount in
          (built (will_send_eq sender amount) ≡ wire equal)
          × (built (will_send_lte sender amount) ≡ wire less_equal)
          × (built (will_send_lt sender amount) ≡ wire less)
          × (built (will_send_gte sender amount) ≡ wire greater_equal)
          × (built (will_send_gt sender amount) ≡ wire greater))
  unfolding will_send_eq will_send_lte will_send_lt will_send_gte will_send_gt
      fungible_comparator_mapping
  post_condition_to_wire-ft token ht sender amount = (
    built_ft_lem token ht (will_send_eq sender amount),
    built_ft_lem token ht (will_send_lte sender amount),
    built_ft_lem token ht (will_send_lt sender amount),
    built_ft_lem token ht (will_send_gte sender amount),
    built_ft_lem token ht (will_send_gt sender amount),
  )

  -- For an address that `c32addressDecode` takes and a name, neither empty, without dots and
  -- colons, and a token without them: what `willSendAsset` and `willNotSendAsset` of a sender
  -- build by `nft` for the contract, the token and a Clarity value goes to the wire, or is
  -- refused, as the non-fungible condition on the sender, the value and the asset that
  -- `createAsset` makes of the three names, with the code Sends and DoesNotSend in turn.
  pub post_condition_to_wire-nft :
      (token : JsString)
      → IsPiece token
      → (sender : JsString) → (asset_id : ClarityValue)
      → (let built = built_nft env address name token asset_id in
          let wire = nft_wire env address name token sender asset_id in
          (built (will_send_asset sender) ≡ wire sends)
          × (built (will_not_send_asset sender) ≡ wire does_not_send))
  unfolding will_send_asset will_not_send_asset non_fungible_comparator_mapping
  post_condition_to_wire-nft token ht sender asset_id = (
    built_nft_lem token ht (will_send_asset sender) asset_id,
    built_nft_lem token ht (will_not_send_asset sender) asset_id,
  )
