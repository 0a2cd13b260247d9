-- ===== src/Tokens.antt =====
-- apps/api/src/tokens.ts: minting. The SHA-256 digest is `hash`, and `random` is what `randomBytes`
-- gave, in base64url.
use webhook_broadcast.Base.{◌++◌, Text, ℕ, codes, take}

abbrev pub prefix_length : ℕ
prefix_length = 12

pub record MintedToken : Type 0 where
  pub token : Text
  pub token_hash : Text
  pub prefix : Text

unfoldable pub mint_token : (Text → Text) → Text → Text → MintedToken
mint_token hash random wire_prefix =
    let token = wire_prefix ++ random in
    record { token = token; token_hash = hash token; prefix = take prefix_length token }

unfoldable pub mint_channel_token : (Text → Text) → Text → MintedToken
unfolding mint_token
mint_channel_token hash random = mint_token hash random (codes "wbt_")

unfoldable pub mint_operator_token : (Text → Text) → Text → MintedToken
unfolding mint_token
mint_operator_token hash random = mint_token hash random (codes "wbop_")
