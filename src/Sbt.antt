-- ===== src/Sbt.antt =====
-- The data of the SBT standard (contracts/sbt/src): token metadata, and the events that a registry
-- logs. Text fields are carried and never read by the contracts modelled here.
use i_am_human.Base.{ℕ, String, Option, List}
use i_am_human.Near.{AccountId}

abbrev pub TokenId : Type 0
TokenId = ℕ

abbrev pub ClassId : Type 0
ClassId = ℕ

-- SBTs grouped by their issuer: `Vec<(AccountId, Vec<TokenId>)>`.
abbrev pub Sbts : Type 0
Sbts = List (AccountId × List TokenId)

pub record TokenMetadata : Type 0 where
  pub class : ClassId
  pub issued_at : Option ℕ
  pub expires_at : Option ℕ
  pub reference : Option String
  pub reference_hash : Option (List ℕ)

pub data VerTokenMetadata : Type 0 where
  v1 : TokenMetadata → VerTokenMetadata

-- `VerTokenMetadata::v1`, whose name is the constructor's here.
abbrev pub to_v1 : VerTokenMetadata → TokenMetadata
to_v1 (v1 x) = x

abbrev pub class_id : VerTokenMetadata → ClassId
class_id (v1 x) = x.class

abbrev pub expires_at : VerTokenMetadata → Option ℕ
expires_at (v1 x) = x.expires_at

pub record TokenData : Type 0 where
  pub owner : AccountId
  pub metadata : VerTokenMetadata

pub record Token : Type 0 where
  pub token : TokenId
  pub owner : AccountId
  pub metadata : TokenMetadata

pub record OwnedToken : Type 0 where
  pub token : TokenId
  pub metadata : TokenMetadata

abbrev pub to_token : TokenData → TokenId → Token
to_token td token = record { token = token; owner = td.owner; metadata = to_v1 td.metadata }

pub record ContractMetadata : Type 0 where
  pub spec : String
  pub name : String
  pub symbol : String
  pub icon : Option String
  pub base_uri : Option String
  pub reference : Option String
  pub reference_hash : Option (List ℕ)

pub record ClassMetadata : Type 0 where
  pub name : String
  pub symbol : Option String
  pub icon : Option String
  pub reference : Option String
  pub reference_hash : Option (List ℕ)

-- `Nep393Event`, each with its payload.
pub data Nep393Event : Type 0 where
  mint : AccountId → List (AccountId × List TokenId) → Nep393Event
  recover : AccountId → AccountId → AccountId → Nep393Event
  renew : AccountId → List TokenId → Nep393Event
  revoke : AccountId → List TokenId → Nep393Event
  burn : AccountId → List TokenId → Nep393Event
  soul_transfer : AccountId → AccountId → Nep393Event
  ban : List AccountId → Nep393Event
  token_reference : AccountId → List TokenId → Nep393Event
