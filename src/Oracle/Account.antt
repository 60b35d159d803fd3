-- ===== src/Oracle/Account.antt =====
-- The accounts and identities that the oracle accepts (contracts/oracle/src/util.rs).
use i_am_human.Base.{
  ℕ, ◌+◌, Bool, true, false, ◌&&◌, ◌||◌, [], ◌∷◌, Option, length, if◌then◌else◌, ◌==◌, expect,
  require, pure, ◌>>=◌, ◌>>◌,
}
use i_am_human.Near.Text.{Chars, ends_with, is_ascii_hexdigit, to_lowercase}
use i_am_human.Oracle.{Bytes, signature_len, signature, bad_pubkey, Call, Platform}

abbrev pub public_key_len : ℕ
public_key_len = 32

abbrev pub signature_length : ℕ
signature_length = 64

-- The variables of the loop of `is_supported_account`.
pub record Scan : Type 0 where
  pub num_dots : ℕ
  pub len : ℕ
  pub all_hex : Bool

-- The loop; 46 is '.'.
unfoldable pub scan : Chars → Scan → Scan
scan [] s = s
scan (c ∷ cs) s = scan cs (record {
  num_dots = if c == 46 then s.num_dots + 1 else s.num_dots;
  len = s.len + 1;
  all_hex = s.all_hex && is_ascii_hexdigit c;
})

-- ".near"
abbrev pub dot_near : Chars
dot_near = 46 ∷ 110 ∷ 101 ∷ 97 ∷ 114 ∷ []

-- ".testnet"
abbrev pub dot_testnet : Chars
dot_testnet = 46 ∷ 116 ∷ 101 ∷ 115 ∷ 116 ∷ 110 ∷ 101 ∷ 116 ∷ []

-- The current account's characters, then those of the account.
unfoldable pub is_supported_account : Chars → Chars → Bool
unfolding scan
is_supported_account current account =
    let s = scan account (record { num_dots = 0; len = 0; all_hex = true }) in
    if s.num_dots == 1
    then true
    else if s.num_dots == 0
    then (if ends_with current dot_near || ends_with current dot_testnet
        then s.len == 64 && s.all_hex
        else true)
    else false

-- `strip_prefix("0x").unwrap_or(&id)`
abbrev pub strip_0x : Chars → Chars
strip_0x [] = []
strip_0x (a ∷ []) = a ∷ []
strip_0x (a ∷ b ∷ cs) = if a == 48 && b == 120 then cs else a ∷ b ∷ cs

module _ (platform : Platform) where
  -- An error is `none`.
  unfoldable pub normalize_external_id : Chars → Option Bytes
  normalize_external_id id =
      platform.hex_decode (to_lowercase platform.other_lowercase (strip_0x id))

  unfoldable pub pubkey_from_b64 : Chars → Call Bytes
  pubkey_from_b64 pubkey = do
    pk_bz ← expect bad_pubkey (platform.b64_decode pubkey)
    require bad_pubkey (length pk_bz == public_key_len)
    pure pk_bz

  unfoldable pub verify_claim : Bytes → Bytes → Bytes → Call (Unit {0})
  verify_claim claim_sig claim pubkey = do
    require signature_len (length claim_sig == signature_length)
    require signature (platform.ed25519_verify claim_sig claim pubkey)
