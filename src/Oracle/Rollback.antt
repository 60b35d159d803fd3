-- ===== src/Oracle/Rollback.antt =====
-- A mint that the registry refuses: `sbt_mint` and its callback (contracts/oracle/src/lib.rs).
use i_am_human.Base.{
  ◌≡◌, refl, ap, ◌∙◌, Bool, true, ◌&&◌, ltb, [], ◌∷◌, none, some, ◌>>=◌, Returns, Returns-bind,
  Returns-mono, Returns-expect, Returns-modify, Returns-pure,
}
use i_am_human.Near.{Env}
use i_am_human.Near.Keys.{list_key}
use i_am_human.Near.Text.{Chars}
use i_am_human.Near.Lookup.{drop, drop-add}
use i_am_human.Oracle.{Bytes, Claim, Contract, Platform}
use i_am_human.Oracle.Account.{normalize_external_id}
use i_am_human.Oracle.Mint.{sbt_mint, sbt_mint_callback}
use i_am_human.Oracle.Guards.{IsAccepted, sbt_mint-succeeds, use_identity}

-- The numbers are bytes.
abbrev pub are_bytes : Bytes → Bool
are_bytes [] = true
are_bytes (x ∷ xs) = ltb x 256 && are_bytes xs

-- What the crate hex documents: it decodes to bytes, and decoding undoes the encoding of bytes.
pub record HexLaws (platform : Platform) : Type 0 where
  pub decode_bytes : (cs : Chars) (b : Bytes) → platform.hex_decode cs ≡ some b → are_bytes b ≡ true
  pub decode-encode :
      (b : Bytes) → are_bytes b ≡ true → platform.hex_decode (platform.hex_encode b) ≡ some b

-- A normalised identity is bytes.
pub normalize_external_id_bytes :
    (platform : Platform)
    → HexLaws platform
    → (cs : Chars) (id : Bytes) → normalize_external_id platform cs ≡ some id
    → are_bytes id ≡ true
unfolding normalize_external_id
normalize_external_id_bytes platform laws cs id h = laws.decode_bytes _ id h

-- The registry's refusal takes the identity back.
pub sbt_mint_callback-drops :
    (platform : Platform)
    → HexLaws platform
    → (id : Bytes) (s : Contract) → are_bytes id ≡ true
    → Returns
        (λ r t. (r ≡ none) × (t ≡ record s { used_identities = drop id s.used_identities }))
        (sbt_mint_callback platform (platform.hex_encode id) none s)
unfolding sbt_mint_callback
sbt_mint_callback-drops platform laws id s b =
    Returns-expect _ _ _ _ _ id (laws.decode-encode id b)
      (Returns-modify _ _ _ _ (Returns-pure _ _ _ _ (refl, refl)))

-- If the hex codec decodes what it encodes, an accepted claim whose mint the registry then refuses
-- leaves the contract as it was, without a panic.
pub sbt_mint-callback_restores :
    (platform : Platform) (env : Env) (claim_b64 claim_sig : Chars) (s : Contract) (claim : Claim)
    (id : Bytes)
    → HexLaws platform
    → IsAccepted platform env claim_b64 claim_sig s claim id
    → Returns
        (λ r t. (r ≡ none) × (t ≡ s))
        ((sbt_mint platform env claim_b64 claim_sig >>= λ p.
            sbt_mint_callback platform p.external_id none)
          s)
sbt_mint-callback_restores platform env claim_b64 claim_sig s claim id laws a =
    Returns-bind _ _ _ _ _ (sbt_mint-succeeds platform env claim_b64 claim_sig s claim id a)
      λ p t h.
        rw (h.0, h.1)
          (Returns-mono _ _ _
            (λ r u k. (
              k.0,
              k.1
                  ∙ ap (λ m. record s { used_identities = m })
                      (drop-add id s.used_identities a.unused),
            ))
            (sbt_mint_callback-drops platform laws id (use_identity id s)
              (normalize_external_id_bytes platform laws claim.external_id id a.identity)))
