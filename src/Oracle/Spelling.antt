-- ===== src/Oracle/Spelling.antt =====
-- Which accounts and which spellings of an identity the oracle takes for the same
-- (contracts/oracle/src/util.rs).
use i_am_human.Base.{
  ℕ, ◌+◌, ◌-◌, ◌≡◌, ◌↔◌, ◌⊎◌, refl, ap, ◌∙◌, sym, Bool, true, ◌&&◌, ◌||◌, [], ◌∷◌, map, length,
  arith, if◌then◌else◌, ◌==◌, leb,
}
use i_am_human.Near.Text.{Chars, ends_with, is_ascii_hexdigit, lowercase, to_lowercase}
use i_am_human.Oracle.{Platform}
use i_am_human.Oracle.Account.{
  Scan, scan, is_supported_account, dot_near, dot_testnet, strip_0x, normalize_external_id,
}

-- How many dots a name has.
abbrev pub dots : Chars → ℕ
dots [] = 0
dots (c ∷ cs) = (if c == 46 then 1 else 0) + dots cs

-- Every character is a hexadecimal digit.
abbrev pub all_hexdigits : Chars → Bool
all_hexdigits [] = true
all_hexdigits (c ∷ cs) = is_ascii_hexdigit c && all_hexdigits cs

-- The loop counts the dots and the characters.
scan-counts :
    (cs : Chars) (s : Scan)
    → ((scan cs s).num_dots ≡ s.num_dots + dots cs)
      × ((scan cs s).len ≡ s.len + length cs)
      × ((scan cs s).all_hex ≡ (s.all_hex && all_hexdigits cs))
unfolding scan
scan-counts [] s = ground arith
scan-counts (c ∷ cs) s = ground (
  arith,
  scan-counts cs (record {
    num_dots = if c == 46 then s.num_dots + 1 else s.num_dots;
    len = s.len + 1;
    all_hex = s.all_hex && is_ascii_hexdigit c;
  }),
)

-- The networks on which an implicit account is told by its name.
abbrev pub is_public : Chars → Bool
is_public current = ends_with current dot_near || ends_with current dot_testnet

-- An account is supported exactly if its name has one dot, or has no dot and, on a public network,
-- is 64 hexadecimal digits.
pub is_supported_account_iff :
    (current account : Chars)
    → (is_supported_account current account ≡ true) ↔ (
        (dots account ≡ 1)
        ⊎ ((dots account ≡ 0)
            × (is_public current ≡ true → (length account ≡ 64) × (all_hexdigits account ≡ true))))
unfolding is_supported_account
is_supported_account_iff current account =
    ground (arith, scan-counts account (record { num_dots = 0; len = 0; all_hex = true }))

-- A letter of the other case: lower case letters become capitals.
abbrev pub capital : ℕ → ℕ
capital c = if leb 97 c && leb c 122 then c - 32 else c

lowercase-capital : (other : ℕ → Chars) (c : ℕ) → lowercase other (capital c) ≡ lowercase other c
lowercase-capital other c = ground arith

to_lowercase-capital :
    (other : ℕ → Chars) (cs : Chars) → to_lowercase other (map capital cs) ≡ to_lowercase other cs
to_lowercase-capital other [] = refl
to_lowercase-capital other (c ∷ cs) =
    rw (lowercase-capital other c, to_lowercase-capital other cs) refl

-- An identity has the same bytes with the prefix "0x" and without it, if it does not begin with one
-- itself, and the same bytes if the letters after the prefix are written as capitals.
pub normalize_external_id-spelling :
    (platform : Platform) (id : Chars)
    → strip_0x id ≡ id
    → (normalize_external_id platform (48 ∷ 120 ∷ id) ≡ normalize_external_id platform id)
      × (normalize_external_id platform (48 ∷ 120 ∷ map capital id)
          ≡ normalize_external_id platform id)
unfolding normalize_external_id
normalize_external_id-spelling platform id h = (
  ap (λ x. platform.hex_decode (to_lowercase platform.other_lowercase x)) (sym h),
  ap platform.hex_decode (
      to_lowercase-capital platform.other_lowercase id
      ∙ ap (to_lowercase platform.other_lowercase) (sym h)),
)
