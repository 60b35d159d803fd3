-- ===== src/Community/Tests.antt =====
-- Runs of the community contracts on small states, and the theorems at those runs.
use i_am_human.Base.{
  refl, Returns, ◌>>◌, ◌-◌, ◌*◌, ◌≡◌, true, false, ◌&&◌, List, [], ◌∷◌, none, some, contains, arith,
  err, is_ok, Ensures, SucceedsIf,
}
use i_am_human.Near.{AccountId, Env}
use i_am_human.Near.Words.{add_u64}
use i_am_human.Near.Keys.{ℕ_key}
use i_am_human.Near.Lookup.{empty, insert}
use i_am_human.Sbt.{TokenMetadata, ContractMetadata}
use i_am_human.Cost.{mint_cost}
use i_am_human.Community.{not_minter}
use i_am_human.Community.Vectors.{listed}
use i_am_human.Community.Loops.{all_allowed, tokens_of, is_paid, mint_of}
use i_am_human.Community.Checks.{answered, all_renewable, all_minted}
use i_am_human.Community.Closed as Closed
use i_am_human.Community.Closed.Issuing.{sbt_mint_many-exact, sbt_callbacks-exact}
use i_am_human.Community.Closed.Classes.{is_admin, IsValid, Keeps}
use i_am_human.Community.Closed.Management.{authorizing, manage, manage-IsValid}
use i_am_human.Community.Closed.Minters.{authorize-unauthorize, unauthorize-bars}
use i_am_human.Community.Open as Open
use i_am_human.Community.Open.Minters.{added, Relisted, minters-listed}

abbrev no_metadata : ContractMetadata
no_metadata = record {
  spec = "community";
  name = "community";
  symbol = "C";
  icon = none;
  base_uri = none;
  reference = none;
  reference_hash = none;
}

-- Account 9 is the admin, account 4 the minter of class 1.
abbrev a_class : Closed.ClassMinters
a_class = record { requires_iah = true; minters = 4 ∷ []; max_ttl = 90000000 }

abbrev one_class : Closed.Contract
one_class = record (Closed.new 3 9 no_metadata) { classes = insert 1 a_class empty; next_class = 2 }

one_class-IsValid : IsValid one_class
unfolding Closed.new
one_class-IsValid = record {
  positive = omega arith;
  numbered = λ c e. ground (arith, e);
  enabled = λ c l r. ground (arith, l, r);
  distinct = λ c cm a e. ground (arith, e);
}

abbrev call_by : AccountId → Env
call_by account = record {
  predecessor = account;
  now = 5000;
  attached_deposit = 2 * mint_cost;
  storage_byte_cost = 1;
  prepaid_gas = 100000000000000;
  signer = account;
  current_account = 1;
}

abbrev a_token : TokenMetadata
a_token = record {
  class = 1;
  issued_at = none;
  expires_at = some 999999999999;
  reference = none;
  reference_hash = none;
}

abbrev a_spec : List (AccountId × List TokenMetadata)
a_spec = (5, a_token ∷ []) ∷ (6, a_token ∷ []) ∷ []

sbt_mint_many-exact_example :
    SucceedsIf
      (all_allowed (Closed.class_info_minter (call_by 4) one_class) (tokens_of a_spec)
        && is_paid (call_by 4) a_spec)
      (λ p t.
        (p ≡ mint_of (Closed.class_info_minter (call_by 4) one_class) (call_by 4) a_spec)
        × (t ≡ one_class))
      (Closed.sbt_mint_many (call_by 4) a_spec one_class)
sbt_mint_many-exact_example = sbt_mint_many-exact (call_by 4) a_spec one_class

sbt_callbacks-exact_example :
    SucceedsIf
      (answered (all_renewable (Closed.minters_ttl one_class) 4 1000) (some (some 1 ∷ [])))
      (λ p t. (p ≡ record { tokens = 7 ∷ []; expires_at = add_u64 5000 1000 }) × (t ≡ one_class))
      (Closed.on_sbt_renew_callback (call_by 1) 4 (7 ∷ []) 1000 (some (some 1 ∷ [])) one_class)
    × SucceedsIf
        (answered (all_minted (Closed.minters_ttl one_class) 4) (some (some 1 ∷ [])))
        (λ p t. (p ≡ record { tokens = 7 ∷ []; burn = true }) × (t ≡ one_class))
        (Closed.on_sbt_revoke_callback 4 (7 ∷ []) true (some (some 1 ∷ [])) one_class)
sbt_callbacks-exact_example =
    sbt_callbacks-exact (call_by 1) 4 (7 ∷ []) 1000 true (some (some 1 ∷ [])) one_class

manage-IsValid_example :
    Ensures
      (λ _ t. (is_admin 9 one_class ≡ true) × IsValid t × Keeps one_class t)
      (manage (call_by 9) (authorizing 1 5) one_class)
manage-IsValid_example =
    manage-IsValid (call_by 9) (authorizing 1 5) one_class one_class-IsValid (omega arith)

authorize-unauthorize_example :
    Returns
      (λ _ t. t ≡ one_class)
      ((Closed.authorize (call_by 9) 1 5 >> Closed.unauthorize (call_by 9) 1 5) one_class)
unfolding Closed.new
authorize-unauthorize_example =
    authorize-unauthorize (call_by 9) 1 5 one_class a_class refl refl refl

unauthorize-bars_example :
    Ensures
      (λ _ t.
        (mint : Env) → mint.predecessor ≡ 4 → Closed.class_info_minter mint t 1 ≡ err not_minter)
      (Closed.unauthorize (call_by 9) 1 4 one_class)
    × Ensures
        (λ _ t.
          (mint : Env) → mint.predecessor ≡ 4 → is_ok (Closed.class_info_minter mint t 1) ≡ true)
        (Closed.authorize (call_by 9) 1 4 one_class)
unauthorize-bars_example = unauthorize-bars (call_by 9) 1 4 one_class one_class-IsValid

-- Account 9 is the admin of class 1, and account 4 is listed twice.
abbrev twice_listed : Open.ClassMinters
twice_listed = record {
  requires_iah = false;
  admins = 9 ∷ [];
  minters = 4 ∷ 4 ∷ [];
  max_ttl = 90000000;
}

abbrev open_class : Open.Contract
open_class = record (Open.new 3 no_metadata) {
  classes = insert 1 twice_listed empty;
  next_class = 2;
}

minters-listed_example :
    SucceedsIf
      (is_ok (Open.class_info_admin (call_by 9) open_class 1))
      (λ _ t.
        Relisted
          (λ before after.
            (a : AccountId) → listed a after ≡ added (contains a (4 ∷ [])) (listed a before))
          1
          open_class
          t)
      (Open.add_minters (call_by 9) 1 (4 ∷ []) open_class)
    × SucceedsIf
        (is_ok (Open.class_info_admin (call_by 9) open_class 1))
        (λ _ t.
          Relisted
            (λ before after. (a : AccountId) → listed a after ≡ listed a before - listed a (4 ∷ []))
            1
            open_class
            t)
        (Open.remove_minters (call_by 9) 1 (4 ∷ []) open_class)
minters-listed_example = minters-listed (call_by 9) 1 (4 ∷ []) open_class
