-- ===== src/Kudos/Json.antt =====
-- The JSON answers of the external database (contracts/kudos/src/utils.rs and callbacks/utils.rs).
pub mod Paths
use i_am_human.Base.{
  ℕ, Bool, true, false, not, Option, none, some, List, [], ◌∷◌, leb, ltb, if◌then◌else◌,
}
use i_am_human.Near.{AccountId}
use i_am_human.Near.Keys.{list_eq}
use i_am_human.Near.Text.{Chars}
use i_am_human.Kudos.{KudosId}

-- `serde_json::Value`, as far as the code looks into it: objects, and the other values by a text.
mutual
  pub data Value : Type 0 where
    scalar : Chars → Value
    object : Members → Value

  pub data Members : Type 0 where
    end : Members
    member : Chars → Value → Members → Members

-- `Map::get`
unfoldable pub get_member : Chars → Members → Option Value
get_member key end = none
get_member key (member k v ms) = if list_eq k key then some v else get_member key ms

-- The members after `Map::remove`.
unfoldable pub drop_member : Chars → Members → Members
drop_member key end = end
drop_member key (member k v ms) =
    let rest = drop_member key ms in if list_eq k key then ms else member k v rest

-- The members after a change through `Map::get_mut`.
unfoldable pub put_member : Chars → Value → Members → Members
put_member key new end = end
put_member key new (member k v ms) =
    let rest = put_member key new ms in if list_eq k key then member k new ms else member k v rest

-- `remove_key_from_json`, with the keys between the slashes: what was removed, and the value after.
unfoldable pub remove_key_from_json : List Chars → Value → Option Value × Value
unfolding get_member drop_member put_member
remove_key_from_json [] v = (none, v)
remove_key_from_json (key ∷ keys) (scalar t) = (none, scalar t)
remove_key_from_json (key ∷ []) (object ms) = (get_member key ms, object (drop_member key ms))
remove_key_from_json (key ∷ next ∷ keys) (object ms) = elim (get_member key ms) [
  | none ↦ (none, object ms)
  | some v ↦ (let r = remove_key_from_json (next ∷ keys) v in (r.0, object (put_member key r.1 ms)))
]

pub data KudosKind : Type 0 where
  kudos ding : KudosKind

-- What the contract takes from serde: the kind and the account that a value names, and of a value that is an object
-- with the names of accounts as keys, the number of keys; and the text of accounts and numbers.
pub record Reading : Type 0 where
  pub kind_of : Value → Option KudosKind
  pub upvoters_of : Value → Option ℕ
  pub account_of : Value → Option AccountId
  pub account_text : AccountId → Chars
  pub number_text : ℕ → Chars

-- "kudos"
abbrev pub kudos_key : Chars
kudos_key = 107 ∷ 117 ∷ 100 ∷ 111 ∷ 115 ∷ []

-- "hashtags"
abbrev pub hashtags_key : Chars
hashtags_key = 104 ∷ 97 ∷ 115 ∷ 104 ∷ 116 ∷ 97 ∷ 103 ∷ 115 ∷ []

-- "upvotes"
abbrev pub upvotes_key : Chars
upvotes_key = 117 ∷ 112 ∷ 118 ∷ 111 ∷ 116 ∷ 101 ∷ 115 ∷ []

-- "kind"
abbrev pub kind_key : Chars
kind_key = 107 ∷ 105 ∷ 110 ∷ 100 ∷ []

module _ (reading : Reading) where
  unfoldable pub build_initial_json_for_socialdb : AccountId → Value
  build_initial_json_for_socialdb root_id = object (
      member (reading.account_text root_id)
        (object (member kudos_key (object end) (member hashtags_key (object end) end))) end)

  -- The paths as the keys between the slashes, of which the names of accounts have none.
  unfoldable pub build_kudos_upvotes_path : AccountId → AccountId → KudosId → List Chars
  build_kudos_upvotes_path root_id receiver_id kudos_id =
      reading.account_text root_id
      ∷ kudos_key
      ∷ reading.account_text receiver_id
      ∷ reading.number_text kudos_id
      ∷ upvotes_key
      ∷ []

  unfoldable pub build_kudos_kind_path : AccountId → AccountId → KudosId → List Chars
  build_kudos_kind_path root_id receiver_id kudos_id =
      reading.account_text root_id
      ∷ kudos_key
      ∷ reading.account_text receiver_id
      ∷ reading.number_text kudos_id
      ∷ kind_key
      ∷ []

  -- The kind, with the arm for a kudos that has none.
  abbrev pub kind_or_kudos : Option Value → Option KudosKind
  kind_or_kudos none = some kudos
  kind_or_kudos (some v) = reading.kind_of v

  abbrev pub enough : Option Value → ℕ → Bool
  enough none required = false
  enough (some v) required = elim (reading.upvoters_of v) [
    | none ↦ false
    | some n ↦ not (ltb n required)
  ]

  -- Whether it returns `Ok`; `res` is the database's answer, `none` if its call failed.
  unfoldable pub parse_kudos_and_verify_if_allowed_to_exchange :
      Option Value → List Chars → List Chars → ℕ → Bool
  unfolding remove_key_from_json
  parse_kudos_and_verify_if_allowed_to_exchange none upvotes_path kind_path required = false
  parse_kudos_and_verify_if_allowed_to_exchange (some json) upvotes_path kind_path required =
      let r = remove_key_from_json kind_path json in
      elim (kind_or_kudos r.0) [
        | none ↦ false
        | some ding ↦ false
        | some kudos ↦ enough (remove_key_from_json upvotes_path r.1).0 required
      ]
