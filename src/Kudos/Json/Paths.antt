-- ===== src/Kudos/Json/Paths.antt =====
-- What is taken out of an answer of the external database, against a plain look along the path
-- (contracts/kudos/src/utils.rs and callbacks/utils.rs).
use i_am_human.Base.{
  ℕ, ◌≤◌, ◌≡◌, ◌≢◌, refl, ap, ◌∙◌, true, Option, none, some, List, [], ◌∷◌, ◌++◌, arith,
  Option-cases, inl, inr,
}
use i_am_human.Near.{AccountId}
use i_am_human.Near.Keys.{list_eq_iff}
use i_am_human.Near.Text.{Chars}
use i_am_human.Kudos.{KudosId}
use i_am_human.Kudos.Json.{
  Value, scalar, object, Members, end, member, get_member, drop_member, put_member,
  remove_key_from_json, Reading, kudos, ding, kind_or_kudos, enough, kudos_key, upvotes_key,
  kind_key, build_kudos_upvotes_path, build_kudos_kind_path,
  parse_kudos_and_verify_if_allowed_to_exchange,
}

-- The value at a path.
abbrev pub look_up : List Chars → Value → Option Value
look_up [] v = some v
look_up (k ∷ ks) (scalar t) = none
look_up (k ∷ ks) (object ms) = elim (get_member k ms) [ none ↦ none | some v ↦ look_up ks v ]

get_member-drop_member :
    (a b : Chars) (ms : Members) → a ≢ b → get_member b (drop_member a ms) ≡ get_member b ms
unfolding get_member drop_member
get_member-drop_member a b end ne = refl
get_member-drop_member a b (member k v ms) ne =
    ground (arith, get_member-drop_member a b ms ne, list_eq_iff k a, list_eq_iff k b)

get_member-put_member :
    (k : Chars) (v old : Value) (ms : Members)
    → get_member k ms ≡ some old
    → get_member k (put_member k v ms) ≡ some v
unfolding get_member put_member
get_member-put_member k v old end h = ground (arith, h)
get_member-put_member k v old (member j w ms) h =
    ground (arith, h, get_member-put_member k v old ms)

pub remove_key_from_json-look_up :
    (k : Chars) (ks : List Chars) (v : Value)
    → (remove_key_from_json (k ∷ ks) v).0 ≡ look_up (k ∷ ks) v
unfolding remove_key_from_json
remove_key_from_json-look_up k [] (scalar t) = refl
remove_key_from_json-look_up k (j ∷ ks) (scalar t) = refl
remove_key_from_json-look_up k [] (object ms) = elim (Option-cases (get_member k ms)) [
  | inl e ↦ rw (e, look_up) refl
  | inr (v, e) ↦ rw (e, look_up) refl
]
remove_key_from_json-look_up k (j ∷ ks) (object ms) = elim (Option-cases (get_member k ms)) [
  | inl e ↦ rw (e, look_up, remove_key_from_json) refl
  | inr (v, e) ↦ rw (e, look_up, remove_key_from_json) (remove_key_from_json-look_up j ks v)
]

-- One key of a path that goes on.
remove_key_from_json-step :
    (k a : Chars) (ks : List Chars) (ms : Members) (v : Value)
    → get_member k ms ≡ some v
    → (remove_key_from_json (k ∷ (ks ++ (a ∷ []))) (object ms)).1
      ≡ object (put_member k (remove_key_from_json (ks ++ (a ∷ [])) v).1 ms)
unfolding remove_key_from_json
remove_key_from_json-step k a [] ms v e = rw (e, remove_key_from_json) refl
remove_key_from_json-step k a (c ∷ cs) ms v e = rw (e, remove_key_from_json) refl

remove_key_from_json-stop :
    (k a : Chars) (ks : List Chars) (ms : Members)
    → get_member k ms ≡ none
    → (remove_key_from_json (k ∷ (ks ++ (a ∷ []))) (object ms)).1 ≡ object ms
unfolding remove_key_from_json
remove_key_from_json-stop k a [] ms e = rw (e, remove_key_from_json) refl
remove_key_from_json-stop k a (c ∷ cs) ms e = rw (e, remove_key_from_json) refl

remove_key_from_json-scalar :
    (k a : Chars) (ks : List Chars) (t : Chars)
    → (remove_key_from_json (k ∷ (ks ++ (a ∷ []))) (scalar t)).1 ≡ scalar t
unfolding remove_key_from_json
remove_key_from_json-scalar k a [] t = refl
remove_key_from_json-scalar k a (c ∷ cs) t = refl

remove_key_from_json-last :
    (a : Chars) (ms : Members)
    → (remove_key_from_json (a ∷ []) (object ms)).1 ≡ object (drop_member a ms)
unfolding remove_key_from_json
remove_key_from_json-last a ms = refl

remove_key_from_json-text : (a t : Chars) → (remove_key_from_json (a ∷ []) (scalar t)).1 ≡ scalar t
unfolding remove_key_from_json
remove_key_from_json-text a t = refl

-- To take out one member of an object leaves the others of it.
look_up-remove_key_from_json :
    (a b : Chars) (base : List Chars) (v : Value)
    → a ≢ b
    → look_up (base ++ (b ∷ [])) (remove_key_from_json (base ++ (a ∷ [])) v).1
      ≡ look_up (base ++ (b ∷ [])) v
look_up-remove_key_from_json a b [] (scalar t) ne =
    ap (look_up (b ∷ [])) (remove_key_from_json-text a t)
look_up-remove_key_from_json a b [] (object ms) ne =
    ap (look_up (b ∷ [])) (remove_key_from_json-last a ms)
    ∙ rw (get_member-drop_member a b ms ne, look_up) refl
look_up-remove_key_from_json a b (k ∷ ks) (scalar t) ne =
    ap (look_up (k ∷ (ks ++ (b ∷ [])))) (remove_key_from_json-scalar k a ks t)
look_up-remove_key_from_json a b (k ∷ ks) (object ms) ne = elim (Option-cases (get_member k ms)) [
  | inl e ↦ ap (look_up (k ∷ (ks ++ (b ∷ [])))) (remove_key_from_json-stop k a ks ms e)
  | inr (v, e) ↦
      ap (look_up (k ∷ (ks ++ (b ∷ [])))) (remove_key_from_json-step k a ks ms v e)
      ∙ rw (get_member-put_member k (remove_key_from_json (ks ++ (a ∷ [])) v).1 v ms e, look_up)
          (rw (e, look_up) (look_up-remove_key_from_json a b ks v ne))
]

module _ (reading : Reading) where
  -- The answer holds a kudos of the receiver, which is no ding, with so many upvoters.
  abbrev pub Upvoted : Value → AccountId → AccountId → KudosId → ℕ → Type 0
  Upvoted json root_id receiver_id id required =
      (kind_or_kudos reading (look_up (build_kudos_kind_path reading root_id receiver_id id) json)
        ≡ some kudos)
      × ((raw : Value) × (n : ℕ) × (look_up
              (build_kudos_upvotes_path reading root_id receiver_id id) json
            ≡ some raw)
          × (reading.upvoters_of raw ≡ some n)
          × (required ≤ n))

  enough-upvoters :
      (o : Option Value) (required : ℕ)
      → enough reading o required ≡ true
      → (raw : Value) × (n : ℕ) × (o ≡ some raw)
        × (reading.upvoters_of raw ≡ some n)
        × (required ≤ n)
  enough-upvoters none required h = absurd (ground (arith, h))
  enough-upvoters (some raw) required h = elim (Option-cases (reading.upvoters_of raw)) [
    | inl e ↦ absurd (ground (arith, e, h))
    | inr (n, e) ↦ (raw, n, refl, e, ground (arith, e, h))
  ]

  upvotes-kind :
      (json : Value) (root_id receiver_id : AccountId) (id : KudosId)
      → (remove_key_from_json
          (build_kudos_upvotes_path reading root_id receiver_id id)
          (remove_key_from_json (build_kudos_kind_path reading root_id receiver_id id) json).1).0
        ≡ look_up (build_kudos_upvotes_path reading root_id receiver_id id) json
  unfolding build_kudos_upvotes_path build_kudos_kind_path
  upvotes-kind json root_id receiver_id id =
      remove_key_from_json-look_up _ _ _
      ∙ look_up-remove_key_from_json kind_key upvotes_key
          (reading.account_text root_id
            ∷ kudos_key
            ∷ reading.account_text receiver_id
            ∷ reading.number_text id
            ∷ [])
          json (λ e. absurd (ground (arith, e)))

  kind-look_up :
      (json : Value) (root_id receiver_id : AccountId) (id : KudosId)
      → (remove_key_from_json (build_kudos_kind_path reading root_id receiver_id id) json).0
        ≡ look_up (build_kudos_kind_path reading root_id receiver_id id) json
  unfolding build_kudos_kind_path
  kind-look_up json root_id receiver_id id = remove_key_from_json-look_up _ _ json

  -- The verdict on an answer is that it holds such a kudos, and a call that failed has none.
  pub parse_kudos-Upvoted :
      (answer : Option Value) (root_id receiver_id : AccountId) (id : KudosId) (required : ℕ)
      → parse_kudos_and_verify_if_allowed_to_exchange reading answer
          (build_kudos_upvotes_path reading root_id receiver_id id)
          (build_kudos_kind_path reading root_id receiver_id id)
          required
        ≡ true
      → (json : Value) × (answer ≡ some json) × Upvoted json root_id receiver_id id required
  unfolding parse_kudos_and_verify_if_allowed_to_exchange
  parse_kudos-Upvoted none root_id receiver_id id required h = absurd (ground (arith, h))
  parse_kudos-Upvoted (some json) root_id receiver_id id required h =
      let kind = kind-look_up json root_id receiver_id id in
      let upvotes = upvotes-kind json root_id receiver_id id in
      elim (Option-cases (
        kind_or_kudos reading
          (look_up (build_kudos_kind_path reading root_id receiver_id id) json))) [
            | inl e ↦ absurd (ground (arith, h, kind, e))
            | inr (ding, e) ↦ absurd (ground (arith, h, kind, e))
            | inr (kudos, e) ↦
                (json, refl, (e, enough-upvoters _ required (ground (arith, h, kind, e, upvotes))))
          ]
