-- ===== src/Hidpp/Transport/Discovery.antt =====
-- The feature table of a device: `get_feature_metadata`, `get_feature_set`, `supports_feature`.
use abrek_mouse.Prelude.{
  ℕ, zero, suc, ◌+◌, ◌%◌, Bool, true, false, Option, none, some, List, [], ◌∷◌, ◌++◌, map, leb,
  ◌==◌,
}
use abrek_mouse.Hidpp.Features.{has_feature}
use abrek_mouse.Hidpp.Records.{Metadata, parse_feature_metadata}
use abrek_mouse.Hidpp.Transport.Monad.{M, pure, ◌>>=◌, ◌>>◌}
use abrek_mouse.Hidpp.Transport.State.{target_of, cache_key, find, assign, budget_spent}
use abrek_mouse.Hidpp.Transport.Request.{send_feature_request, root_reply}

-- kIdentifyTimeoutStreak: an enumeration gives up after this many misses in a row.
abbrev pub timeout_streak : ℕ
timeout_streak = 3

unfoldable pub cache_index : ℕ → ℕ → ℕ → M (Unit {0})
cache_index target feature index t =
    (tt, record t { feature_indices = assign (cache_key target feature) index t.feature_indices })

abbrev parse_reply : ℕ → Option (List ℕ) → Option Metadata
parse_reply i none = none
parse_reply i (some d) = parse_feature_metadata i d

-- The loop over the dynamic indices from `i` on, `left` of them, with the misses in a row so far.
unfoldable pub enumerate : ℕ → ℕ → ℕ → ℕ → ℕ → List Metadata → M (List Metadata)
enumerate zero i misses set_index target features = pure features
enumerate (suc left) i misses set_index target features = do
  late ← budget_spent
  elim late [
    | true ↦ pure features
    | false ↦ elim (i == set_index) [
      | true ↦ enumerate left (i + 1) misses set_index target features
      | false ↦ do
        reply ← send_feature_request set_index 0x01 ((i % 256) ∷ []) target
        elim (parse_reply (i % 256) reply) [
          | none ↦ elim (leb timeout_streak (misses + 1)) [
            | true ↦ pure features
            | false ↦ enumerate left (i + 1) (misses + 1) set_index target features
          ]
          | some m ↦ do
            cache_index target m.feature_id (i % 256)
            enumerate left (i + 1) 0 set_index target (features ++ m ∷ [])
        ]
    ]
  ]

abbrev pub first_byte : Option (List ℕ) → Option ℕ
first_byte none = none
first_byte (some []) = none
first_byte (some (b ∷ d)) = some b

abbrev plain_entry : ℕ → ℕ → Metadata
plain_entry feature index = record { feature_id = feature; index = index; flags = 0; version = 0 }

unfoldable pub store_metadata : ℕ → List Metadata → M (List Metadata)
store_metadata target features t =
    (features, record t { feature_metadata_sets = assign target features t.feature_metadata_sets })

-- The feature set's count leaves ROOT out, so the indices run to the count itself.
discover : ℕ → M (List Metadata)
discover target = do
  found ← send_feature_request 0 0x00 (0 ∷ 1 ∷ 0 ∷ []) target
  elim (root_reply found) [
    | none ↦ pure []
    | some set_index ↦ do
      cache_index target 0x0001 set_index
      counted ← send_feature_request set_index 0x00 (0 ∷ 0 ∷ 0 ∷ []) target
      elim (first_byte counted) [
        | none ↦ pure []
        | some count ↦ do
          features ←
              enumerate count 1 0 set_index target
                (plain_entry 0x0000 0 ∷ plain_entry 0x0001 set_index ∷ [])
          store_metadata target features
      ]
  ]

unfoldable pub get_feature_metadata : ℕ → M (List Metadata)
unfolding discover
get_feature_metadata target t =
    let key = target_of t target in
    let fresh = discover key t in
    elim (find key t.feature_metadata_sets) [ some ms ↦ (ms, t) | none ↦ fresh ]

unfoldable pub store_feature_set : ℕ → List (ℕ × ℕ) → M (List (ℕ × ℕ))
store_feature_set target features t =
    (features, record t { feature_sets = assign target features t.feature_sets })

abbrev pairs : List Metadata → List (ℕ × ℕ)
pairs = map λ m. (m.feature_id, m.index)

list_features : ℕ → M (List (ℕ × ℕ))
list_features target = do
  metadata ← get_feature_metadata target
  store_feature_set target (pairs metadata)

unfoldable pub get_feature_set : ℕ → M (List (ℕ × ℕ))
unfolding list_features
get_feature_set target t =
    let key = target_of t target in
    let fresh = list_features key t in
    elim (find key t.feature_sets) [ some fs ↦ (fs, t) | none ↦ fresh ]

supports_feature : ℕ → ℕ → M Bool
supports_feature feature target = elim (feature == 0) [
  | true ↦ pure false
  | false ↦ do features ← get_feature_set target; pure (has_feature features feature)
]
