-- ===== src/Hidpp/Transport/Effects/Rate.antt =====
-- What `set_polling_rate` writes.
use abrek_mouse.Prelude.{
  ℕ, ◌/◌, ◌<◌, ◌≡◌, refl, ◌⊎◌, inl, inr, Bool, true, false, Option, none, some, List, [], ◌∷◌,
  arith, if◌then◌else◌, Option-cases,
}
use abrek_mouse.Hidpp.Bytes.{at}
use abrek_mouse.Hidpp.Packet.{normalize_function_id}
use abrek_mouse.Hidpp.Features.{FeatureIds}
use abrek_mouse.Hidpp.Rate.{rate_code_to_hz, hz_to_rate_code, rate_code_iff}
use abrek_mouse.Hidpp.Transport.Monad.{M, pure, ◌>>=◌}
use abrek_mouse.Hidpp.Transport.State.{Transport, target_of}
use abrek_mouse.Hidpp.Transport.Cache.{
  HasIndex, HasIndex-resolve, HasIndex-request, resolve-HasIndex, send_feature_request-indices,
}
use abrek_mouse.Hidpp.Transport.Request.{send_feature_request, resolve_feature_index, feature_frame}
use abrek_mouse.Hidpp.Transport.Answers.{frame_of, send_feature_request-Sound}
use abrek_mouse.Hidpp.Transport.Onboard.{disable_onboard_profiles_for_write, has_value}
use abrek_mouse.Hidpp.Transport.Rate.{
  SetResult, rate_set, rate_refused, rate_not_offered, set_code, set_extended, set_polling_rate,
  legacy_offers, extended_offers,
}

-- The frame written last is a long report to the target that calls function `setter` of the feature,
-- at the index that the feature has, with `code` as its first parameter.
abbrev pub LastCall : ℕ → ℕ → ℕ → ℕ → Transport → Type 0
LastCall feature setter code target u =
    (f : List ℕ) × (before : List (List ℕ)) × (i : ℕ) × (u.sent ≡ f ∷ before)
    × ((resolve_feature_index feature target u).0 ≡ some i)
    × (at f 0 ≡ 0x11)
    × (at f 1 ≡ target_of u target)
    × (at f 2 ≡ i)
    × (at f 3 / 16 ≡ setter)
    × (at f 4 ≡ code)

module _ (feature query setter : ℕ) (offers : Option (List ℕ) → Bool) (code target : ℕ) where
  abbrev set_offered : ℕ → Bool → M SetResult
  set_offered i b = elim b [
    | false ↦ pure rate_not_offered
    | true ↦ send_feature_request i setter (code ∷ 0 ∷ 0 ∷ []) target >>= λ reply.
        pure (if has_value reply then rate_set else rate_refused)
  ]

  abbrev set_at : Option ℕ → M SetResult
  set_at o = elim o [
    | none ↦ pure rate_not_offered
    | some i ↦ send_feature_request i query [] target >>= λ s. set_offered i (offers s)
  ]

  abbrev asked_for : ℕ → M (Option (List ℕ))
  asked_for i = send_feature_request i setter (code ∷ 0 ∷ 0 ∷ []) target

  frame_LastCall :
      (i : ℕ) (t : Transport)
      → setter < 16
      → HasIndex feature target i t
      → (asked_for i t).1.sent ≡ frame_of t i setter (code ∷ 0 ∷ 0 ∷ []) target ∷ t.sent
      → LastCall feature setter code target (asked_for i t).1
  unfolding feature_frame normalize_function_id
  frame_LastCall i t small held s =
      let params = code ∷ 0 ∷ 0 ∷ [] in
      let kept = HasIndex-request feature target i i setter params target t held in
      let device = (send_feature_request-indices i setter params target t).1 in
      (
        frame_of t i setter (code ∷ 0 ∷ 0 ∷ []) target,
        t.sent,
        i,
        s,
        HasIndex-resolve feature target i (asked_for i t).1 kept,
        refl,
        rw device refl,
        refl,
        ground arith,
        refl,
      )

  set_offered-LastCall :
      (i : ℕ) (b : Bool) (t : Transport)
      → setter < 16
      → HasIndex feature target i t
      → (set_offered i b t).0 ≡ rate_set
      → LastCall feature setter code target (set_offered i b t).1
  set_offered-LastCall i false t small held e = cc
  set_offered-LastCall i true t small held e = elim (Option-cases (asked_for i t).0) [
    | inl n ↦ cc (rw n at e)
    | inr (d, n) ↦
        let sound = send_feature_request-Sound i setter (code ∷ 0 ∷ 0 ∷ []) target t d n in
        frame_LastCall i t small held sound.1
  ]

  set_at-LastCall :
      (o : Option ℕ) (t : Transport)
      → setter < 16
      → ((i : ℕ) → o ≡ some i → HasIndex feature target i t)
      → (set_at o t).0 ≡ rate_set
      → LastCall feature setter code target (set_at o t).1
  set_at-LastCall none t small held e = cc
  set_at-LastCall (some i) t small held e =
      let asked = send_feature_request i query [] target t in
      set_offered-LastCall i (offers asked.0) asked.1 small
        (HasIndex-request feature target i i query [] target t (held i refl)) e

  set_code-LastCall :
      (t : Transport)
      → setter < 16
      → (set_code feature query setter offers code target t).0 ≡ rate_set
      → LastCall feature setter code target (set_code feature query setter offers code target t).1
  unfolding set_code
  set_code-LastCall t small e =
      let found = resolve_feature_index feature target t in
      set_at-LastCall found.0 found.1 small (λ i n. resolve-HasIndex feature target i t n) e

module _ (ids : FeatureIds) (hz target : ℕ) where
  -- The frame written last sets a code that stands for the rate `hz`: by function 3 of the extended
  -- feature, or by function 2 of the older one.
  abbrev pub SetsRate : Transport → Type 0
  SetsRate u =
      ((code : ℕ) × (rate_code_to_hz true code ≡ some hz)
        × LastCall ids.extended_adjustable_report_rate 3 code target u)
      ⊎ ((code : ℕ) × (rate_code_to_hz false code ≡ some hz)
          × LastCall ids.report_rate 2 code target u)

  abbrev extended_code : ℕ → M SetResult
  extended_code code =
      set_code ids.extended_adjustable_report_rate 0x1 0x3 (extended_offers code) code target

  abbrev legacy_code : ℕ → M SetResult
  legacy_code code = set_code ids.report_rate 0x0 0x2 (legacy_offers code) code target

  abbrev finish : SetResult → M Bool
  finish r = elim r [
    | rate_set ↦ pure true
    | rate_refused ↦ pure false
    | rate_not_offered ↦ pure false
  ]

  finish-SetsRate :
      (code : ℕ) (r : SetResult) (u : Transport)
      → rate_code_to_hz true code ≡ some hz
      → (r ≡ rate_set → LastCall ids.extended_adjustable_report_rate 3 code target u)
      → (finish r u).0 ≡ true
      → SetsRate (finish r u).1
  finish-SetsRate code rate_set u c last e = inl (code, c, last refl)
  finish-SetsRate code rate_refused u c last e = cc
  finish-SetsRate code rate_not_offered u c last e = cc

  abbrev try_extended : Option ℕ → M Bool
  try_extended o = elim o [ none ↦ pure false | some code ↦ extended_code code >>= finish ]

  try_extended-SetsRate :
      (o : Option ℕ) (t : Transport)
      → hz_to_rate_code true hz ≡ o
      → (try_extended o t).0 ≡ true
      → SetsRate (try_extended o t).1
  try_extended-SetsRate none t h e = cc
  try_extended-SetsRate (some code) t h e =
      let decoded = (rate_code_iff true code hz).1 h in
      finish-SetsRate code (extended_code code t).0 (extended_code code t).1 decoded
        (set_code-LastCall ids.extended_adjustable_report_rate 0x1 0x3 (extended_offers code) code
          target t (omega arith))
        e

  set_extended-SetsRate :
      (t : Transport)
      → (set_extended ids hz target t).0 ≡ true
      → SetsRate (set_extended ids hz target t).1
  unfolding set_extended
  set_extended-SetsRate t e = try_extended-SetsRate (hz_to_rate_code true hz) t refl e

  abbrev settle : SetResult → M Bool
  settle r = elim r [
    | rate_set ↦ pure true
    | rate_refused ↦ set_extended ids hz target
    | rate_not_offered ↦ set_extended ids hz target
  ]

  settle-SetsRate :
      (code : ℕ) (r : SetResult) (u : Transport)
      → rate_code_to_hz false code ≡ some hz
      → (r ≡ rate_set → LastCall ids.report_rate 2 code target u)
      → (settle r u).0 ≡ true
      → SetsRate (settle r u).1
  settle-SetsRate code rate_set u c last e = inr (code, c, last refl)
  settle-SetsRate code rate_refused u c last e = set_extended-SetsRate u e
  settle-SetsRate code rate_not_offered u c last e = set_extended-SetsRate u e

  abbrev try_legacy : Option ℕ → M Bool
  try_legacy o = elim o [
    | none ↦ set_extended ids hz target
    | some code ↦ legacy_code code >>= settle
  ]

  try_legacy-SetsRate :
      (o : Option ℕ) (t : Transport)
      → hz_to_rate_code false hz ≡ o
      → (try_legacy o t).0 ≡ true
      → SetsRate (try_legacy o t).1
  try_legacy-SetsRate none t h e = set_extended-SetsRate t e
  try_legacy-SetsRate (some code) t h e =
      let decoded = (rate_code_iff false code hz).1 h in
      settle-SetsRate code (legacy_code code t).0 (legacy_code code t).1 decoded
        (set_code-LastCall ids.report_rate 0x0 0x2 (legacy_offers code) code target t (omega arith))
        e

  -- When `set_polling_rate` reports success, the frame written last goes to the target and calls
  -- function 3 of the extended report-rate feature or 2 of the older one, at the index that the
  -- feature has, with a code that this feature decodes to the rate asked for.
  pub set_polling_rate-SetsRate :
      (t : Transport)
      → (set_polling_rate ids hz target t).0 ≡ true
      → SetsRate (set_polling_rate ids hz target t).1
  unfolding set_polling_rate
  set_polling_rate-SetsRate t e =
      try_legacy-SetsRate (hz_to_rate_code false hz)
        (disable_onboard_profiles_for_write ids target t).1 refl e
