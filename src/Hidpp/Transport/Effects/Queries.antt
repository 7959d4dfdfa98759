-- ===== src/Hidpp/Transport/Effects/Queries.antt =====
-- The methods that call no DPI setter, and the frames that they write.
use abrek_mouse.Prelude.{
  ℕ, zero, suc, ◌+◌, ◌-◌, ◌/◌, ◌%◌, ◌≤◌, ◌<◌, ◌≡◌, refl, inl, inr, Bool, true, false, Option, none,
  some, List, [], ◌∷◌, ◌++◌, arith, leb, ◌==◌, Bool-cases, Option-cases, length, drop, replicate,
  length-append, length-replicate,
}
use abrek_mouse.Hidpp.Bytes.{at, hi_byte, lo_byte}
use abrek_mouse.Hidpp.Packet.{normalize_function_id}
use abrek_mouse.Hidpp.Features.{FeatureIds}
use abrek_mouse.Hidpp.Header.{Header}
use abrek_mouse.Hidpp.Dpi.{decode_dpi_levels}
use abrek_mouse.Hidpp.Transport.State.{Transport, target_of, cache_key, find}
use abrek_mouse.Hidpp.Transport.Request.{
  send_feature_request, payload_max, resolve_feature_index, root_reply, feature_frame, store_index,
}
use abrek_mouse.Hidpp.Transport.Answers.{frame_of}
use abrek_mouse.Hidpp.Transport.Onboard.{
  disable_onboard_profiles_for_write, switch_profiles, mark_disabled, has_value, resolved_target,
  profile_active,
}
use abrek_mouse.Hidpp.Transport.Dpi.{
  dpi_request, at_least, read_list, legacy_dpi, get_dpi_info, contains, with_levels, legacy_info,
  extended_info, zeros, ends_with_zero,
}
use abrek_mouse.Hidpp.Transport.Effects.{
  IsValid, Ext, Ext-refl, Keeps, Keeps-pure, Keeps-bind, Keeps-option, Keeps-bool, Keeps-budget,
  Keeps-request,
}

-- A long report that calls the function `function` with a software id that is not 0.
abbrev pub IsCall : ℕ → List ℕ → Type 0
IsCall function f = (length f ≡ 20) × (at f 0 ≡ 0x11) × (0 < at f 3 % 16) × (at f 3 / 16 ≡ function)

-- The functions of the frames that get or switch profiles; the DPI setters, 3 and 6, are not here.
abbrev pub other_functions : List ℕ
other_functions = 0 ∷ 1 ∷ 2 ∷ 5 ∷ []

abbrev pub IsOther : List ℕ → Type 0
IsOther f = (function : ℕ) × (contains other_functions function ≡ true) × IsCall function f

pub frame_of-IsCall :
    (index function : ℕ) (params : List ℕ) (target : ℕ) (t : Transport)
    → IsValid t
    → length params ≤ payload_max
    → IsCall (normalize_function_id function % 16) (frame_of t index function params target)
unfolding feature_frame
frame_of-IsCall index function params target t v h =
    let zero_byte : ℕ = 0 in
    let pad = length-replicate (16 - length params) zero_byte in
    (
      ground (arith, length-append params (replicate (16 - length params) zero_byte), pad),
      refl,
      ground arith,
      ground arith,
    )

Keeps-query :
    (index function : ℕ) (params : List ℕ) (target : ℕ)
    → contains other_functions (normalize_function_id function % 16) ≡ true
    → Keeps IsOther (send_feature_request index function params target)
Keeps-query index function params target q =
    Keeps-request IsOther index function params target (λ t v h.
      (normalize_function_id function % 16, q, frame_of-IsCall index function params target t v h))

keeps_store :
    (key : ℕ) (o : Option ℕ) (t u : Transport)
    → Ext IsOther t u
    → Ext IsOther t (store_index key (o, u)).1
keeps_store key none t u e = e
keeps_store key (some i) t u e = e

pub Keeps-resolve : (feature target : ℕ) → Keeps IsOther (resolve_feature_index feature target)
unfolding resolve_feature_index normalize_function_id
Keeps-resolve feature target = record {
  run = λ t v.
      (let key = cache_key (target_of t target) feature in
        let asked = send_feature_request 0 0 (hi_byte feature ∷ lo_byte feature ∷ 0 ∷ []) target in
        let query =
          (Keeps-query 0 0 (hi_byte feature ∷ lo_byte feature ∷ 0 ∷ []) target refl).run t v in
        elim (Bool-cases (feature == 0)) [
          | inl e ↦ rw e (Ext-refl IsOther t v)
          | inr e ↦ elim (Option-cases (find key t.feature_indices)) [
            | inl c ↦ rw (e, c) (keeps_store key (root_reply (asked t).0) t (asked t).1 query)
            | inr (i, c) ↦ rw (e, c) (Ext-refl IsOther t v)
          ]
        ]);
}

Keeps-dpi_request :
    (feature function : ℕ) (params : List ℕ) (target : ℕ)
    → contains other_functions (normalize_function_id function % 16) ≡ true
    → Keeps IsOther (dpi_request feature function params target)
unfolding dpi_request
Keeps-dpi_request feature function params target q =
    Keeps-bind IsOther _ _ (Keeps-resolve feature target) (λ index.
      Keeps-option IsOther index _ _ (Keeps-pure IsOther none)
        (λ i. Keeps-query i function params target q))

Keeps-read_list :
    (feature function skip target left chunk misses : ℕ) (acc : List ℕ)
    → contains other_functions (normalize_function_id function % 16) ≡ true
    → Keeps IsOther (read_list feature function skip target left chunk misses acc)
unfolding read_list
Keeps-read_list feature function skip target zero chunk misses acc q = Keeps-pure IsOther acc
Keeps-read_list feature function skip target (suc left) chunk misses acc q =
    Keeps-bind IsOther _ _ (Keeps-budget IsOther) (λ late.
      Keeps-bool IsOther late _ _ (Keeps-pure IsOther acc) (
        Keeps-bind IsOther _ _
          (Keeps-dpi_request feature function (0 ∷ 0 ∷ (chunk % 256) ∷ []) target q)
          (λ reply.
            Keeps-option IsOther (at_least (skip + 1) reply) _ _
              (Keeps-bool IsOther (leb 3 (misses + 1)) _ _ (Keeps-pure IsOther acc)
                (Keeps-read_list feature function skip target left (chunk + 1) (misses + 1) acc q))
              (λ d.
                Keeps-bool IsOther (ends_with_zero (acc ++ drop skip d)) _ _
                  (Keeps-pure IsOther (acc ++ drop skip d))
                  (Keeps-read_list feature function skip target left (chunk + 1) 0
                    (acc ++ drop skip d) q)))))

module _ (h : Header) (target : ℕ) where
  open h use {ids, blank_dpi}

  Keeps-legacy_dpi : Keeps IsOther (legacy_dpi h target)
  unfolding legacy_dpi normalize_function_id
  Keeps-legacy_dpi =
      Keeps-bind IsOther _ _ (Keeps-dpi_request ids.adjustable_dpi 0x2 zeros target refl)
        (λ current. Keeps-option IsOther (at_least 5 current) _ _ (Keeps-pure IsOther none) (λ d.
          Keeps-bind IsOther _ _ (Keeps-read_list ids.adjustable_dpi 0x1 1 target 256 0 0 [] refl)
            (λ bytes.
              Keeps-pure IsOther
                (some (with_levels (decode_dpi_levels bytes) (legacy_info blank_dpi d))))))

  pub Keeps-get_dpi_info : Keeps IsOther (get_dpi_info h target)
  unfolding get_dpi_info normalize_function_id
  Keeps-get_dpi_info =
      Keeps-bind IsOther _ _ (Keeps-dpi_request ids.extended_adjustable_dpi 0x1 zeros target refl)
        (λ caps. Keeps-option IsOther (at_least 3 caps) _ _ Keeps-legacy_dpi (λ c.
          Keeps-bind IsOther _ _
            (Keeps-dpi_request ids.extended_adjustable_dpi 0x5 zeros target refl)
            (λ current. Keeps-option IsOther (at_least 5 current) _ _ Keeps-legacy_dpi (λ d.
              Keeps-bind IsOther _ _
                (Keeps-read_list ids.extended_adjustable_dpi 0x2 3 target 256 0 0 [] refl)
                (λ bytes.
                  Keeps-pure IsOther (
                    some (with_levels (decode_dpi_levels bytes) (extended_info blank_dpi c d))))))))

  -- From a valid state, whatever the device answers, reading the DPI settings writes only 20-byte long reports that
  -- call function 0, 1, 2 or 5 with a software id other than 0, never one of the setters 3 and 6;
  -- and it keeps the device index, the product, the range of the next software id and the bound of
  -- the stash.
  pub get_dpi_info-Ext : (t : Transport) → IsValid t → Ext IsOther t (get_dpi_info h target t).1
  get_dpi_info-Ext t v = Keeps-get_dpi_info.run t v

Keeps-resolved_target : (target : ℕ) → Keeps IsOther (resolved_target target)
Keeps-resolved_target target = record { run = λ t v. Ext-refl IsOther t v }

Keeps-switch :
    (index value : ℕ) (disabled : Bool) (target : ℕ)
    → Keeps IsOther (switch_profiles index value disabled target)
unfolding switch_profiles mark_disabled normalize_function_id
Keeps-switch index value disabled target =
    let keeps_mark : Keeps IsOther (mark_disabled disabled) = record {
      run = λ t v. Ext-refl IsOther t v;
    } in
    Keeps-bind IsOther _ _ (Keeps-query index 0x10 (value ∷ []) target refl) (λ reply.
      Keeps-bool IsOther (has_value reply) _ _
        (Keeps-bind IsOther _ _ keeps_mark (λ done. Keeps-pure IsOther true))
        (Keeps-pure IsOther false))

pub Keeps-disable :
    (ids : FeatureIds) (target : ℕ) → Keeps IsOther (disable_onboard_profiles_for_write ids target)
unfolding disable_onboard_profiles_for_write normalize_function_id
Keeps-disable ids target0 = Keeps-bind IsOther _ _ (Keeps-resolved_target target0) (λ target.
    Keeps-bind IsOther _ _ (Keeps-resolve ids.onboard_profiles target) (λ index.
      Keeps-option IsOther index _ _ (Keeps-pure IsOther true) (λ i.
        Keeps-bind IsOther _ _ (Keeps-query i 0x20 [] target refl) (λ state.
          Keeps-bool IsOther (profile_active state) _ _ (Keeps-switch i 0x02 true target)
            (Keeps-pure IsOther true)))))
