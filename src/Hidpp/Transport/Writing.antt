-- ===== src/Hidpp/Transport/Writing.antt =====
-- What is written: whole frames, and the sectors of flash.
use abrek_mouse.Prelude.{
  ℕ, zero, suc, ◌+◌, ◌-◌, ◌/◌, ◌%◌, ◌≤◌, ◌<◌, ◌≡◌, refl, sym, ap, ◌∙◌, inl, inr, Bool, true, false,
  Option, none, some, List, [], ◌∷◌, ◌++◌, append-nil, append_assoc, arith, ◌==◌, Bool-cases,
  Option-cases, length, take, drop, replicate, length-append, length-take, length-drop,
  length-replicate, take-append-drop, All, dec_lt, append-All,
}
use abrek_mouse.Hidpp.Features.{FeatureIds}
use abrek_mouse.Hidpp.Transport.Monad.{M, pure}
use abrek_mouse.Hidpp.Bytes.{at, be16}
use abrek_mouse.Hidpp.Packet.{normalize_function_id}
use abrek_mouse.Hidpp.Transport.Cache.{send_feature_request-indices}
use abrek_mouse.Hidpp.Transport.State.{
  target_of, Transport, WriteEvent, wrote, write_interrupted, busy, stuck, refused, write_loop,
}
use abrek_mouse.Hidpp.Transport.Request.{send_feature_request, resolve_feature_index, feature_frame}
use abrek_mouse.Hidpp.Transport.Answers.{send_feature_request-Sound, frame_of}
use abrek_mouse.Hidpp.Transport.Onboard.{
  write_sector_from, write_onboard_profile_sector, sector_params, sector_chunk, has_value,
}

-- The bytes that the kernel took.
abbrev pub taken : List WriteEvent → ℕ
taken [] = 0
taken (wrote n ∷ es) = n + taken es
taken (write_interrupted ∷ es) = taken es
taken (busy ∷ es) = taken es
taken (stuck ∷ es) = taken es
taken (refused ∷ es) = taken es

-- A write counts as done only if the kernel took all of its bytes.
pub write_loop-taken :
    (es : List WriteEvent) (left : ℕ) → write_loop es left ≡ true → left ≤ taken es
unfolding write_loop
write_loop-taken es zero e = omega arith
write_loop-taken [] (suc left) e = cc
write_loop-taken (wrote n ∷ es) (suc left) e = elim (Bool-cases (n == 0)) [
  | inl z ↦ cc (rw z at e)
  | inr z ↦ omega (arith, write_loop-taken es (suc left - n) (rw z at e))
]
write_loop-taken (write_interrupted ∷ es) (suc left) e = write_loop-taken es (suc left) e
write_loop-taken (busy ∷ es) (suc left) e = write_loop-taken es (suc left) e
write_loop-taken (stuck ∷ es) (suc left) e = cc
write_loop-taken (refused ∷ es) (suc left) e = cc

-- The data bytes of sector frames, the frame that was written first in front.
abbrev pub sector_data : List (List ℕ) → List ℕ
sector_data [] = []
sector_data (f ∷ fs) = sector_data fs ++ drop 6 f

sector_data_last :
    (fs : List (List ℕ)) (f : List ℕ) → sector_data (fs ++ f ∷ []) ≡ drop 6 f ++ sector_data fs
sector_data_last [] f = sym (append-nil (drop 6 f))
sector_data_last (g ∷ fs) f =
    rw (sector_data_last fs f) (append_assoc (drop 6 f) (sector_data fs) (drop 6 g))

drop_all : (n : ℕ) (d : List ℕ) → length d ≤ n → drop n d ≡ []
drop_all zero [] h = refl
drop_all zero (x ∷ d) h = absurd (ground arith)
drop_all (suc n) [] h = refl
drop_all (suc n) (x ∷ d) h = drop_all n d (ground arith)

abbrev zeros : ℕ → List ℕ
zeros n = replicate n 0

-- The first part, filled up to 14 bytes, before the rest with its own fill.
join :
    (d : List ℕ) (n : ℕ)
    → 0 < length d
    → n < 14
    → (length (drop 14 d) + n) % 14 ≡ 0
    → (m : ℕ) × (m < 14)
      × ((length d + m) % 14 ≡ 0)
      × ((take 14 d ++ zeros (14 - length (take 14 d))) ++ (drop 14 d ++ zeros n) ≡ d ++ zeros m)
join d n some_byte small whole = elim (dec_lt 14 (length d)) [
  | no fits ↦
      let rest : drop 14 d ≡ [] = drop_all 14 d (omega arith) in
      let none_left : n ≡ 0 = omega (arith, rw rest at whole) in
      let all : take 14 d ≡ d =
        sym (append-nil (take 14 d))
        ∙ ap (λ r. take 14 d ++ r) (sym rest)
        ∙ take-append-drop 14 d in
      (
        14 - length d,
        omega arith,
        omega arith,
        rw (rest, none_left, all) (append-nil (d ++ zeros (14 - length d))),
      )
  | yes more ↦
      let full : 14 - length (take 14 d) ≡ 0 = omega (arith, length-take 14 d) in
      (
        n,
        small,
        omega (arith, length-drop 14 d, whole),
        rw (full, append-nil (take 14 d))
            (sym (append_assoc (take 14 d) (drop 14 d) (zeros n))
              ∙ ap (λ l. l ++ zeros n) (take-append-drop 14 d)),
      )
]

module _ (index sector target : ℕ) where
  abbrev send_part : List ℕ → M (Option (List ℕ))
  send_part d = send_feature_request index 0x70 (sector_params sector (take sector_chunk d)) target

  step :
      (fuel b : ℕ) (d : List ℕ) (t : Transport)
      → (write_sector_from index sector target (suc fuel) (b ∷ d) t).0 ≡ true
      → (x : List ℕ) × ((send_part (b ∷ d) t).0 ≡ some x)
        × (write_sector_from index sector target (suc fuel) (b ∷ d) t
            ≡ write_sector_from index sector target fuel
                (drop sector_chunk (b ∷ d))
                (send_part (b ∷ d) t).1)
  unfolding write_sector_from
  step fuel b d t e =
      let u = (send_part (b ∷ d) t).1 in
      let go : Option (List ℕ) → M Bool = λ o. elim (has_value o) [
        | false ↦ pure false
        | true ↦ write_sector_from index sector target fuel (drop sector_chunk (b ∷ d))
      ] in
      elim (Option-cases (send_part (b ∷ d) t).0) [
        | inl n ↦ cc e
        | inr (x, n) ↦ (x, n, ap (λ o. go o u) n)
      ]

  -- A frame carries its part of the data, filled up with zeros if the part is the last one.
  frame_data :
      (d : List ℕ) (t : Transport)
      → drop 6 (frame_of t index 0x70 (sector_params sector (take 14 d)) target)
        ≡ take 14 d ++ zeros (14 - length (take 14 d))
  unfolding feature_frame
  frame_data d t =
      let part = take 14 d in
      let zero_byte : ℕ = 0 in
      let short = replicate (14 - length part) zero_byte in
      let pad = replicate (16 - suc (suc (length (part ++ short)))) zero_byte in
      let no_pad : 16 - suc (suc (length (part ++ short))) ≡ 0 = omega (
        arith,
        length-append part short,
        length-replicate (14 - length part) zero_byte,
        length-take 14 d,
      ) in
      rw no_pad (append-nil (part ++ short))

  -- A frame to the device `dev` that writes to the sector.
  abbrev pub IsPart : ℕ → List ℕ → Type 0
  IsPart dev f =
      (at f 0 ≡ 0x11)
      × (at f 1 ≡ dev)
      × (at f 2 ≡ index)
      × (at f 3 / 16 ≡ 0x7)
      × (be16 (at f 4) (at f 5) ≡ sector % 65536)

  frame_of-IsPart :
      (part : List ℕ) (t : Transport)
      → IsPart (target_of t target) (frame_of t index 0x70 (sector_params sector part) target)
  unfolding feature_frame normalize_function_id
  frame_of-IsPart part t = (refl, refl, refl, ground arith, ground arith)

  -- The frames from the state `t` to `u` all write to the sector, and their data are the bytes `d`
  -- in order, with nothing in front, and zeros up to the next multiple of 14 bytes.
  abbrev pub Carries : ℕ → List ℕ → Transport → Transport → Type 0
  Carries dev d t u =
      (fs : List (List ℕ)) × (u.sent ≡ fs ++ t.sent)
      × All (IsPart dev) fs
      × ((n : ℕ) × (n < 14) × ((length d + n) % 14 ≡ 0) × (sector_data fs ≡ d ++ replicate n 0))

  carry :
      (dev : ℕ) (d : List ℕ) (t u v : Transport)
      → 0 < length d
      → target_of t target ≡ dev
      → u.sent ≡ frame_of t index 0x70 (sector_params sector (take 14 d)) target ∷ t.sent
      → Carries dev (drop 14 d) u v
      → Carries dev d t v
  carry dev d t u v some_byte same sent (fs, s, parts, (n, small, whole, bytes)) =
      let frame = frame_of t index 0x70 (sector_params sector (take 14 d)) target in
      let (m, small', whole', joined) = join d n some_byte small whole in
      (
        fs ++ frame ∷ [],
        s ∙ ap (λ l. fs ++ l) sent ∙ sym (append_assoc fs (frame ∷ []) t.sent),
        append-All (IsPart dev) fs (frame ∷ []) parts
            (rw (sym same) (frame_of-IsPart (take 14 d) t), tt),
        (m, small', whole', sector_data_last fs frame ∙ rw (frame_data d t, bytes) joined),
      )

  write_sector_from-Carries :
      (dev fuel : ℕ) (d : List ℕ) (t : Transport)
      → target_of t target ≡ dev
      → (write_sector_from index sector target fuel d t).0 ≡ true
      → Carries dev d t (write_sector_from index sector target fuel d t).1
  write_sector_from-Carries dev zero [] t same e =
      unfold write_sector_from in ([], refl, tt, (0, omega arith, refl, refl))
  write_sector_from-Carries dev (suc fuel) [] t same e =
      unfold write_sector_from in ([], refl, tt, (0, omega arith, refl, refl))
  write_sector_from-Carries dev zero (b ∷ d) t same e = unfold write_sector_from in cc
  write_sector_from-Carries dev (suc fuel) (b ∷ d) t same e =
      let (x, n, next) = step fuel b d t e in
      let params = sector_params sector (take 14 (b ∷ d)) in
      let u = (send_part (b ∷ d) t).1 in
      let v = (write_sector_from index sector target fuel (drop 14 (b ∷ d)) u).1 in
      let sound = send_feature_request-Sound index 0x70 params target t x n in
      let device = (send_feature_request-indices index 0x70 params target t).1 in
      rw next (
        carry dev (b ∷ d) t u v (omega arith) same sound.1
          (write_sector_from-Carries dev fuel (drop 14 (b ∷ d)) u (rw device same) (rw next at e)))

-- What `write_onboard_profile_sector` does behind the resolved index.
resolved_write :
    (ids : FeatureIds) (sector target : ℕ) (d : List ℕ) (t : Transport)
    → (write_onboard_profile_sector ids sector d target t).0 ≡ true
    → (i : ℕ) × ((resolve_feature_index ids.onboard_profiles target t).0 ≡ some i)
      × (write_onboard_profile_sector ids sector d target t
          ≡ write_sector_from i sector target
              (length d)
              d
              (resolve_feature_index ids.onboard_profiles target t).1)
unfolding write_onboard_profile_sector
resolved_write ids sector target d t e =
    let (index, u) = resolve_feature_index ids.onboard_profiles target t in
    let go : Option ℕ → M Bool =
      λ o. elim o [ none ↦ pure false | some i ↦ write_sector_from i sector target (length d) d ] in
    elim (Option-cases index) [ inl n ↦ cc e | inr (i, n) ↦ (i, n, ap (λ o. go o u) n) ]

-- The index of the feature, and frames from then on that carry the bytes.
abbrev pub IsWritten : FeatureIds → ℕ → ℕ → List ℕ → Transport → Transport → Type 0
IsWritten ids sector target d t u =
    (i : ℕ) × ((resolve_feature_index ids.onboard_profiles target t).0 ≡ some i)
    × Carries i sector target
        (target_of (resolve_feature_index ids.onboard_profiles target t).1 target) d
        (resolve_feature_index ids.onboard_profiles target t).1 u

-- When a sector write reports success, the on-board profile feature was resolved, and the frames
-- written from then on all go to the target, call function 7 of the feature and name the sector;
-- their data are all of the bytes, in order and without a gap, followed by fewer than 14 zeros that
-- fill the last frame.
pub write_onboard_profile_sector-Carries :
    (ids : FeatureIds) (sector target : ℕ) (d : List ℕ) (t : Transport)
    → (write_onboard_profile_sector ids sector d target t).0 ≡ true
    → IsWritten ids sector target d t (write_onboard_profile_sector ids sector d target t).1
write_onboard_profile_sector-Carries ids sector target d t e =
    let (i, n, run) = resolved_write ids sector target d t e in
    let u = (resolve_feature_index ids.onboard_profiles target t).1 in
    (
      i,
      n,
      rw run (
          write_sector_from-Carries i sector target (target_of u target) (length d) d u refl
            (rw run at e)),
    )
