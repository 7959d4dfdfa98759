-- ===== src/Hidpp/Transport/Cache.antt =====
-- The cache of feature indices.
use abrek_mouse.Prelude.{
  ℕ, ◌≡◌, refl, ap, ◌∙◌, ◌⊎◌, inl, inr, Bool, true, false, Option, none, some, List, [], ◌∷◌, arith,
  ◌==◌, Bool-cases, Option-cases, length, dec_lt,
}
use abrek_mouse.Hidpp.Bytes.{hi_byte, lo_byte}
use abrek_mouse.Hidpp.Transport.Answers.{request-long, request-run, judge_of, issued, frame_of}
use abrek_mouse.Hidpp.Transport.State.{
  Verdict, write_packet, await, next_sw_id, Transport, target_of, cache_key, find, assign,
}
use abrek_mouse.Hidpp.Transport.Request.{
  after_write, payload_max, send_feature_request, resolve_feature_index, root_reply, store_index,
}
use abrek_mouse.Hidpp.Transport.Effects.{IsValid}
use abrek_mouse.Hidpp.Transport.Effects.Queries.{Keeps-resolve}

root-cached :
    (target i : ℕ) (t : Transport)
    → (resolve_feature_index 0 target t).0 ≡ some i
    → resolve_feature_index 0 target (resolve_feature_index 0 target t).1
      ≡ (some i, (resolve_feature_index 0 target t).1)
unfolding resolve_feature_index
root-cached target i t e = ap (λ x. (x, t)) e

resolve-cached :
    (feature target i : ℕ) (t : Transport)
    → (feature == 0) ≡ false
    → find (cache_key (target_of t target) feature) t.feature_indices ≡ some i
    → resolve_feature_index feature target t ≡ (some i, t)
unfolding resolve_feature_index
resolve-cached feature target i t z e = rw (z, e) refl

abbrev ask : ℕ → ℕ → Transport → Option (List ℕ) × Transport
ask feature target = send_feature_request 0 0 (hi_byte feature ∷ lo_byte feature ∷ 0 ∷ []) target

resolve-asked :
    (feature target : ℕ) (t : Transport)
    → (feature == 0) ≡ false
    → find (cache_key (target_of t target) feature) t.feature_indices ≡ none
    → resolve_feature_index feature target t
      ≡ store_index
          (cache_key (target_of t target) feature)
          (root_reply (ask feature target t).0, (ask feature target t).1)
unfolding resolve_feature_index
resolve-asked feature target t z e = rw (z, e) refl

find-assign : (k i : ℕ) (m : List (ℕ × ℕ)) → find k (assign k i m) ≡ some i
unfolding find
find-assign k i m = ground arith

stored :
    (k i : ℕ) (o : Option ℕ) (t : Transport)
    → (store_index k (o, t)).0 ≡ some i
    → find k (store_index k (o, t)).1.feature_indices ≡ some i
stored k i none t e = cc
stored k i (some j) t e = find-assign k j t.feature_indices ∙ e

-- From a valid state in which a feature resolves, its second resolution for the same target is
-- answered from the cache: it gives the
-- same index and does not touch the transport.
pub resolve_feature_index-cached :
    (feature target i : ℕ) (t : Transport)
    → IsValid t
    → (resolve_feature_index feature target t).0 ≡ some i
    → resolve_feature_index feature target (resolve_feature_index feature target t).1
      ≡ (some i, (resolve_feature_index feature target t).1)
resolve_feature_index-cached feature target i t v e =
    let u = (resolve_feature_index feature target t).1 in
    elim (Bool-cases (feature == 0)) [
      | inl z ↦
          let root : feature ≡ 0 = ground arith in rw root (root-cached target i t (rw root at e))
      | inr z ↦
          elim (Option-cases (find (cache_key (target_of t target) feature) t.feature_indices)) [
            | inr (j, c) ↦
                let hit = resolve-cached feature target j t z c in
                rw hit (hit ∙ ap (λ x. (x, t)) (rw hit at e))
            | inl c ↦
                let miss = resolve-asked feature target t z c in
                let device = ((Keeps-resolve feature target).run t v).1 in
                let hit =
                  stored (cache_key (target_of t target) feature) i
                    (root_reply (ask feature target t).0) (ask feature target t).1 (rw miss at e) in
                resolve-cached feature target i u z (rw (device, miss) hit)
          ]
    ]

after_write-indices :
    (judge : List ℕ → Verdict (List ℕ)) (w : Bool × Transport)
    → ((after_write judge w).1.feature_indices ≡ w.1.feature_indices)
      × ((after_write judge w).1.device_index ≡ w.1.device_index)
unfolding await
after_write-indices judge (true, t) = (refl, refl)
after_write-indices judge (false, t) = (refl, refl)

write_packet-indices :
    (frame : List ℕ) (t : Transport)
    → ((write_packet frame t).1.feature_indices ≡ t.feature_indices)
      × ((write_packet frame t).1.device_index ≡ t.device_index)
unfolding write_packet
write_packet-indices frame t = ground arith

-- A request changes neither the cache nor the device.
pub send_feature_request-indices :
    (index function : ℕ) (params : List ℕ) (target : ℕ) (t : Transport)
    → ((send_feature_request index function params target t).1.feature_indices ≡ t.feature_indices)
      × ((send_feature_request index function params target t).1.device_index ≡ t.device_index)
send_feature_request-indices index function params target t =
    elim (dec_lt payload_max (length params)) [
      | yes long ↦ rw (request-long index function params target t long) (refl, refl)
      | no short ↦
          let run = request-run index function params target t (omega arith) in
          let judge = judge_of t index function target in
          let written = issued t index function params target in
          let (i, d) = after_write-indices judge written in
          let frame = frame_of t index function params target in
          let (i', d') = write_packet-indices frame (next_sw_id t).1 in
          rw run (i ∙ i' ∙ unfold next_sw_id in refl, d ∙ d' ∙ unfold next_sw_id in refl)
    ]

-- The transport holds the index of the feature for the target.
abbrev pub HasIndex : ℕ → ℕ → ℕ → Transport → Type 0
HasIndex feature target i t =
    ((feature ≡ 0) × (i ≡ 0))
    ⊎ (((feature == 0) ≡ false)
        × (find (cache_key (target_of t target) feature) t.feature_indices ≡ some i))

-- A held index is what the feature resolves to.
pub HasIndex-resolve :
    (feature target i : ℕ) (t : Transport)
    → HasIndex feature target i t
    → (resolve_feature_index feature target t).0 ≡ some i
HasIndex-resolve feature target i t (inl (z, e)) = rw (z, e) (unfold resolve_feature_index in refl)
HasIndex-resolve feature target i t (inr (z, e)) = rw (resolve-cached feature target i t z e) refl

pub HasIndex-request :
    (feature target i index function : ℕ) (params : List ℕ) (to : ℕ) (t : Transport)
    → HasIndex feature target i t
    → HasIndex feature target i (send_feature_request index function params to t).1
HasIndex-request feature target i index function params to t (inl h) = inl h
HasIndex-request feature target i index function params to t (inr (z, e)) =
    let (same, device) = send_feature_request-indices index function params to t in
    inr (z, rw (same, device) e)

store_index-device :
    (k : ℕ) (o : Option ℕ) (t : Transport) → (store_index k (o, t)).1.device_index ≡ t.device_index
store_index-device k none t = refl
store_index-device k (some j) t = refl

-- A feature that resolves is held from then on.
pub resolve-HasIndex :
    (feature target i : ℕ) (t : Transport)
    → (resolve_feature_index feature target t).0 ≡ some i
    → HasIndex feature target i (resolve_feature_index feature target t).1
resolve-HasIndex feature target i t e = elim (Bool-cases (feature == 0)) [
  | inl z ↦
      let root : feature ≡ 0 = ground arith in
      let at_root : (resolve_feature_index 0 target t).0 ≡ some 0 =
        unfold resolve_feature_index in refl in
      inl (root, cc (rw root at e))
  | inr z ↦ elim (Option-cases (find (cache_key (target_of t target) feature) t.feature_indices)) [
    | inr (j, c) ↦
        let hit = resolve-cached feature target j t z c in inr (z, rw hit (c ∙ rw hit at e))
    | inl c ↦
        let miss = resolve-asked feature target t z c in
        let k = cache_key (target_of t target) feature in
        let reply = root_reply (ask feature target t).0 in
        let u = (ask feature target t).1 in
        let held = stored k i reply u (rw miss at e) in
        let device =
          store_index-device k reply u
          ∙ (send_feature_request-indices 0 0 (hi_byte feature ∷ lo_byte feature ∷ 0 ∷ []) target
              t).1 in
        inr (z, rw miss (rw device held))
  ]
]
