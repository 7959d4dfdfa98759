-- ===== src/Hidpp/Transport/Effects.antt =====
-- What a method of the transport may do: the frames that it writes, and the state that it keeps.
pub mod Queries
pub mod Rate
pub mod Dpi
use abrek_mouse.Prelude.{
  ℕ, zero, suc, ◌+◌, ◌-◌, ◌*◌, ◌/◌, ◌%◌, ◌^◌, ◌≤◌, ◌<◌, min, max, ◌≡◌, refl, sym, ap, ◌∙◌, ◌≢◌, ◌↔◌,
  ◌⊎◌, inl, inr, Bool, true, false, not, ◌&&◌, ◌||◌, Option, none, some, List, [], ◌∷◌, ◌++◌, map,
  append-nil, append_assoc, arith, ltb, leb, ◌==◌, if◌then◌else◌, ltb→lt, lt→ltb, leb→le, ==_iff,
  tests, Bool-cases, Option-cases, length, get_or, take, drop, replicate, length-append,
  length-take, length-drop, length-replicate, take-append-drop, take-length, All, any_of, find_if,
  dec_lt,
}
use abrek_mouse.Hidpp.Transport.Monad.{M, pure, ◌>>=◌}
use abrek_mouse.Hidpp.Transport.State.{
  Transport, next_sw_id, Verdict, await, write_packet, budget_spent,
}
use abrek_mouse.Hidpp.Transport.Request.{send_feature_request, after_write, payload_max}
use abrek_mouse.Hidpp.Transport.Answers.{
  frame_of, judge_of, request-long, request-run, write_packet_lem, await_lem,
}
use abrek_mouse.Hidpp.Transport.Waiting.{wait_bound}

-- The software id is never 0, and the stash is bounded.
abbrev pub IsValid : Transport → Type 0
IsValid t = (1 ≤ t.next_sw_id) × (t.next_sw_id ≤ 15) × (length t.pending_notifications ≤ 16)

-- `t'` comes after `t`: the state is still valid, the device is the same, and the frames written
-- in between satisfy `P`.
abbrev pub Ext : (List ℕ → Type 0) → Transport → Transport → Type 0
Ext P t t' =
    IsValid t'
    × (t'.device_index ≡ t.device_index)
    × (t'.product_id ≡ t.product_id)
    × ((fs : List (List ℕ)) × (t'.sent ≡ fs ++ t.sent) × All P fs)

-- `m` keeps the state valid and writes only frames that satisfy `P`.
pub record Keeps {A : Type 0} (P : List ℕ → Type 0) (m : M A) : Type 0 where
  pub run : (t : Transport) → IsValid t → Ext P t (m t).1

All-append : (P : List ℕ → Type 0) (xs ys : List (List ℕ)) → All P xs → All P ys → All P (xs ++ ys)
All-append P [] ys a b = b
All-append P (x ∷ xs) ys (p, a) b = (p, All-append P xs ys a b)

pub Ext-refl : (P : List ℕ → Type 0) (t : Transport) → IsValid t → Ext P t t
Ext-refl P t v = (v, refl, refl, ([], refl, tt))

pub Ext-trans : (P : List ℕ → Type 0) (t u v : Transport) → Ext P t u → Ext P u v → Ext P t v
Ext-trans P t u v (_, d, p, (fs, s, a)) (valid, d', p', (gs, s', b)) = (
  valid,
  d' ∙ d,
  p' ∙ p,
  (gs ++ fs, rw (s', s) (sym (append_assoc gs fs t.sent)), All-append P gs fs b a),
)

All-mono :
    (P Q : List ℕ → Type 0)
    → ((f : List ℕ) → P f → Q f)
    → (fs : List (List ℕ)) → All P fs
    → All Q fs
All-mono P Q sub [] a = tt
All-mono P Q sub (f ∷ fs) (p, a) = (sub f p, All-mono P Q sub fs a)

pub Ext-mono :
    (P Q : List ℕ → Type 0) (t u : Transport) → ((f : List ℕ) → P f → Q f) → Ext P t u → Ext Q t u
Ext-mono P Q t u sub (v, d, p, (fs, s, a)) = (v, d, p, (fs, s, All-mono P Q sub fs a))

module _ (P : List ℕ → Type 0) where
  pub Keeps-pure : {A : Type 0} (a : A) → Keeps P (pure a)
  Keeps-pure a = record { run = λ t v. Ext-refl P t v }

  pub Keeps-bind :
      {A B : Type 0} (m : M A) (f : A → M B)
      → Keeps P m
      → ((a : A) → Keeps P (f a))
      → Keeps P (m >>= f)
  Keeps-bind m f k l = record {
    run = λ t v.
        Ext-trans P t (m t).1 (f (m t).0 (m t).1).1 (k.run t v)
          ((l (m t).0).run (m t).1 (k.run t v).0);
  }

  pub Keeps-option :
      {A B : Type 0} (o : Option A) (n : M B) (s : A → M B)
      → Keeps P n
      → ((a : A) → Keeps P (s a))
      → Keeps P (elim o [ none ↦ n | some a ↦ s a ])
  Keeps-option none n s k l = k
  Keeps-option (some a) n s k l = l a

  pub Keeps-bool :
      {B : Type 0} (b : Bool) (n s : M B)
      → Keeps P n
      → Keeps P s
      → Keeps P (elim b [ true ↦ n | false ↦ s ])
  Keeps-bool true n s k l = k
  Keeps-bool false n s k l = l

  pub Keeps-budget : Keeps P budget_spent
  unfolding budget_spent
  Keeps-budget = record { run = λ t v. Ext-refl P t v }

  await-Ext :
      {A : Type 0} (judge : List ℕ → Verdict A) (t : Transport)
      → IsValid t
      → Ext P t (await judge t).1
  await-Ext judge t v =
      let (_, sent, id, device, product, pending, _) = await_lem judge t in
      (
        (rw id v.0, rw id v.1, rw pending (wait_bound judge t.pending_notifications t.rounds v.2)),
        device,
        product,
        ([], sent, tt),
      )

  keeps_after_write :
      {A : Type 0} (judge : List ℕ → Verdict A) (t : Transport) (w : Bool × Transport)
      → Ext P t w.1
      → Ext P t (after_write judge w).1
  keeps_after_write judge t (true, u) e =
      Ext-trans P t u (await judge u).1 e (await-Ext judge u e.0)
  keeps_after_write judge t (false, u) e = e

  keeps_write :
      (frame : List ℕ) → P frame → (t : Transport) → IsValid t → Ext P t (write_packet frame t).1
  keeps_write frame p t v =
      let (sent, _, pending, id, device, product) = write_packet_lem frame t in
      elim (Bool-cases (write_packet frame t).0) [
        | inl e ↦ (
          (rw id v.0, rw id v.1, rw pending v.2),
          device,
          product,
          (frame ∷ [], sent ∙ rw e refl, (p, tt)),
        )
        | inr e ↦
            ((rw id v.0, rw id v.1, rw pending v.2), device, product, ([], sent ∙ rw e refl, tt))
      ]

  keeps_next_sw_id : (t : Transport) → IsValid t → Ext P t (next_sw_id t).1
  unfolding next_sw_id
  keeps_next_sw_id t v = ((ground arith, ground arith, v.2), refl, refl, ([], refl, tt))

  pub request_Ext :
      (index function : ℕ) (params : List ℕ) (target : ℕ) (t : Transport)
      → IsValid t
      → (length params ≤ payload_max → P (frame_of t index function params target))
      → Ext P t (send_feature_request index function params target t).1
  request_Ext index function params target t v good = elim (dec_lt payload_max (length params)) [
    | yes long ↦ rw (request-long index function params target t long) (Ext-refl P t v)
    | no short ↦
        let fits : length params ≤ payload_max = omega arith in
        let frame = frame_of t index function params target in
        let judge = judge_of t index function target in
        let u = (next_sw_id t).1 in
        let e = keeps_next_sw_id t v in
        let w = keeps_write frame (good fits) u e.0 in
        rw (request-run index function params target t fits) (
          keeps_after_write judge t (write_packet frame u)
            (Ext-trans P t u (write_packet frame u).1 e w))
  ]

  -- A request writes at most its frame.
  pub Keeps-request :
      (index function : ℕ) (params : List ℕ) (target : ℕ)
      → ((t : Transport)
          → IsValid t
          → length params ≤ payload_max
          → P (frame_of t index function params target))
      → Keeps P (send_feature_request index function params target)
  Keeps-request index function params target good = record {
    run = λ t v. request_Ext index function params target t v (good t v);
  }
