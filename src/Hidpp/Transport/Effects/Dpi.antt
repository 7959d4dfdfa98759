-- ===== src/Hidpp/Transport/Effects/Dpi.antt =====
-- What `set_dpi` writes.
use abrek_mouse.Prelude.{
  ℕ, ◌%◌, ◌<◌, ◌≡◌, refl, sym, ap, ◌∙◌, ◌⊎◌, inl, inr, Bool, true, false, Option, none, some, List,
  [], ◌∷◌, arith, ◌==◌, if◌then◌else◌, ==_iff, Bool-cases, Option-cases, Mem,
}
use abrek_mouse.Hidpp.Bytes.{at, hi_byte, lo_byte, be16}
use abrek_mouse.Hidpp.Packet.{normalize_function_id}
use abrek_mouse.Hidpp.Header.{Header, DpiInfo}
use abrek_mouse.Hidpp.Transport.Monad.{M, pure, ◌>>=◌}
use abrek_mouse.Hidpp.Transport.State.{Transport, target_of}
use abrek_mouse.Hidpp.Transport.Request.{send_feature_request, resolve_feature_index, feature_frame}
use abrek_mouse.Hidpp.Transport.Answers.{frame_of, send_feature_request-Sound}
use abrek_mouse.Hidpp.Transport.Onboard.{disable_onboard_profiles_for_write, has_value}
use abrek_mouse.Hidpp.Transport.Dpi.{
  get_dpi_info, contains, write_dpi, set_dpi, writable, dpi_function, dpi_params, dpi_feature,
}
use abrek_mouse.Hidpp.Transport.Effects.{IsValid, Ext, Ext-trans, Ext-mono, request_Ext}
use abrek_mouse.Hidpp.Transport.Effects.Queries.{
  IsCall, IsOther, Keeps-resolve, Keeps-disable, Keeps-get_dpi_info,
}

contains-Mem : (l : List ℕ) (v : ℕ) → contains l v ≡ true → Mem v l
contains-Mem [] v h = cc
contains-Mem (x ∷ l) v h = elim (Bool-cases (x == v)) [
  | inl e ↦ inl (sym ((==_iff x v).0 e))
  | inr e ↦ inr (contains-Mem l v (rw e at h))
]

Mem-contains : (l : List ℕ) (v : ℕ) → Mem v l → contains l v ≡ true
Mem-contains [] v h = absurd h
Mem-contains (x ∷ l) v (inl e) = let same : (x == v) ≡ true = ground arith in rw same refl
Mem-contains (x ∷ l) v (inr h) = let rest = Mem-contains l v h in ground arith

-- A call of the DPI setter, 6 of the extended feature or 3 of the older one, that carries `dpi` in
-- big endian, for both axes where the feature has two.
abbrev pub Carries : Bool → ℕ → List ℕ → Type 0
Carries true dpi f =
    IsCall 0x6 f × (be16 (at f 5) (at f 6) ≡ dpi % 65536) × (be16 (at f 7) (at f 8) ≡ dpi % 65536)
Carries false dpi f = IsCall 0x3 f × (be16 (at f 5) (at f 6) ≡ dpi % 65536)

module _ (h : Header) (dpi target : ℕ) where
  -- What the device says of its DPI once the profiles are off, and the state behind the question.
  abbrev pub offered : Transport → Option DpiInfo
  offered t = (get_dpi_info h target (disable_onboard_profiles_for_write h.ids target t).1).0

  abbrev pub asked : Transport → Transport
  asked t = (get_dpi_info h target (disable_onboard_profiles_for_write h.ids target t).1).1

  -- The frame goes to the target, to the index that the device's DPI feature has in the state `u`,
  -- and calls that feature's setter with the value.
  abbrev pub Sets : DpiInfo → Transport → List ℕ → Type 0
  Sets info u f =
      (i : ℕ) × ((resolve_feature_index
          (if info.extended then h.ids.extended_adjustable_dpi else h.ids.adjustable_dpi) target
          u).0
        ≡ some i)
      × (at f 1 ≡ target_of u target)
      × (at f 2 ≡ i)
      × Carries info.extended dpi f

  -- The device listed the value, which is not 0.
  abbrev pub IsListed : DpiInfo → Transport → Type 0
  IsListed info t = (offered t ≡ some info) × (0 < dpi) × Mem dpi info.dpi_levels

  abbrev pub IsWrite : Transport → List ℕ → Type 0
  IsWrite t f = IsOther f ⊎ ((info : DpiInfo) × IsListed info t × Sets info (asked t) f)

  writable-listed :
      (o : Option DpiInfo) (info : DpiInfo)
      → writable dpi o ≡ some info
      → (o ≡ some info) × (0 < dpi) × (contains info.dpi_levels dpi ≡ true)
  unfolding writable
  writable-listed none info e = cc
  writable-listed (some x) info e = ground arith

  writable-IsListed :
      (info : DpiInfo) (t : Transport) → writable dpi (offered t) ≡ some info → IsListed info t
  writable-IsListed info t e =
      let (o, positive, listed) = writable-listed (offered t) info e in
      (o, positive, contains-Mem info.dpi_levels dpi listed)

  writable-refused :
      (o : Option DpiInfo)
      → ((info : DpiInfo) → o ≡ some info → (dpi ≡ 0) ⊎ (Mem dpi info.dpi_levels → ⊥))
      → writable dpi o ≡ none
  unfolding writable
  writable-refused none never = refl
  writable-refused (some info) never = elim (Bool-cases (contains info.dpi_levels dpi)) [
    | inr e ↦ ground arith
    | inl e ↦ elim (never info refl) [
      | inl zero_dpi ↦ ground arith
      | inr not_listed ↦ absurd (not_listed (contains-Mem info.dpi_levels dpi e))
    ]
  ]

  frame_of-Carries :
      (info : DpiInfo) (i : ℕ) (v : Transport)
      → IsValid v
      → (at (frame_of v i (dpi_function info) (dpi_params info dpi) target) 1 ≡ target_of v target)
        × (at (frame_of v i (dpi_function info) (dpi_params info dpi) target) 2 ≡ i)
        × Carries info.extended dpi (frame_of v i (dpi_function info) (dpi_params info dpi) target)
  unfolding feature_frame normalize_function_id
  frame_of-Carries info i v valid =
      let word : be16 (hi_byte dpi) (lo_byte dpi) ≡ dpi % 65536 = ground arith in
      elim (Bool-cases info.extended) [
        | inl e ↦ rw e (refl, refl, ((refl, refl, ground arith, ground arith), word, word))
        | inr e ↦ rw e (refl, refl, ((refl, refl, ground arith, ground arith), word))
      ]

  asked-Ext : (t : Transport) → IsValid t → Ext IsOther t (asked t)
  asked-Ext t v =
      let e = (Keeps-disable h.ids target).run t v in
      let u = (disable_onboard_profiles_for_write h.ids target t).1 in
      Ext-trans IsOther t u (asked t) e ((Keeps-get_dpi_info h target).run u e.0)

  set_dpi-none :
      (t : Transport) → writable dpi (offered t) ≡ none → set_dpi h dpi target t ≡ (false, asked t)
  unfolding set_dpi
  set_dpi-none t e =
      let decide : Option DpiInfo → M Bool =
        λ o. elim o [ none ↦ pure false | some i ↦ write_dpi h dpi target i ] in
      ap (λ o. decide o (asked t)) e

  set_dpi-some :
      (t : Transport) (info : DpiInfo)
      → writable dpi (offered t) ≡ some info
      → set_dpi h dpi target t ≡ write_dpi h dpi target info (asked t)
  unfolding set_dpi
  set_dpi-some t info e =
      let decide : Option DpiInfo → M Bool =
        λ o. elim o [ none ↦ pure false | some i ↦ write_dpi h dpi target i ] in
      ap (λ o. decide o (asked t)) e

  -- From a valid state, 0, or a value that is not among the levels of the settings that the device
  -- gave just before, or any value if it gave none, is refused: the result is false, and each frame
  -- that was written calls function 0, 1, 2 or 5, none of them a DPI setter.
  pub set_dpi-refused :
      (t : Transport)
      → IsValid t
      → ((info : DpiInfo) → offered t ≡ some info → (dpi ≡ 0) ⊎ (Mem dpi info.dpi_levels → ⊥))
      → ((set_dpi h dpi target t).0 ≡ false) × Ext IsOther t (set_dpi h dpi target t).1
  set_dpi-refused t v never =
      rw (set_dpi-none t (writable-refused (offered t) never)) (refl, asked-Ext t v)

  -- The setter's request, once the feature is resolved.
  abbrev setter : DpiInfo → ℕ → M (Option (List ℕ))
  setter info i = send_feature_request i (dpi_function info) (dpi_params info dpi) target

  resolved : DpiInfo → M (Option ℕ)
  resolved info = resolve_feature_index (dpi_feature h info) target

  write_dpi-cases :
      (info : DpiInfo) (t : Transport)
      → (write_dpi h dpi target info t ≡ (false, (resolved info t).1))
        ⊎ ((i : ℕ) × ((resolved info t).0 ≡ some i)
            × (write_dpi h dpi target info t ≡ (
              has_value (setter info i (resolved info t).1).0,
              (setter info i (resolved info t).1).1,
            )))
  unfolding write_dpi resolved
  write_dpi-cases info t =
      let call : Option ℕ → M Bool = λ o. elim o [
        | none ↦ pure false
        | some i ↦ setter info i >>= λ reply. pure (has_value reply)
      ] in
      elim (Option-cases (resolved info t).0) [
        | inl n ↦ inl (ap (λ o. call o (resolved info t).1) n)
        | inr (i, n) ↦ inr (i, n, ap (λ o. call o (resolved info t).1) n)
      ]

  -- The frame of the setter's request, behind the resolution of the feature.
  setter_frame : DpiInfo → ℕ → Transport → List ℕ
  setter_frame info i u = frame_of u i (dpi_function info) (dpi_params info dpi) target

  setter_frame-Sets :
      (info : DpiInfo) (i : ℕ) (u : Transport)
      → IsValid u
      → (resolved info u).0 ≡ some i
      → Sets info u (setter_frame info i (resolved info u).1)
  unfolding resolved setter_frame
  setter_frame-Sets info i u v n =
      let (valid, device, _, _) = (Keeps-resolve (dpi_feature h info) target).run u v in
      let (goes, index, call) = frame_of-Carries info i (resolved info u).1 valid in
      (i, n, goes ∙ rw device refl, index, call)

  write_dpi-Ext :
      (info : DpiInfo) (t : Transport)
      → IsValid (asked t)
      → IsListed info t
      → Ext (IsWrite t) (asked t) (write_dpi h dpi target info (asked t)).1
  unfolding resolved setter_frame
  write_dpi-Ext info t v listed =
      let u = asked t in
      let w = (resolved info u).1 in
      let before : Ext (IsWrite t) u w =
        Ext-mono IsOther (IsWrite t) u w (λ f x. inl x)
          ((Keeps-resolve (dpi_feature h info) target).run u v) in
      elim (write_dpi-cases info u) [
        | inl n ↦ rw n before
        | inr (i, found, n) ↦ rw n (
            Ext-trans (IsWrite t) u w (setter info i w).1 before (
              request_Ext (IsWrite t) i (dpi_function info) (dpi_params info dpi) target w before.0
                (λ fits. inr (info, listed, setter_frame-Sets info i u v found))))
      ]

  -- From a valid state, each frame that `set_dpi` writes calls function 0, 1, 2 or 5, or sets
  -- exactly the value asked for: by function 6 of the extended DPI feature or 3 of the older one,
  -- whichever the device answered for, at the index where that feature resolves; and then the value
  -- is not 0 and the device listed it just before.
  pub set_dpi-IsWrite : (t : Transport) → IsValid t → Ext (IsWrite t) t (set_dpi h dpi target t).1
  set_dpi-IsWrite t v =
      let before = Ext-mono IsOther (IsWrite t) t (asked t) (λ f x. inl x) (asked-Ext t v) in
      elim (Option-cases (writable dpi (offered t))) [
        | inl e ↦ rw (set_dpi-none t e) before
        | inr (info, e) ↦ rw (set_dpi-some t info e) (
            Ext-trans (IsWrite t) t (asked t) (write_dpi h dpi target info (asked t)).1 before
              (write_dpi-Ext info t before.0 (writable-IsListed info t e)))
      ]

  -- The frame written last sets `dpi`.
  abbrev pub LastSets : DpiInfo → Transport → Transport → Type 0
  LastSets info u t =
      (f : List ℕ) × (before : List (List ℕ)) × (t.sent ≡ f ∷ before) × Sets info u f

  write_dpi-true :
      (info : DpiInfo) (u : Transport)
      → IsValid u
      → (write_dpi h dpi target info u).0 ≡ true
      → LastSets info u (write_dpi h dpi target info u).1
  unfolding resolved setter_frame
  write_dpi-true info u v e = elim (write_dpi-cases info u) [
    | inl n ↦ cc (rw n at e)
    | inr (i, found, n) ↦
        let w = (resolved info u).1 in
        elim (Option-cases (setter info i w).0) [
          | inl m ↦ cc (rw (n, m) at e)
          | inr (d, m) ↦
              let sound =
                send_feature_request-Sound i (dpi_function info) (dpi_params info dpi) target w d
                  m in
              rw n (setter_frame info i w, w.sent, sound.1, setter_frame-Sets info i u v found)
        ]
  ]

  -- The device listed `dpi`, and the frame written last sets it.
  abbrev pub IsListedWrite : Transport → Transport → Type 0
  IsListedWrite t u = (info : DpiInfo) × IsListed info t × LastSets info (asked t) u

  -- When `set_dpi`, from a valid state, reports success, the device listed the value, which is not
  -- 0, among its levels, and the frame that was written last sets it: by function 6 of the extended
  -- DPI feature or 3 of the older one, whichever the device answered for, at the index where that
  -- feature resolves.
  pub set_dpi_sound :
      (t : Transport)
      → IsValid t
      → (set_dpi h dpi target t).0 ≡ true
      → IsListedWrite t (set_dpi h dpi target t).1
  set_dpi_sound t v e = elim (Option-cases (writable dpi (offered t))) [
    | inl n ↦ cc (e, set_dpi-none t n)
    | inr (info, n) ↦ (
      info,
      writable-IsListed info t n,
      rw (set_dpi-some t info n)
          (write_dpi-true info (asked t) (asked-Ext t v).0 (rw (set_dpi-some t info n) at e)),
    )
  ]
