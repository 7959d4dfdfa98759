-- ===== src/Hidpp/Event/Classes.antt =====
-- What each class of event tells.
use abrek_mouse.Prelude.{
  ℕ, ◌≡◌, refl, sym, ap, ◌≢◌, ◌↔◌, ◌⊎◌, inl, inr, Option, none, some, List, [], ◌∷◌, arith, ◌==◌,
  ==_iff, Bool-cases, Option-cases, Mem,
}
use abrek_mouse.Hidpp.Bytes.{at, read_be16}
use abrek_mouse.Hidpp.Battery.{
  BatteryInfo, battery_info_from_voltage, parse_battery_charge, parse_unified_battery,
  parse_battery_status_feature, parse_legacy_battery_status, parse_centurion_battery,
}
use abrek_mouse.Hidpp.Battery.Bounds.{
  IsLevel, Answers, parsers-Answers, battery_info_from_voltage_mono,
}
use abrek_mouse.Hidpp.Notification.{hidpp10, hidpp20, Notification}
use abrek_mouse.Hidpp.Features.{feature_id, FeatureIds, hidpp_feature_name}
use abrek_mouse.Hidpp.Event.{
  unhandled, Event, notification_feature_id, classify_legacy_battery, classify_hidpp10,
  classify_feature, classify_hidpp20, classify_hidpp_notification,
}

-- An event without a reading, or with a proper level.
abbrev LevelOk : Event → Type 0
LevelOk e = (info : BatteryInfo) → e.battery_info ≡ some info → IsLevel info.level

level_of :
    (d : List ℕ) (o : Option BatteryInfo) {info : BatteryInfo}
    → Answers d o
    → o ≡ some info
    → IsLevel info.level
level_of d none a e = cc
level_of d (some i) a e = ground arith

voltage_level : (v flags : ℕ) → IsLevel (battery_info_from_voltage v flags).level
voltage_level v flags = inl (battery_info_from_voltage_mono v v flags flags (omega arith)).1

legacy-LevelOk : (e : Event) (n : Notification) → LevelOk (classify_legacy_battery e n)
unfolding classify_legacy_battery
legacy-LevelOk e n info h =
    let (u, s, c, l, t) = parsers-Answers n.payload in
    ground (
      arith,
      level_of n.payload (parse_battery_charge n.payload) {info = info} c,
      level_of n.payload (parse_legacy_battery_status n.payload) {info = info} l,
    )

hidpp10-LevelOk :
    (e : Event) (n : Notification) → e.battery_info ≡ none → LevelOk (classify_hidpp10 e n)
unfolding classify_hidpp10
hidpp10-LevelOk e n fresh info h = ground arith

feature-LevelOk :
    (ids : FeatureIds) (e : Event) (f : ℕ) (d : List ℕ)
    → e.battery_info ≡ none
    → LevelOk (classify_feature ids e f d)
unfolding classify_feature
feature-LevelOk ids e f d fresh info h =
    let (u, s, c, l, t) = parsers-Answers d in
    ground (
      arith,
      level_of d (parse_unified_battery d) {info = info} u,
      level_of d (parse_battery_status_feature d) {info = info} s,
      level_of d (parse_centurion_battery d) {info = info} t,
      voltage_level (read_be16 d) (at d 2),
    )

hidpp20-LevelOk :
    (ids : FeatureIds) (features : List (ℕ × ℕ)) (e : Event) (n : Notification)
    → e.battery_info ≡ none
    → LevelOk (classify_hidpp20 ids features e n)
hidpp20-LevelOk ids features e n fresh info h =
    unfold classify_hidpp20 in
    elim (Option-cases (notification_feature_id features n)) [
      | inl absent ↦ ground arith
      | inr (f, known) ↦ ground (
        arith,
        feature-LevelOk ids (record e { feature_id = f; feature_name = hidpp_feature_name ids f }) f
            n.payload fresh info,
      )
    ]

classify-LevelOk :
    (ids : FeatureIds) (blank : Event) (features : List (ℕ × ℕ)) (n : Notification)
    → blank.battery_info ≡ none
    → LevelOk (classify_hidpp_notification ids blank features n)
unfolding classify_hidpp_notification
classify-LevelOk ids blank features n fresh info h =
    let e : Event = record blank { device_index = n.device_index; payload = n.payload } in
    ground (
      arith,
      legacy-LevelOk e n info,
      hidpp10-LevelOk e n fresh info,
      hidpp20-LevelOk ids features e n fresh info,
    )

-- Every battery reading that an event carries is a percentage or the mark 255, provided a fresh
-- event carries none.
pub classify-IsLevel :
    (ids : FeatureIds) (blank : Event) (features : List (ℕ × ℕ)) (n : Notification)
    (info : BatteryInfo)
    → blank.battery_info ≡ none
    → (classify_hidpp_notification ids blank features n).battery_info ≡ some info
    → IsLevel info.level
classify-IsLevel ids blank features n info fresh h =
    classify-LevelOk ids blank features n fresh info h

-- The table holds no feature at the index.
abbrev pub IsFree : List (ℕ × ℕ) → ℕ → Type 0
IsFree features i = (f : ℕ) → Mem (f, i) features → ⊥

feature_id-IsFree :
    (features : List (ℕ × ℕ)) (i : ℕ) → feature_id features i ≡ none → IsFree features i
unfolding feature_id
feature_id-IsFree [] i h f m = m
feature_id-IsFree ((g, j) ∷ rest) i h f m = elim (Bool-cases (j == i)) [
  | inl e ↦ absurd (let wrong : some g ≡ none = rw e at h in cc)
  | inr e ↦ elim m [
    | inl same ↦ let here : i ≡ j = ap (λ p. p.1) same in ground arith
    | inr later ↦ feature_id-IsFree rest i (rw e at h) f later
  ]
]

IsFree-feature_id :
    (features : List (ℕ × ℕ)) (i : ℕ) → IsFree features i → feature_id features i ≡ none
unfolding feature_id
IsFree-feature_id [] i free = refl
IsFree-feature_id ((g, j) ∷ rest) i free = elim (Bool-cases (j == i)) [
  | inl e ↦ absurd (free g (inl (ap (λ k. (g, k)) (sym ((==_iff j i).0 e)))))
  | inr e ↦ rw e (IsFree-feature_id rest i (λ f m. free f (inr m)))
]

no_feature_iff :
    (features : List (ℕ × ℕ)) (n : Notification)
    → n.type ≡ hidpp20
    → (notification_feature_id features n ≡ none)
      ↔ ((n.feature_index ≡ 0) ⊎ IsFree features n.feature_index)
unfolding notification_feature_id
no_feature_iff features n h = elim (Bool-cases (n.feature_index == 0)) [
  | inl e ↦ (λ x. inl (ground arith), λ x. rw e refl)
  | inr e ↦
      rw (e, h)
        (
          λ x. inr (feature_id-IsFree features n.feature_index x),
          λ x. elim x [
            | inl z ↦ ground arith
            | inr free ↦ IsFree-feature_id features n.feature_index free
          ],
        )
]

unhandled_iff :
    (ids : FeatureIds) (blank : Event) (features : List (ℕ × ℕ)) (n : Notification)
    → ((classify_hidpp_notification ids blank features n).kind ≡ unhandled) ↔ (
        ((n.type ≡ hidpp10)
          × (n.sub_id ≢ 0x40)
          × (n.sub_id ≢ 0x41)
          × (n.sub_id ≢ 0x42)
          × (n.sub_id ≢ 0x4B))
        ⊎ ((n.type ≡ hidpp20) × (notification_feature_id features n ≡ none)))
unfolding classify_hidpp_notification
unhandled_iff ids blank features n = (ground arith, ground arith)

-- An event is dropped exactly in two cases: a HID++ 1.0 sub-id that is none of the four link
-- notifications, and a HID++ 2.0 notification whose index is 0 or stands nowhere in the device's
-- table.
pub classify-unhandled :
    (ids : FeatureIds) (blank : Event) (features : List (ℕ × ℕ)) (n : Notification)
    → ((classify_hidpp_notification ids blank features n).kind ≡ unhandled) ↔ (
        ((n.type ≡ hidpp10)
          × (n.sub_id ≢ 0x40)
          × (n.sub_id ≢ 0x41)
          × (n.sub_id ≢ 0x42)
          × (n.sub_id ≢ 0x4B))
        ⊎ ((n.type ≡ hidpp20) × ((n.feature_index ≡ 0) ⊎ IsFree features n.feature_index)))
classify-unhandled ids blank features n =
    let (drops, stays) = unhandled_iff ids blank features n in
    (
      λ x. elim (drops x) [
        | inl a ↦ inl a
        | inr b ↦ inr (b.0, (no_feature_iff features n b.0).0 b.1)
      ],
      λ x.
          stays
            (elim x [ inl a ↦ inl a | inr b ↦ inr (b.0, (no_feature_iff features n b.0).1 b.1) ]),
    )
