-- ===== src/Daemon/Deny/Window.antt =====
-- How long a device is denied (daemon/daemon.cpp).
use mathlib.Core.Path.{subst}
use abrek_mouse.Daemon.Deny.{
  Deadlines, deny_reopen_ms, deadline, put, is_live, DenyList, reopen_denied, deny_reopen, contains,
  prune_path_deny, prune_dev_deny,
}
use abrek_mouse.Prelude.{
  ℕ, ◌+◌, ◌≤◌, ◌≡◌, refl, sym, ap, ◌∙◌, ◌⊎◌, inl, inr, true, false, not, ◌||◌, none, some, List, [],
  ◌∷◌, arith, ltb, leb, if◌then◌else◌, Bool-cases, Text, text_eq, text_eq_sound, text_eq_refl,
  is_empty,
}

-- No name has two entries, as in a map.
abbrev pub IsMap : Deadlines → Type 0
IsMap [] = Unit
IsMap ((j, t) ∷ m) = (deadline j m ≡ none) × IsMap m

deadline-put : (k : Text) (t : ℕ) (m : Deadlines) → deadline k (put k t m) ≡ some t
unfolding deadline put
deadline-put k t [] = rw (text_eq_refl k) refl
deadline-put k t ((j, u) ∷ m) = elim (Bool-cases (text_eq j k)) [
  | inl e ↦ rw e (rw e refl)
  | inr e ↦ rw e (rw e (deadline-put k t m))
]

deadline-put_other :
    (k j : Text) (t : ℕ) (m : Deadlines)
    → text_eq k j ≡ false
    → deadline j (put k t m) ≡ deadline j m
unfolding deadline put
deadline-put_other k j t [] h = rw h refl
deadline-put_other k j t ((i, u) ∷ m) h = elim (Bool-cases (text_eq i k)) [
  | inl e ↦
      let other : text_eq i j ≡ false =
        subst (λ x. text_eq x j ≡ false) (sym (text_eq_sound i k e)) h in
      rw e (rw other refl)
  | inr e ↦ rw e (elim (Bool-cases (text_eq i j)) [
    | inl f ↦ rw f refl
    | inr f ↦ rw f (deadline-put_other k j t m h)
  ])
]

prune_path-none :
    (p : Text) (m : Deadlines) (mice : List Text) (now : ℕ)
    → deadline p m ≡ none
    → deadline p (prune_path_deny m mice now) ≡ none
unfolding deadline prune_path_deny
prune_path-none p [] mice now h = refl
prune_path-none p ((j, t) ∷ m) mice now h = elim (Bool-cases (text_eq j p)) [
  | inl e ↦ absurd (let wrong : some t ≡ none = rw e at h in cc)
  | inr e ↦
      let rest = prune_path-none p m mice now (rw e at h) in
      elim (Bool-cases (not (contains j mice) || leb t now)) [
        | inl d ↦ rw d rest
        | inr d ↦ rw d (rw e rest)
      ]
]

prune_dev-none :
    (p : Text) (m : Deadlines) (now : ℕ)
    → deadline p m ≡ none
    → deadline p (prune_dev_deny m now) ≡ none
unfolding deadline prune_dev_deny
prune_dev-none p [] now h = refl
prune_dev-none p ((j, t) ∷ m) now h = elim (Bool-cases (text_eq j p)) [
  | inl e ↦ absurd (let wrong : some t ≡ none = rw e at h in cc)
  | inr e ↦
      let rest = prune_dev-none p m now (rw e at h) in
      elim (Bool-cases (leb t now)) [ inl d ↦ rw d rest | inr d ↦ rw d (rw e rest) ]
]

is_live-past : (t now later : ℕ) → now ≤ later → leb t now ≡ true → is_live later (some t) ≡ false
unfolding is_live
is_live-past t now later le h = ground arith

-- From the pruning on, it makes no difference whether the expired entries are still there, and the
-- entries of absent paths count no more.
live-prune_path :
    (p : Text) (m : Deadlines) (mice : List Text) (now later : ℕ)
    → IsMap m
    → now ≤ later
    → contains p mice ≡ true
    → is_live later (deadline p (prune_path_deny m mice now)) ≡ is_live later (deadline p m)
unfolding deadline prune_path_deny
live-prune_path p [] mice now later v le here = refl
live-prune_path p ((j, t) ∷ m) mice now later (u, v) le here = elim (Bool-cases (text_eq j p)) [
  | inl e ↦
      let there : contains j mice ≡ true =
        subst (λ x. contains x mice ≡ true) (sym (text_eq_sound j p e)) here in
      let gone : deadline p m ≡ none = subst (λ x. deadline x m ≡ none) (text_eq_sound j p e) u in
      elim (Bool-cases (leb t now)) [
        | inl d ↦
            rw (there, d)
              (rw e (
                ap (is_live later) (prune_path-none p m mice now gone)
                ∙ unfold is_live in sym (is_live-past t now later le d)))
        | inr d ↦ rw (there, d) (rw e refl)
      ]
  | inr e ↦
      let rest = live-prune_path p m mice now later v le here in
      elim (Bool-cases (not (contains j mice) || leb t now)) [
        | inl d ↦ rw d (rw e rest)
        | inr d ↦ rw d (rw e rest)
      ]
]

live-prune_dev :
    (p : Text) (m : Deadlines) (now later : ℕ)
    → IsMap m
    → now ≤ later
    → is_live later (deadline p (prune_dev_deny m now)) ≡ is_live later (deadline p m)
unfolding deadline prune_dev_deny
live-prune_dev p [] now later v le = refl
live-prune_dev p ((j, t) ∷ m) now later (u, v) le = elim (Bool-cases (text_eq j p)) [
  | inl e ↦
      let gone : deadline p m ≡ none = subst (λ x. deadline x m ≡ none) (text_eq_sound j p e) u in
      elim (Bool-cases (leb t now)) [
        | inl d ↦ rw d (
            rw e (
              ap (is_live later) (prune_dev-none p m now gone)
              ∙ unfold is_live in sym (is_live-past t now later le d)))
        | inr d ↦ rw d (rw e refl)
      ]
  | inr e ↦
      let rest = live-prune_dev p m now later v le in
      elim (Bool-cases (leb t now)) [ inl d ↦ rw d (rw e rest) | inr d ↦ rw d (rw e rest) ]
]

put-IsMap : (k : Text) (t : ℕ) (m : Deadlines) → IsMap m → IsMap (put k t m)
unfolding put deadline
put-IsMap k t [] v = (refl, tt)
put-IsMap k t ((j, u) ∷ m) (h, v) = elim (Bool-cases (text_eq j k)) [
  | inl e ↦ rw e (h, v)
  | inr e ↦
      let apart : text_eq k j ≡ false = elim (Bool-cases (text_eq k j)) [
        | inl f ↦ absurd (
            let same : text_eq j k ≡ text_eq k k =
              ap (λ x. text_eq x k) (sym (text_eq_sound k j f)) in
            cc (text_eq_refl k))
        | inr f ↦ f
      ] in
      rw e (deadline-put_other k j t m apart ∙ h, put-IsMap k t m v)
]

-- The two prunings of a scan.
abbrev pub prune : DenyList → List Text → ℕ → DenyList
prune l mice now = record {
  path_deny = prune_path_deny l.path_deny mice now;
  dev_deny = prune_dev_deny l.dev_deny now;
}

denied_window :
    (path id : Text) (l : DenyList) (now later : ℕ)
    → reopen_denied path id (deny_reopen path id l now) later ≡ ltb later (now + deny_reopen_ms)
unfolding reopen_denied deny_reopen is_live
denied_window path id l now later =
    rw (deadline-put path (now + 5000) l.path_deny) (elim (Bool-cases (ltb later (now + 5000))) [
      | inl e ↦ rw e refl
      | inr e ↦ rw e (elim (Bool-cases (is_empty id)) [
        | inl f ↦ rw f refl
        | inr f ↦ rw f (rw (deadline-put id (now + 5000) l.dev_deny) (rw e refl))
      ])
    ])

denied-prune :
    (path id : Text) (l : DenyList) (mice : List Text) (now later : ℕ)
    → IsMap l.path_deny
    → IsMap l.dev_deny
    → now ≤ later
    → contains path mice ≡ true
    → reopen_denied path id (prune l mice now) later ≡ reopen_denied path id l later
unfolding reopen_denied
denied-prune path id l mice now later v w le here =
    rw (live-prune_path path l.path_deny mice now later v le here)
      (rw (live-prune_dev id l.dev_deny now later w le) refl)

dev_deny-IsMap :
    (id : Text) (t : ℕ) (m : Deadlines) → IsMap m → IsMap (if is_empty id then m else put id t m)
dev_deny-IsMap id t m v = elim (Bool-cases (is_empty id)) [
  | inl e ↦ rw e v
  | inr e ↦ rw e (put-IsMap id t m v)
]

-- What the two maps say by themselves behind the pruning.
module _ (path id : Text) (l : DenyList) (mice : List Text) (now scan later : ℕ)
    (v : IsMap l.path_deny) (w : IsMap l.dev_deny) (le : scan ≤ later) where
  abbrev after_scan : DenyList
  after_scan = prune (deny_reopen path id l now) mice scan

  path_window :
      contains path mice ≡ true
      → reopen_denied path [] after_scan later ≡ ltb later (now + deny_reopen_ms)
  unfolding reopen_denied deny_reopen
  path_window here =
      let m = put path (now + 5000) l.path_deny in
      rw
        (live-prune_path path m mice scan later (put-IsMap path (now + 5000) l.path_deny v) le here)
        (rw (deadline-put path (now + 5000) l.path_deny) (
          unfold is_live in
          elim (Bool-cases (ltb later (now + 5000))) [ inl e ↦ rw e refl | inr e ↦ rw e refl ]))

  id_window :
      (other : Text)
      → is_empty id ≡ false
      → text_eq path other ≡ false
      → deadline other l.path_deny ≡ none
      → reopen_denied other id after_scan later ≡ ltb later (now + deny_reopen_ms)
  unfolding reopen_denied deny_reopen is_live
  id_window other some_id apart absent =
      let m = put path (now + 5000) l.path_deny in
      let n = put id (now + 5000) l.dev_deny in
      let gone : deadline other (prune_path_deny m mice scan) ≡ none =
        prune_path-none other m mice scan
          (deadline-put_other path other (now + 5000) l.path_deny apart ∙ absent) in
      rw (gone, some_id)
        (live-prune_dev id n scan later (put-IsMap id (now + 5000) l.dev_deny w) le
          ∙ ap (is_live later) (deadline-put id (now + 5000) l.dev_deny))

-- A device that failed is denied for exactly 5000 ms, also when a scan prunes the lists meanwhile and
-- the path is still there: under its path and id, and under its path alone; and, unless it has no
-- id, under this id at any other path that was not denied before. Of the two maps no name has two
-- entries.
pub deny_reopen-window :
    (path other id : Text) (l : DenyList) (mice : List Text) (now scan later : ℕ)
    → IsMap l.path_deny
    → IsMap l.dev_deny
    → scan ≤ later
    → contains path mice ≡ true
    → text_eq path other ≡ false
    → deadline other l.path_deny ≡ none
    → (reopen_denied path id (prune (deny_reopen path id l now) mice scan) later
        ≡ ltb later (now + deny_reopen_ms))
      × (reopen_denied path [] (prune (deny_reopen path id l now) mice scan) later
          ≡ ltb later (now + deny_reopen_ms))
      × ((is_empty id ≡ true)
          ⊎ (reopen_denied other id (prune (deny_reopen path id l now) mice scan) later
              ≡ ltb later (now + deny_reopen_ms)))
deny_reopen-window path other id l mice now scan later v w le here apart absent = (
  denied-prune path id (deny_reopen path id l now) mice scan later
        (unfold deny_reopen in put-IsMap path (now + deny_reopen_ms) l.path_deny v)
        (unfold deny_reopen in dev_deny-IsMap id (now + deny_reopen_ms) l.dev_deny w) le here
      ∙ denied_window path id l now later,
  path_window path id l mice now scan later v w le here,
  elim (Bool-cases (is_empty id)) [
    | inl e ↦ inl e
    | inr e ↦ inr (id_window path id l mice now scan later v w le other e apart absent)
  ],
)
