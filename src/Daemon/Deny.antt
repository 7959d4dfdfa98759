-- ===== src/Daemon/Deny.antt =====
-- The list of devices that are not opened again for a while (daemon/daemon.cpp): `deny_reopen`,
-- `reopen_denied`, `prune_path_deny` and `prune_dev_deny`. Times are whole milliseconds.
pub mod Window
use abrek_mouse.Prelude.{
  ℕ, zero, suc, ◌+◌, ◌-◌, ◌*◌, ◌/◌, ◌%◌, ◌^◌, ◌≤◌, ◌<◌, min, max, ◌≡◌, refl, sym, ap, ◌∙◌, ◌≢◌, ◌↔◌,
  ◌⊎◌, inl, inr, Bool, true, false, not, ◌&&◌, ◌||◌, Option, none, some, List, [], ◌∷◌, ◌++◌, map,
  append-nil, append_assoc, arith, ltb, leb, ◌==◌, if◌then◌else◌, ltb→lt, lt→ltb, leb→le, ==_iff,
  tests, Bool-cases, Option-cases, length, get_or, take, drop, replicate, length-append,
  length-take, length-drop, length-replicate, take-append-drop, take-length, All, any_of, find_if,
  dec_lt, Text, codes, text_eq, text_eq_sound, text_eq_refl, is_empty, is_digit, to_lower, ℤ, pos,
  negsuc, ltz, Mem, All-mono, All-zip, All-append, append-All, Mem-append,
}

-- A map from names to deadlines, at most one to a name.
abbrev pub Deadlines : Type 0
Deadlines = List (Text × ℕ)

-- `DENY_REOPEN_MS`.
abbrev pub deny_reopen_ms : ℕ
deny_reopen_ms = 5000

-- `find`, and the assignment to an element.
unfoldable pub deadline : Text → Deadlines → Option ℕ
unfolding text_eq
deadline k [] = none
deadline k ((j, t) ∷ m) = let rest = deadline k m in if text_eq j k then some t else rest

unfoldable pub put : Text → ℕ → Deadlines → Deadlines
unfolding text_eq
put k t [] = (k, t) ∷ []
put k t ((j, u) ∷ m) = let rest = put k t m in if text_eq j k then (j, t) ∷ m else (j, u) ∷ rest

-- An entry that is found and whose deadline is not over.
unfoldable pub is_live : ℕ → Option ℕ → Bool
is_live now none = false
is_live now (some t) = ltb now t

-- The two maps, by path and by device id.
pub record DenyList : Type 0 where
  pub path_deny : Deadlines
  pub dev_deny : Deadlines

-- `reopen_denied`.
unfoldable pub reopen_denied : Text → Text → DenyList → ℕ → Bool
reopen_denied path id l now =
    if is_live now (deadline path l.path_deny)
    then true
    else if is_empty id
    then false
    else is_live now (deadline id l.dev_deny)

-- `deny_reopen` at a time.
unfoldable pub deny_reopen : Text → Text → DenyList → ℕ → DenyList
deny_reopen path id l now = record {
  path_deny = put path (now + deny_reopen_ms) l.path_deny;
  dev_deny = if is_empty id then l.dev_deny else put id (now + deny_reopen_ms) l.dev_deny;
}

-- `present`: the path is one of the mice.
unfoldable pub contains : Text → List Text → Bool
unfolding text_eq
contains p [] = false
contains p (q ∷ qs) = text_eq q p || contains p qs

-- `prune_path_deny`.
unfoldable pub prune_path_deny : Deadlines → List Text → ℕ → Deadlines
unfolding contains
prune_path_deny [] mice now = []
prune_path_deny ((j, t) ∷ m) mice now =
    let rest = prune_path_deny m mice now in
    if not (contains j mice) || leb t now then rest else (j, t) ∷ rest

-- `prune_dev_deny`.
unfoldable pub prune_dev_deny : Deadlines → ℕ → Deadlines
prune_dev_deny [] now = []
prune_dev_deny ((j, t) ∷ m) now =
    let rest = prune_dev_deny m now in if leb t now then rest else (j, t) ∷ rest
