-- ===== src/Daemon/JsonStr/Unicode.antt =====
-- `json_str` (daemon/daemon.cpp) on texts in UTF-8.
use abrek_mouse.Prelude.{ℕ, not, ◌&&◌, ltb, ◌==◌, if◌then◌else◌}

-- Control characters become spaces, except tab, line feed and carriage return.
abbrev pub blanked : ℕ → ℕ
blanked p = if ltb p 0x20 && (not (p == 9) && (not (p == 10) && not (p == 13))) then 32 else p
