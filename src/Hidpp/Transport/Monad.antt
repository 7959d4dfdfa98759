-- ===== src/Hidpp/Transport/Monad.antt =====
-- Methods of the transport in sequence: functions from a state to a result and the next state.
use abrek_mouse.Hidpp.Transport.State.{Transport}

abbrev pub M : Type 0 → Type 0
M A = Transport → A × Transport

abbrev pub pure : {A : Type 0} → A → M A
pure a t = (a, t)

infixl 5 ◌>>=◌ ◌>>◌
abbrev pub ◌>>=◌ : {A B : Type 0} → M A → (A → M B) → M B
◌>>=◌ m f t = let (a, t') = m t in f a t'

abbrev pub ◌>>◌ : {A B : Type 0} → M A → M B → M B
m >> k = m >>= λ _. k
