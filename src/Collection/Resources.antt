-- ===== src/Collection/Resources.antt =====
-- What a trace of system calls leaves behind: open descriptors and names of SHM objects.
use text.Mathlib.Text.{◌==◌ as str_eq}
use ipc_shm_arena_lend.Base.{ℕ, Bool, true, false, ◌&&◌, List, [], ◌∷◌, String, if◌then◌else◌, ◌==◌}
use ipc_shm_arena_lend.Collection.{Effect, opens, closes, unlinks}

-- Whether a descriptor is open after one effect. `close` gives the descriptor up also where it reports
-- an error.
fd_after : ℕ → Bool → Effect → Bool
fd_after fd b (opens name f) = if f == fd then true else b
fd_after fd b (closes f) = if f == fd then false else b
fd_after fd b e = b

-- Whether a descriptor is open after a trace.
unfoldable pub fd_open : ℕ → Bool → List Effect → Bool
unfolding fd_after
fd_open fd b [] = b
fd_open fd b (e ∷ es) = fd_open fd (fd_after fd b e) es

-- A name goes where `shm_unlink` succeeds.
name_after : String → Bool → Effect → Bool
name_after name b (opens n f) = if str_eq n name then true else b
name_after name b (unlinks n removed) = if str_eq n name && removed then false else b
name_after name b e = b

-- Whether a name exists after a trace, which creates every name that it opens.
unfoldable pub name_exists : String → Bool → List Effect → Bool
unfolding name_after
name_exists name b [] = b
name_exists name b (e ∷ es) = name_exists name (name_after name b e) es
